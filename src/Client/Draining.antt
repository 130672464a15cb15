-- ===== src/Client/Draining.antt =====
-- The loop over the waiting envelopes ends: src/index.ts, `drainPending`.
use mathlib.Core.Path.{subst}
use secure_chat_client.Client.Drain.{
  Drained, out_of_fuel, envelope_of, note_ack, drain_page, set_outside, drain_pending,
}
use secure_chat_client.Client.Inbound.{
  PendingEnvelope, InboundEnv, Receiver, Envelope, Handled, handled, interrupted, settle,
  dispatch_or_throw, thrown_unknown_otk, thrown, Times, ack_live, send_envelope_ack, handle_new,
  handle_inbound_ciphertext, decrypt_or_recover, accept_plaintext, forget_sender, decrypt_envelope,
  maybe_announce_peer_device, announce_refreshed, decode, dispatch_from, mark, dedup_of, with_dedup,
}
use secure_chat_client.Client.Once.{Decrypted-cases}
use secure_chat_client.Content.{ContentEvent}
use secure_chat_client.Dedup.{has}
use secure_chat_client.Prelude.JsSet
use secure_chat_client.Prelude.JsSet.{Subset}
use secure_chat_client.Prelude.{
  ℕ, zero, suc, ◌≡◌, ◌<◌, ◌⊎◌, refl, ap, ◌∙◌, true, ◌||◌, some, List, [], ◌∷◌, Text, ◌==◌, length,
  arith, inl, inr, Bool-cases, Option-cases,
}
use secure_chat_client.Sessions.{
  MsgType, SessionManager, forget_bundle, forget_peer_device, refresh_peer_bundles,
}

unfoldable pub page_uuids : List PendingEnvelope → List Text
page_uuids [] = []
page_uuids (p ∷ ps) = p.envelope_uuid ∷ page_uuids ps

-- What the server promises: it holds a queue of ids for the device; a page lists ids of it, and an
-- acknowledgement of some of its ids that succeeds makes it shorter. Nothing else changes it.
pub record HoldsQueue {S K : Type 0} (ie : InboundEnv S K) (device_id : Text)
    (queue : K → List Text) : Type 0 where
  pub decrypt_keeps :
      (peer device ciphertext : Text) (type : MsgType) (w : K)
      → queue (ie.crypto.decrypt_from_peer peer device ciphertext type w).1 ≡ queue w
  pub forget_keeps :
      (peer device : Text) (w : K) → queue (ie.crypto.forget_session peer device w) ≡ queue w
  pub claim_keeps : (self peer : Text) (w : K) → queue (ie.http.claim_all self peer w).1 ≡ queue w
  pub pending_keeps : (n : ℕ) (w : K) → queue (ie.pending_http.pending device_id n w).1 ≡ queue w
  pub pending_lists :
      (n : ℕ) (w : K) (page : List PendingEnvelope)
      → (ie.pending_http.pending device_id n w).0 ≡ some page
      → Subset (page_uuids page) (queue w)
  pub ack_takes :
      (u : Text) (us : List Text) (w : K)
      → Subset (u ∷ us) (queue w)
      → (ie.pending_http.ack device_id (u ∷ us) w).0 ≡ some tt
      → length (queue (ie.pending_http.ack device_id (u ∷ us) w).1) < length (queue w)

contains-note_ack :
    (a uuid : Text) (out : Handled) (uuids : List Text)
    → JsSet.contains a (note_ack uuid out uuids) ≡ true
    → (uuid == a || JsSet.contains a uuids) ≡ true
unfolding JsSet.contains
contains-note_ack a uuid handled uuids there = there
contains-note_ack a uuid thrown_unknown_otk uuids there = there
contains-note_ack a uuid interrupted uuids there = ground (arith, there)
contains-note_ack a uuid thrown uuids there = ground (arith, there)

ids-cases : (xs : List Text) → (xs ≡ []) ⊎ ((x : Text) × ((rest : List Text) × (xs ≡ x ∷ rest)))
ids-cases [] = inl refl
ids-cases (x ∷ rest) = inr (x, (rest, refl))

abbrev pub Ends : Drained → Type 0
Ends out_of_fuel = ⊥
Ends _ = Unit

module _ {S K : Type 0} (ie : InboundEnv S K) (device_id : Text) (clock : Text → Times)
    (queue : K → List Text) (server : HoldsQueue ie device_id queue) where
  abbrev waiting : Receiver S K → List Text
  waiting r = queue r.sessions.outside

  -- The state with the server's answer, and after its page.
  abbrev answered : Receiver S K → Receiver S K
  answered r =
      set_outside ie device_id clock (ie.pending_http.pending device_id 100 r.sessions.outside).1 r

  abbrev paged : List PendingEnvelope → Receiver S K → Receiver S K
  paged page r = (drain_page ie device_id clock page (answered r)).1

  abbrev rested : List PendingEnvelope → Text → List Text → Receiver S K → Receiver S K
  rested page u us r =
      set_outside ie device_id clock
        (ie.pending_http.ack device_id (u ∷ us) (paged page r).sessions.outside).1 (paged page r)

  refresh-waiting :
      (peer : Text) (m : SessionManager K)
      → queue (refresh_peer_bundles ie.crypto ie.http ie.options peer m).1.outside ≡ queue m.outside
  unfolding refresh_peer_bundles
  refresh-waiting peer m =
      ground (arith, server.claim_keeps ie.options.self_device_id peer m.outside)

  forget_bundle-outside :
      (peer device : Text) (m : SessionManager K)
      → (forget_bundle ie.crypto ie.http ie.options peer device m).outside ≡ m.outside
  unfolding forget_bundle
  forget_bundle-outside peer device m = ground arith

  forget_sender-waiting :
      (e : Envelope) (t : Times) (r : Receiver S K) → waiting (forget_sender ie e t r) ≡ waiting r
  unfolding forget_sender forget_peer_device
  forget_sender-waiting e t r =
      server.forget_keeps e.peer_user_id e.peer_device_id
        (forget_bundle ie.crypto ie.http ie.options e.peer_user_id e.peer_device_id
          r.sessions).outside
      ∙ ap queue (forget_bundle-outside e.peer_user_id e.peer_device_id r.sessions)

  decrypt_envelope-waiting :
      (e : Envelope) (r : Receiver S K) → waiting (decrypt_envelope ie e r).1 ≡ waiting r
  decrypt_envelope-waiting e r =
      server.decrypt_keeps e.peer_user_id e.peer_device_id e.ciphertext e.msg_type
        r.sessions.outside

  decrypt_or_recover-waiting :
      (e : Envelope) (t : Times) (r : Receiver S K)
      → waiting (decrypt_or_recover ie e t r).1 ≡ waiting r
  unfolding decrypt_or_recover
  decrypt_or_recover-waiting e t r =
      let r1 : Receiver S K = (decrypt_envelope ie e r).1 in
      ground (
        arith,
        decrypt_envelope-waiting e r,
        forget_sender-waiting e t r1,
        decrypt_envelope-waiting e (forget_sender ie e t r1),
      )

  announce_refreshed-waiting :
      (peer device : Text) (t : Times) (r : Receiver S K)
      → waiting (announce_refreshed ie peer device t r) ≡ waiting r
  unfolding announce_refreshed
  announce_refreshed-waiting peer device t r = ground (arith, refresh-waiting peer r.sessions)

  maybe_announce-waiting :
      (peer device : Text) (t : Times) (r : Receiver S K)
      → waiting (maybe_announce_peer_device ie peer device t r) ≡ waiting r
  unfolding maybe_announce_peer_device
  maybe_announce-waiting peer device t r =
      grind (arith, refresh-waiting peer r.sessions, announce_refreshed-waiting)

  ack_live-waiting : (e : Envelope) (r : Receiver S K) → waiting (ack_live e r) ≡ waiting r
  unfolding ack_live send_envelope_ack
  ack_live-waiting e r = ground arith

  dispatch_or_throw-waiting :
      (e : Envelope) (event : ContentEvent) (t : Times) (r : Receiver S K)
      → waiting (dispatch_or_throw ie e event t r).1 ≡ waiting r
  unfolding dispatch_or_throw
  dispatch_or_throw-waiting e event t r =
      elim (Option-cases (ie.interrupts event t.dispatched_at r.client)) [
        | inl done ↦
            rw (dispatch_or_throw, done) (ack_live-waiting e (dispatch_from ie e event t r))
        | inr (left_behind, failed) ↦ rw (dispatch_or_throw, failed) refl
      ]

  settle-waiting :
      (uuid : Text) (out : Handled) (r : Receiver S K)
      → waiting (settle ie uuid (out, r)).1 ≡ waiting r
  settle-waiting uuid handled r = refl
  settle-waiting uuid interrupted r = refl
  settle-waiting uuid thrown_unknown_otk r = refl
  settle-waiting uuid thrown r = refl

  accept_plaintext-waiting :
      (e : Envelope) (plaintext : Text) (t : Times) (r : Receiver S K)
      → waiting (accept_plaintext ie e plaintext t r).1 ≡ waiting r
  unfolding accept_plaintext
  accept_plaintext-waiting e plaintext t r =
      let r1 : Receiver S K = maybe_announce_peer_device ie e.peer_user_id e.peer_device_id t r in
      elim (Option-cases (decode ie plaintext)) [
        | inl unreadable ↦
            rw (accept_plaintext, unreadable)
              (maybe_announce-waiting e.peer_user_id e.peer_device_id t r)
        | inr (event, readable) ↦
            rw (accept_plaintext, readable)
              (dispatch_or_throw-waiting e event t r1
                ∙ maybe_announce-waiting e.peer_user_id e.peer_device_id t r)
      ]

  handle_new-waiting :
      (e : Envelope) (t : Times) (r : Receiver S K) → waiting (handle_new ie e t r).1 ≡ waiting r
  unfolding handle_new
  handle_new-waiting e t r =
      let r0 : Receiver S K = mark ie e.envelope_uuid t.added_at r in
      let r1 : Receiver S K = (decrypt_or_recover ie e t r0).1 in
      elim (Decrypted-cases (decrypt_or_recover ie e t r0).0) [
        | inl (plaintext, fine) ↦
            rw (handle_new, fine)
              (settle-waiting e.envelope_uuid (accept_plaintext ie e plaintext t r1).0
                  (accept_plaintext ie e plaintext t r1).1
                ∙ accept_plaintext-waiting e plaintext t r1
                ∙ decrypt_or_recover-waiting e t r0)
        | inr (inl gone) ↦ rw (handle_new, gone) (decrypt_or_recover-waiting e t r0)
        | inr (inr bad) ↦ rw (handle_new, bad) (decrypt_or_recover-waiting e t r0)
      ]

  handle-waiting :
      (e : Envelope) (t : Times) (r : Receiver S K)
      → waiting (handle_inbound_ciphertext ie e t r).1 ≡ waiting r
  unfolding handle_inbound_ciphertext has
  handle-waiting e t r =
      let looked = has ie.env.kv ie.env.numerals e.envelope_uuid (dedup_of r) in
      let r1 : Receiver S K = with_dedup looked.1 r in
      elim (Bool-cases looked.0) [
        | inl known ↦ rw (handle_inbound_ciphertext, known) (ack_live-waiting e r1)
        | inr new ↦ rw (handle_inbound_ciphertext, new) (handle_new-waiting e t r1)
      ]

  drain_page-waiting :
      (ps : List PendingEnvelope) (r : Receiver S K)
      → waiting (drain_page ie device_id clock ps r).1 ≡ waiting r
  unfolding drain_page
  drain_page-waiting [] r = refl
  drain_page-waiting (p ∷ ps) r =
      let t : Times = clock p.envelope_uuid in
      drain_page-waiting ps (handle_inbound_ciphertext ie (envelope_of p) t r).1
      ∙ handle-waiting (envelope_of p) t r

  drain_page-Subset :
      (ps : List PendingEnvelope) (r : Receiver S K)
      → Subset (drain_page ie device_id clock ps r).0 (page_uuids ps)
  unfolding drain_page JsSet.contains page_uuids
  drain_page-Subset [] r a there = there
  drain_page-Subset (p ∷ ps) r a there =
      let out = handle_inbound_ciphertext ie (envelope_of p) (clock p.envelope_uuid) r in
      let rest : List Text = (drain_page ie device_id clock ps out.1).0 in
      ground
        (arith, contains-note_ack a p.envelope_uuid out.0 rest there, drain_page-Subset ps out.1 a)

  -- The queue before a page is the one after it.
  ack_shortens :
      (page : List PendingEnvelope) (r : Receiver S K) (u : Text) (us : List Text)
      → (ie.pending_http.pending device_id 100 r.sessions.outside).0 ≡ some page
      → (drain_page ie device_id clock page (answered r)).0 ≡ u ∷ us
      → (ie.pending_http.ack device_id (u ∷ us) (paged page r).sessions.outside).0 ≡ some tt
      → length (queue (ie.pending_http.ack device_id (u ∷ us) (paged page r).sessions.outside).1)
        < length (waiting r)
  ack_shortens page r u us listed ids taken =
      let w : K = (paged page r).sessions.outside in
      let same : queue w ≡ waiting r =
        drain_page-waiting page (answered r) ∙ server.pending_keeps 100 r.sessions.outside in
      let sub : Subset (u ∷ us) (queue w) = λ a there.
        ap (JsSet.contains a) same
        ∙ server.pending_lists 100 r.sessions.outside page listed a
            (drain_page-Subset page (answered r) a (ap (JsSet.contains a) ids ∙ there)) in
      subst (λ q. length (queue (ie.pending_http.ack device_id (u ∷ us) w).1) < length q) same
        (server.ack_takes u us w sub taken)

  -- If the server holds a queue of envelopes that an acknowledgement makes shorter, the drain ends
  -- with as many rounds as envelopes wait and one more, whatever the envelopes hold: with an empty
  -- page or one of which nothing is done with, or with an error of the HTTP client.
  pub drain_pending-Ends :
      (fuel : ℕ) (r : Receiver S K)
      → length (waiting r) < fuel
      → Ends (drain_pending ie device_id clock fuel r).0
  unfolding drain_pending
  drain_pending-Ends zero r enough = omega (arith, enough)
  drain_pending-Ends (suc fuel) r enough =
      elim (Option-cases (ie.pending_http.pending device_id 100 r.sessions.outside).0) [
        | inl failed ↦ rw (drain_pending, failed) tt
        | inr ([], listed) ↦ rw (drain_pending, listed) tt
        | inr (p ∷ ps, listed) ↦
            let page : List PendingEnvelope = p ∷ ps in
            elim (ids-cases (drain_page ie device_id clock page (answered r)).0) [
              | inl nothing ↦ rw (drain_pending, listed, nothing) tt
              | inr (u, (us, ids)) ↦
                  let w : K = (paged page r).sessions.outside in
                  elim (Option-cases (ie.pending_http.ack device_id (u ∷ us) w).0) [
                    | inl failed ↦ rw (drain_pending, listed, ids, failed) tt
                    | inr (done, taken) ↦
                        rw (drain_pending, listed, ids, taken)
                          (drain_pending-Ends fuel (rested page u us r)
                            (omega (arith, enough, ack_shortens page r u us listed ids taken)))
                  ]
            ]
      ]
