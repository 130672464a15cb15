-- ===== src/Client/Once.antt =====
-- No envelope is processed twice, and a failed one can be tried again: src/index.ts,
-- `handleInboundCiphertext`, over src/envelope_dedup.ts.
use secure_chat_client.Client.{Client}
use secure_chat_client.Client.Inbound.{
  thrown, thrown_unknown_otk, InboundEnv, Receiver, Envelope, Handled, handled, Times, dedup_of,
  ack_live, send_envelope_ack, handle_new, settle, interrupted, dispatch_or_throw,
  handle_inbound_ciphertext, decrypt_or_recover, accept_plaintext, mark, unmark, forget_sender,
  maybe_announce_peer_device, announce_refreshed, decode, dispatch_from,
}
use secure_chat_client.Content.{ContentEvent}
use secure_chat_client.Dedup.{
  Numerals, key_prefix, EnvelopeDedup, cap, trim, add, add_known, remove, remove_known, has,
}
use secure_chat_client.Dedup.Capacity.{init_ready}
use secure_chat_client.Dedup.Footprint.{add_known-at, remove_known-at}
use secure_chat_client.Prelude.JsMap
use secure_chat_client.Prelude.JsMap.{JsMap}
use secure_chat_client.Prelude.{
  ℕ, ◌≡◌, ◌⊎◌, refl, ap, ◌∙◌, Bool, true, false, [], ◌∷◌, ◌++◌, Text, eq_iff, is_empty, ltb, length,
  arith, inl, inr, Bool-cases, Option-cases, Option, some, starts_with,
}
use secure_chat_client.Sessions.{plain, unknown_one_time_key, broken, Decrypted}
use secure_chat_client.Store.{Stored, KvOps, IsLawful}

has-append : (k : Text) (v : ℕ) (m : JsMap ℕ) → JsMap.has k (m ++ (k, v) ∷ []) ≡ true
unfolding JsMap.lookup
has-append k v [] = ground (arith, eq_iff k k)
has-append k v ((j, w) ∷ m) = ground (arith, has-append k v m)

-- The newest id is never the one that goes.
trim-newest :
    {S : Type 0} (kv : KvOps S) (k : Text) (v : ℕ) (m : JsMap ℕ) (s : S)
    → JsMap.has k (trim kv (m ++ (k, v) ∷ []) s).0 ≡ true
unfolding trim JsMap.lookup
trim-newest kv k v [] s = ground (arith, eq_iff k k)
trim-newest kv k v ((j, w) ∷ m) s =
    elim (Bool-cases (ltb cap (length ((j, w) ∷ (m ++ (k, v) ∷ []))))) [
      | inr fits ↦ rw (trim, fits) (has-append k v ((j, w) ∷ m))
      | inl over ↦ elim (Bool-cases (is_empty j)) [
        | inl unnamed ↦ rw (trim, over, unnamed) (has-append k v ((j, w) ∷ m))
        | inr named ↦ rw (trim, over, named) (trim-newest kv k v m (kv.delete (key_prefix ++ j) s))
      ]
    ]

add_known-has :
    {S : Type 0} (kv : KvOps S) (numerals : Numerals) (k : Text) (now : ℕ) (d : EnvelopeDedup S)
    → JsMap.has k (add_known kv numerals k now d).cache ≡ true
unfolding add_known
add_known-has {S} kv numerals k now d = elim (Bool-cases (JsMap.has k d.cache)) [
  | inl there ↦ rw (add_known, there) there
  | inr new ↦
      let s : S = kv.set_string (key_prefix ++ k) (numerals.print now) d.store in
      let last : JsMap.insert k now d.cache ≡ d.cache ++ (k, now) ∷ [] =
        JsMap.insert_absent k now d.cache (ground (arith, new)) in
      elim (Bool-cases (ltb cap (length (JsMap.insert k now d.cache)))) [
        | inl over ↦ rw (add_known, new, over, last) (trim-newest kv k now d.cache s)
        | inr fits ↦
            rw (add_known, new, fits) (ground (arith, JsMap.lookup-insert_self k now d.cache))
      ]
]

remove_known-has :
    {S : Type 0} (kv : KvOps S) (numerals : Numerals) (k : Text) (d : EnvelopeDedup S)
    → JsMap.has k (remove_known kv numerals k d).cache ≡ false
unfolding remove_known
remove_known-has kv numerals k d = elim (Bool-cases (JsMap.has k d.cache)) [
  | inl there ↦
      rw (remove_known, there) (ground (arith, JsMap.lookup-erase k k d.cache, eq_iff k k))
  | inr gone ↦ rw (remove_known, gone) gone
]

pub Decrypted-cases :
    (d : Decrypted) → ((s : Text) × (d ≡ plain s)) ⊎ ((d ≡ unknown_one_time_key) ⊎ (d ≡ broken))
Decrypted-cases (plain s) = inl (s, refl)
Decrypted-cases unknown_one_time_key = inr (inl refl)
Decrypted-cases broken = inr (inr refl)

module _ {S K : Type 0} (ie : InboundEnv S K) where
  -- What an envelope can change besides the sessions, the known devices and the memory, whose keys
  -- in the storage have a prefix of their own.
  pub record IsUntouched (at : Text → S → Option Stored) (r r' : Receiver S K) : Type 0 where
    pub store :
        (k : Text) → starts_with key_prefix k ≡ false → at k r'.client.store ≡ at k r.client.store
    pub messages : r'.client.messages ≡ r.client.messages
    pub conversations : r'.client.conversations ≡ r.client.conversations
    pub status : r'.client.status ≡ r.client.status
    pub notices : r'.client.notices ≡ r.client.notices
    pub receipts : r'.client.receipts ≡ r.client.receipts
    pub pending_received : r'.client.pending_received ≡ r.client.pending_received
    pub acks : r'.acks ≡ r.acks

  abbrev pub is_processed : Text → Receiver S K → Bool
  is_processed uuid r = JsMap.has uuid r.processed

  mark-is_processed :
      (uuid : Text) (now : ℕ) (r : Receiver S K)
      → r.initialized ≡ true
      → is_processed uuid (mark ie uuid now r) ≡ true
  unfolding add
  mark-is_processed uuid now r ready =
      rw (add, init_ready ie.env.kv ie.env.numerals (dedup_of r) ready)
        (add_known-has ie.env.kv ie.env.numerals uuid now (dedup_of r))

  unmark-is_processed :
      (uuid : Text) (r : Receiver S K)
      → r.initialized ≡ true
      → is_processed uuid (unmark ie uuid r) ≡ false
  unfolding remove
  unmark-is_processed uuid r ready =
      rw (remove, init_ready ie.env.kv ie.env.numerals (dedup_of r) ready)
        (remove_known-has ie.env.kv ie.env.numerals uuid (dedup_of r))

  -- The memory of envelopes stays.
  pub record IsRemembered (r r' : Receiver S K) : Type 0 where
    pub processed : r'.processed ≡ r.processed
    pub initialized : r'.initialized ≡ r.initialized

  decrypt_or_recover-IsUntouched :
      (at : Text → S → Option Stored) (e : Envelope) (t : Times) (r : Receiver S K)
      → IsUntouched at r (decrypt_or_recover ie e t r).1
  unfolding decrypt_or_recover forget_sender
  decrypt_or_recover-IsUntouched at e t r = record {
    store = λ k outside. ground arith;
    messages = ground arith;
    conversations = ground arith;
    status = ground arith;
    notices = ground arith;
    receipts = ground arith;
    pending_received = ground arith;
    acks = ground arith;
  }

  pub decrypt_or_recover-IsRemembered :
      (e : Envelope) (t : Times) (r : Receiver S K) → IsRemembered r (decrypt_or_recover ie e t r).1
  unfolding decrypt_or_recover forget_sender
  decrypt_or_recover-IsRemembered e t r = record {
    processed = ground arith;
    initialized = ground arith;
  }

  maybe_announce_peer_device-IsRemembered :
      (peer device : Text) (t : Times) (r : Receiver S K)
      → IsRemembered r (maybe_announce_peer_device ie peer device t r)
  unfolding maybe_announce_peer_device announce_refreshed
  maybe_announce_peer_device-IsRemembered peer device t r = record {
    processed = ground arith;
    initialized = ground arith;
  }

  pub ack_live-IsRemembered : (e : Envelope) (r : Receiver S K) → IsRemembered r (ack_live e r)
  unfolding ack_live send_envelope_ack
  ack_live-IsRemembered e r = record { processed = ground arith; initialized = ground arith }

  dispatch_or_throw-IsRemembered :
      (e : Envelope) (event : ContentEvent) (t : Times) (r : Receiver S K)
      → IsRemembered r (dispatch_or_throw ie e event t r).1
  unfolding dispatch_or_throw
  dispatch_or_throw-IsRemembered e event t r =
      elim (Option-cases (ie.interrupts event t.dispatched_at r.client)) [
        | inl done ↦
            let acked : IsRemembered (dispatch_from ie e event t r)
                (ack_live e (dispatch_from ie e event t r)) =
              ack_live-IsRemembered e (dispatch_from ie e event t r) in
            rw (dispatch_or_throw, done)
              (record { processed = acked.processed; initialized = acked.initialized })
        | inr (left_behind, failed) ↦
            rw (dispatch_or_throw, failed) (record { processed = refl; initialized = refl })
      ]

  pub accept_plaintext-IsRemembered :
      (e : Envelope) (plaintext : Text) (t : Times) (r : Receiver S K)
      → IsRemembered r (accept_plaintext ie e plaintext t r).1
  unfolding accept_plaintext
  accept_plaintext-IsRemembered e plaintext t r =
      let r1 : Receiver S K = maybe_announce_peer_device ie e.peer_user_id e.peer_device_id t r in
      let h1 : IsRemembered r r1 =
        maybe_announce_peer_device-IsRemembered e.peer_user_id e.peer_device_id t r in
      elim (Option-cases (decode ie plaintext)) [
        | inl unreadable ↦ rw (accept_plaintext, unreadable) h1
        | inr (event, readable) ↦
            let h2 : IsRemembered r1 (dispatch_or_throw ie e event t r1).1 =
              dispatch_or_throw-IsRemembered e event t r1 in
            rw (accept_plaintext, readable)
              (record {
                processed = h2.processed ∙ h1.processed;
                initialized = h2.initialized ∙ h1.initialized;
              })
      ]

  pub mark-initialized :
      (uuid : Text) (now : ℕ) (r : Receiver S K)
      → r.initialized ≡ true
      → (mark ie uuid now r).initialized ≡ true
  unfolding add add_known
  mark-initialized uuid now r ready =
      rw (add, init_ready ie.env.kv ie.env.numerals (dedup_of r) ready) (ground (arith, ready))

  pub unmark-initialized :
      (uuid : Text) (r : Receiver S K)
      → r.initialized ≡ true
      → (unmark ie uuid r).initialized ≡ true
  unfolding remove remove_known
  unmark-initialized uuid r ready =
      rw (remove, init_ready ie.env.kv ie.env.numerals (dedup_of r) ready) (ground (arith, ready))

  -- A dispatch threw, and the client is as it left it, but for the note in the memory.
  abbrev pub IsInterrupted : Times → Receiver S K → Type 0
  IsInterrupted t r' =
      (event : ContentEvent) × ((c : Client S) × ((c' : Client S) × (ie.interrupts event
                t.dispatched_at c
              ≡ some c'
            × ((r'.client.messages ≡ c'.messages) × (r'.client.notices ≡ c'.notices)))))

  -- How the handler leaves the client.
  abbrev pub IsSettled :
      (Text → S → Option Stored) → Envelope → Times → Receiver S K → Handled → Receiver S K → Type 0
  IsSettled at e t r handled r' = is_processed e.envelope_uuid r' ≡ true
  IsSettled at e t r interrupted r' = (is_processed e.envelope_uuid r' ≡ false) × IsInterrupted t r'
  IsSettled at e t r _ r' = (is_processed e.envelope_uuid r' ≡ false) × IsUntouched at r r'

  -- How the handling of a plaintext ends.
  abbrev Accepted : Times → Handled → Receiver S K → Type 0
  Accepted t handled r' = Unit
  Accepted t interrupted r' = IsInterrupted t r'
  Accepted t _ r' = ⊥

  accept_plaintext-Accepted :
      (e : Envelope) (plaintext : Text) (t : Times) (r : Receiver S K)
      → Accepted t (accept_plaintext ie e plaintext t r).0 (accept_plaintext ie e plaintext t r).1
  unfolding accept_plaintext dispatch_or_throw
  accept_plaintext-Accepted e plaintext t r =
      let r1 : Receiver S K = maybe_announce_peer_device ie e.peer_user_id e.peer_device_id t r in
      elim (Option-cases (decode ie plaintext)) [
        | inl unreadable ↦ rw (accept_plaintext, unreadable) tt
        | inr (event, readable) ↦
            elim (Option-cases (ie.interrupts event t.dispatched_at r1.client)) [
              | inl done ↦ rw (accept_plaintext, readable, dispatch_or_throw, done) tt
              | inr (left_behind, failed) ↦
                  rw (accept_plaintext, readable, dispatch_or_throw, failed)
                    (event, (r1.client, (left_behind, (failed, (refl, refl)))))
            ]
      ]

  IsUntouched-unmark :
      (at : Text → S → Option Stored) (l : IsLawful ie.env.kv at) (uuid : Text) (now : ℕ)
      (r r' : Receiver S K)
      → r.initialized ≡ true
      → r'.initialized ≡ true
      → IsUntouched at (mark ie uuid now r) r'
      → IsUntouched at r (unmark ie uuid r')
  unfolding add remove
  IsUntouched-unmark at l uuid now r r' ready ready' h = record {
    store = λ k outside.
        ap (λ d. at k (remove_known ie.env.kv ie.env.numerals uuid d).store)
          (init_ready ie.env.kv ie.env.numerals (dedup_of r') ready')
        ∙ remove_known-at ie.env.kv at l k outside ie.env.numerals uuid (dedup_of r')
        ∙ h.store k outside
        ∙ ap (λ d. at k (add_known ie.env.kv ie.env.numerals uuid now d).store)
            (init_ready ie.env.kv ie.env.numerals (dedup_of r) ready)
        ∙ add_known-at ie.env.kv at l k outside ie.env.numerals uuid now (dedup_of r);
    messages = h.messages;
    conversations = h.conversations;
    status = h.status;
    notices = h.notices;
    receipts = h.receipts;
    pending_received = h.pending_received;
    acks = h.acks;
  }

  -- The note stays exactly if the handling ended without an error.
  settle-IsSettled :
      (at : Text → S → Option Stored) (e : Envelope) (t : Times) (r : Receiver S K) (out : Handled)
      (r' : Receiver S K)
      → r'.initialized ≡ true
      → is_processed e.envelope_uuid r' ≡ true
      → Accepted t out r'
      → IsSettled at e t r
          (settle ie e.envelope_uuid (out, r')).0
          (settle ie e.envelope_uuid (out, r')).1
        × ((settle ie e.envelope_uuid (out, r')).1.initialized ≡ true)
  settle-IsSettled at e t r handled r' ready noted ended = (noted, ready)
  settle-IsSettled at e t r interrupted r' ready noted ended = (
    (unmark-is_processed e.envelope_uuid r' ready, ended),
    unmark-initialized e.envelope_uuid r' ready,
  )
  settle-IsSettled at e t r thrown_unknown_otk r' ready noted ended = elim ended [ ]
  settle-IsSettled at e t r thrown r' ready noted ended = elim ended [ ]

  handle_new-IsSettled :
      (at : Text → S → Option Stored) (l : IsLawful ie.env.kv at) (e : Envelope) (t : Times)
      (r : Receiver S K)
      → r.initialized ≡ true
      → IsSettled at e t r (handle_new ie e t r).0 (handle_new ie e t r).1
        × ((handle_new ie e t r).1.initialized ≡ true)
  unfolding handle_new
  handle_new-IsSettled at l e t r ready =
      let r0 : Receiver S K = mark ie e.envelope_uuid t.added_at r in
      let r1 : Receiver S K = (decrypt_or_recover ie e t r0).1 in
      let h1 : IsRemembered r0 r1 = decrypt_or_recover-IsRemembered e t r0 in
      let ready1 : r1.initialized ≡ true =
        h1.initialized ∙ mark-initialized e.envelope_uuid t.added_at r ready in
      let undone : (is_processed e.envelope_uuid (unmark ie e.envelope_uuid r1) ≡ false)
          × IsUntouched at r (unmark ie e.envelope_uuid r1) =
        (
          unmark-is_processed e.envelope_uuid r1 ready1,
          IsUntouched-unmark at l e.envelope_uuid t.added_at r r1 ready ready1
              (decrypt_or_recover-IsUntouched at e t r0),
        ) in
      elim (Decrypted-cases (decrypt_or_recover ie e t r0).0) [
        | inl (plaintext, fine) ↦
            let h2 : IsRemembered r1 (accept_plaintext ie e plaintext t r1).1 =
              accept_plaintext-IsRemembered e plaintext t r1 in
            rw (handle_new, fine)
              (settle-IsSettled at e t r (accept_plaintext ie e plaintext t r1).0
                (accept_plaintext ie e plaintext t r1).1 (h2.initialized ∙ ready1)
                (ap (JsMap.has e.envelope_uuid) (h2.processed ∙ h1.processed)
                  ∙ mark-is_processed e.envelope_uuid t.added_at r ready)
                (accept_plaintext-Accepted e plaintext t r1))
        | inr (inl gone) ↦
            rw (handle_new, gone) (undone, unmark-initialized e.envelope_uuid r1 ready1)
        | inr (inr bad) ↦
            rw (handle_new, bad) (undone, unmark-initialized e.envelope_uuid r1 ready1)
      ]

  pub handle_known :
      (e : Envelope) (t : Times) (r : Receiver S K)
      → r.initialized ≡ true
      → is_processed e.envelope_uuid r ≡ true
      → handle_inbound_ciphertext ie e t r ≡ (handled, ack_live e r)
  unfolding handle_inbound_ciphertext has
  handle_known e t r ready known =
      rw
        (
          handle_inbound_ciphertext,
          has,
          init_ready ie.env.kv ie.env.numerals (dedup_of r) ready,
          known,
        )
        refl

  pub handle_unknown :
      (e : Envelope) (t : Times) (r : Receiver S K)
      → r.initialized ≡ true
      → is_processed e.envelope_uuid r ≡ false
      → handle_inbound_ciphertext ie e t r ≡ handle_new ie e t r
  unfolding handle_inbound_ciphertext has
  handle_unknown e t r ready new =
      rw
        (
          handle_inbound_ciphertext,
          has,
          init_ready ie.env.kv ie.env.numerals (dedup_of r) ready,
          new,
        )
        refl

  -- Over a lawful store, once the memory of envelopes is loaded. An envelope whose handling ends
  -- without an error is in the memory afterwards; one whose handling throws is not, so that it can be
  -- tried again. If it throws because it cannot be read, the messages, the conversations, the
  -- statuses, the receipts, the calls of listeners, the frames sent, and what is stored under any
  -- key but those of the memory are as they were. If the dispatch of its event throws, the client's
  -- messages and calls of listeners are those that the dispatch left.
  pub handle_inbound_ciphertext-IsSettled :
      (at : Text → S → Option Stored)
      → IsLawful ie.env.kv at
      → (e : Envelope) (t : Times) (r : Receiver S K) → r.initialized ≡ true
      → IsSettled at e t r
          (handle_inbound_ciphertext ie e t r).0
          (handle_inbound_ciphertext ie e t r).1
  handle_inbound_ciphertext-IsSettled at l e t r ready =
      elim (Bool-cases (is_processed e.envelope_uuid r)) [
        | inr new ↦ rw (handle_unknown e t r ready new) (handle_new-IsSettled at l e t r ready).0
        | inl known ↦
            rw (handle_known e t r ready known)
              (ap (JsMap.has e.envelope_uuid) (ack_live-IsRemembered e r).processed ∙ known)
      ]

  handle-initialized :
      (at : Text → S → Option Stored)
      → IsLawful ie.env.kv at
      → (e : Envelope) (t : Times) (r : Receiver S K) → r.initialized ≡ true
      → (handle_inbound_ciphertext ie e t r).1.initialized ≡ true
  handle-initialized at l e t r ready = elim (Bool-cases (is_processed e.envelope_uuid r)) [
    | inr new ↦ rw (handle_unknown e t r ready new) (handle_new-IsSettled at l e t r ready).1
    | inl known ↦
        rw (handle_known e t r ready known) ((ack_live-IsRemembered e r).initialized ∙ ready)
  ]
