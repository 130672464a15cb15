-- ===== src/Sessions/Recovery.antt =====
-- When a peer without devices is asked for again: src/sessions.ts.
use secure_chat_client.Prelude.JsMap
use secure_chat_client.Prelude.JsMap.{JsMap}
use secure_chat_client.Prelude.{
  ℕ, ◌+◌, ◌≤◌, ◌≡◌, refl, ◌∙◌, false, some, List, [], ◌∷◌, Text, All, ltb, arith, inl, inr,
  Option-cases,
}
use secure_chat_client.Sessions.{
  ClaimedDevice, SessionCrypto, SessionHttp, SessionManagerOptions, SessionManager, new_sessions,
  time_at, refresh_peer_bundles, queue_plaintext, claim_peer_bundles, ensure_peer_bundles,
  maybe_kick_off_discovery, encrypt_for_peer, forget_bundle, forget_peer_device, clear_cache,
  catch_up_device, catch_up_text, catch_up_queue, catch_up_claimed, catch_up, discover_and_catch_up,
  finish_discovery, encrypt_for_one_device,
}

-- The calls of the client, and the end of a discovery. Of a send, the times of its start, of the
-- end of its claim, and of its end.
pub data Call : Type 0 where
  send : Text → Text → ℕ → ℕ → ℕ → Call
  refreshed : Text → Call
  forgotten : Text → Text → Call
  discovered : Text → Call
  cleared : Call

-- The call is over at the time `t`.
abbrev pub IsOver : ℕ → Call → Type 0
IsOver t (send peer plaintext now done after) = done ≤ t
IsOver t _ = Unit

-- What a session manager holds but for the state outside and what it caught up.
pub record Held : Type 0 where
  pub bundle_cache : JsMap (List ClaimedDevice)
  pub empty_cache_until : JsMap ℕ
  pub last_discovery_at : JsMap ℕ
  pub inflight_discovery : JsMap (List ClaimedDevice)
  pub pending_catch_up : JsMap (List Text)

abbrev pub held : {K : Type 0} → SessionManager K → Held
held m = record {
  bundle_cache = m.bundle_cache;
  empty_cache_until = m.empty_cache_until;
  last_discovery_at = m.last_discovery_at;
  inflight_discovery = m.inflight_discovery;
  pending_catch_up = m.pending_catch_up;
}

module _ {K : Type 0} (crypto : SessionCrypto K) (http : SessionHttp K)
    (opts : SessionManagerOptions) where
  unfoldable pub apply_call : Call → SessionManager K → SessionManager K
  unfolding encrypt_for_peer refresh_peer_bundles forget_peer_device finish_discovery
  apply_call (send peer plaintext now done after) m =
      (encrypt_for_peer crypto http opts peer plaintext now done after m).1
  apply_call (refreshed peer) m = (refresh_peer_bundles crypto http opts peer m).1
  apply_call (forgotten peer device) m = forget_peer_device crypto http opts peer device m
  apply_call (discovered peer) m = finish_discovery crypto http opts peer m
  apply_call cleared m = clear_cache crypto http opts m

  unfoldable pub run : List Call → SessionManager K → SessionManager K
  unfolding apply_call
  run [] m = m
  run (call ∷ calls) m = run calls (apply_call call m)

  catch_up_device-held :
      (peer plaintext : Text) (d : ClaimedDevice) (m : SessionManager K)
      → held (catch_up_device crypto http opts peer plaintext d m) ≡ held m
  unfolding catch_up_device
  catch_up_device-held peer plaintext d m =
      elim (Option-cases (encrypt_for_one_device crypto http opts peer d plaintext m.outside).0) [
        | inl failed ↦ rw (catch_up_device, failed) refl
        | inr (env, given) ↦ rw (catch_up_device, given) refl
      ]

  pub catch_up_text-held :
      (peer plaintext : Text) (ds : List ClaimedDevice) (m : SessionManager K)
      → held (catch_up_text crypto http opts peer plaintext ds m) ≡ held m
  unfolding catch_up_text
  catch_up_text-held peer plaintext [] m = refl
  catch_up_text-held peer plaintext (d ∷ ds) m =
      catch_up_text-held peer plaintext ds (catch_up_device crypto http opts peer plaintext d m)
      ∙ catch_up_device-held peer plaintext d m

  pub catch_up_queue-held :
      (peer : Text) (queue : List Text) (ds : List ClaimedDevice) (m : SessionManager K)
      → held (catch_up_queue crypto http opts peer queue ds m) ≡ held m
  unfolding catch_up_queue
  catch_up_queue-held peer [] ds m = refl
  catch_up_queue-held peer (plaintext ∷ queue) ds m =
      catch_up_queue-held peer queue ds (catch_up_text crypto http opts peer plaintext ds m)
      ∙ catch_up_text-held peer plaintext ds m

  abbrev pub IsTimely : ℕ → SessionManager K → Type 0
  IsTimely t m = (peer : Text) → time_at peer m.empty_cache_until ≤ t + 5000

  IsTimely-claim :
      (t : ℕ) (peer : Text) (done : ℕ) (m : SessionManager K)
      → done ≤ t
      → IsTimely t m
      → IsTimely t (claim_peer_bundles crypto http opts peer done m).1
  unfolding claim_peer_bundles refresh_peer_bundles
  IsTimely-claim t peer done m le h asked = ground (
    arith,
    h asked,
    JsMap.lookup-insert peer asked (done + 5000) m.empty_cache_until,
    JsMap.lookup-erase peer asked m.empty_cache_until,
  )

  refresh_peer_bundles-empty_cache_until :
      (peer : Text) (m : SessionManager K)
      → (refresh_peer_bundles crypto http opts peer m).1.empty_cache_until ≡ m.empty_cache_until
  unfolding refresh_peer_bundles
  refresh_peer_bundles-empty_cache_until peer m = ground arith

  maybe_kick_off_discovery-empty_cache_until :
      (peer plaintext : Text) (known : List ClaimedDevice) (now : ℕ) (m : SessionManager K)
      → (maybe_kick_off_discovery crypto http opts peer plaintext known now m).empty_cache_until
        ≡ m.empty_cache_until
  unfolding maybe_kick_off_discovery queue_plaintext
  maybe_kick_off_discovery-empty_cache_until peer plaintext known now m = ground arith

  IsTimely-ensure :
      (t : ℕ) (peer : Text) (now done : ℕ) (m : SessionManager K)
      → done ≤ t
      → IsTimely t m
      → IsTimely t (ensure_peer_bundles crypto http opts peer now done m).1
  unfolding ensure_peer_bundles
  IsTimely-ensure t peer now done m le h = ground (arith, h, IsTimely-claim t peer done m le h)

  IsTimely-send :
      (t : ℕ) (peer plaintext : Text) (now done after : ℕ) (m : SessionManager K)
      → done ≤ t
      → IsTimely t m
      → IsTimely t (encrypt_for_peer crypto http opts peer plaintext now done after m).1
  unfolding encrypt_for_peer
  IsTimely-send t peer plaintext now done after m le h asked = grind (
    arith,
    IsTimely-ensure t peer now done m le h asked,
    maybe_kick_off_discovery-empty_cache_until,
  )

  IsTimely-forget :
      (t : ℕ) (peer device : Text) (m : SessionManager K)
      → IsTimely t m
      → IsTimely t (forget_peer_device crypto http opts peer device m)
  unfolding forget_peer_device forget_bundle
  IsTimely-forget t peer device m h asked =
      ground (arith, h asked, JsMap.lookup-erase peer asked m.empty_cache_until)

  catch_up-empty_cache_until :
      (peer : Text) (known : List ClaimedDevice) (live : List Text) (m : SessionManager K)
      → (catch_up crypto http opts peer known live m).empty_cache_until ≡ m.empty_cache_until
  unfolding catch_up catch_up_claimed
  catch_up-empty_cache_until peer known live m =
      grind (arith, refresh_peer_bundles-empty_cache_until peer m, catch_up_queue-held)

  finish_discovery-empty_cache_until :
      (peer : Text) (m : SessionManager K)
      → (finish_discovery crypto http opts peer m).empty_cache_until ≡ m.empty_cache_until
  unfolding finish_discovery discover_and_catch_up
  finish_discovery-empty_cache_until peer m = grind (arith, catch_up-empty_cache_until)

  IsTimely-apply :
      (t : ℕ) (call : Call) (m : SessionManager K)
      → IsOver t call
      → IsTimely t m
      → IsTimely t (apply_call call m)
  unfolding apply_call
  IsTimely-apply t (send peer plaintext now done after) m over h asked =
      IsTimely-send t peer plaintext now done after m over h asked
  IsTimely-apply t (refreshed peer) m over h asked =
      rw (refresh_peer_bundles-empty_cache_until peer m) (h asked)
  IsTimely-apply t (forgotten peer device) m over h asked = IsTimely-forget t peer device m h asked
  IsTimely-apply t (discovered peer) m over h asked =
      rw (finish_discovery-empty_cache_until peer m) (h asked)
  IsTimely-apply t cleared m over h asked = ground arith

  IsTimely-run :
      (t : ℕ) (calls : List Call) (m : SessionManager K)
      → All (IsOver t) calls
      → IsTimely t m
      → IsTimely t (run calls m)
  unfolding run
  IsTimely-run t [] m over h = h
  IsTimely-run t (call ∷ calls) m (first, rest) h =
      IsTimely-run t calls (apply_call call m) rest (IsTimely-apply t call m first h)

  -- The server has devices of the peer to give.
  abbrev pub HasDevices : Text → K → Type 0
  HasDevices peer w =
      (d : ClaimedDevice) × ((ds : List ClaimedDevice) × ((http.claim_all opts.self_device_id peer
            w).0
          ≡ some (d ∷ ds)))

  claim_peer_bundles-HasDevices :
      (peer : Text) (done : ℕ) (m : SessionManager K)
      → HasDevices peer m.outside
      → (d : ClaimedDevice) × ((ds : List ClaimedDevice) × ((claim_peer_bundles crypto http opts
              peer done m).0
            ≡ some (d ∷ ds)))
  unfolding claim_peer_bundles refresh_peer_bundles
  claim_peer_bundles-HasDevices peer done m (d, (ds, e)) =
      (d, (ds, rw (claim_peer_bundles, refresh_peer_bundles, e) refl))

  ensure-HasDevices :
      (peer : Text) (now done : ℕ) (m : SessionManager K)
      → time_at peer m.empty_cache_until ≤ now
      → HasDevices peer m.outside
      → (d : ClaimedDevice) × ((ds : List ClaimedDevice) × ((ensure_peer_bundles crypto http opts
              peer now done m).0
            ≡ some (d ∷ ds)))
  unfolding ensure_peer_bundles
  ensure-HasDevices peer now done m due given =
      elim (Option-cases (JsMap.lookup peer m.bundle_cache)) [
        | inl unknown ↦
            rw (ensure_peer_bundles, unknown) (claim_peer_bundles-HasDevices peer done m given)
        | inr (d ∷ ds, hit) ↦ (d, (ds, rw (ensure_peer_bundles, hit) refl))
        | inr ([], hit) ↦
            let over : ltb now (time_at peer m.empty_cache_until) ≡ false = ground (arith, due) in
            rw (ensure_peer_bundles, hit, over) (claim_peer_bundles-HasDevices peer done m given)
      ]

  -- After any calls that are over at `t`, a send that starts 5 seconds later or more has devices to
  -- encrypt for, if the server then has devices of the peer: no empty answer before, and no
  -- failed decryption, keeps the peer unreachable.
  pub ensure_peer_bundles-recovers :
      (calls : List Call) (w : K) (t : ℕ) (peer : Text) (now done : ℕ)
      → All (IsOver t) calls
      → t + 5000 ≤ now
      → HasDevices peer (run calls (new_sessions w)).outside
      → (d : ClaimedDevice) × ((ds : List ClaimedDevice) × ((ensure_peer_bundles crypto http opts
              peer now done
              (run calls (new_sessions w))).0
            ≡ some (d ∷ ds)))
  unfolding ensure_peer_bundles JsMap.lookup
  ensure_peer_bundles-recovers calls w t peer now done over later given =
      let m : SessionManager K = run calls (new_sessions w) in
      let timely : IsTimely t m =
        IsTimely-run t calls (new_sessions w) over (λ asked. omega arith) in
      ensure-HasDevices peer now done m (omega (arith, timely peer, later)) given
