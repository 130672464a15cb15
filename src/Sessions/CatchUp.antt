-- ===== src/Sessions/CatchUp.antt =====
-- Which devices a message and its catch-up go to, and the queue of the catch-up:
-- src/sessions.ts, `encryptForPeer`, `maybeKickOffDiscovery`, `discoverAndCatchUp`.
use secure_chat_client.Prelude.JsMap
use secure_chat_client.Prelude.JsMap.{JsMap}
use secure_chat_client.Prelude.{
  ℕ, ◌+◌, ◌≤◌, ◌≡◌, refl, false, ◌||◌, not, List, [], ◌∷◌, ◌++◌, Text, ◌==◌, eq_iff, ltb, length,
  length-append, arith, inl, inr, Bool-cases, Option-cases,
}
use secure_chat_client.Sessions.{
  ClaimedDevice, SessionCrypto, SessionHttp, SessionManagerOptions, SessionManager, new_sessions,
  refresh_peer_bundles, queue_plaintext, start_discovery, claim_peer_bundles, ensure_peer_bundles,
  maybe_kick_off_discovery, encrypt_devices, encrypt_for_peer, forget_bundle, forget_peer_device,
  catch_up_claimed, catch_up, discover_and_catch_up, finish_discovery, fanout, queue_of, names_self,
  time_at, discovery_floor,
}
use secure_chat_client.Sessions.Recovery.{
  Call, send, refreshed, forgotten, discovered, cleared, apply_call, run, catch_up_queue-held,
}

module _ {K : Type 0} (crypto : SessionCrypto K) (http : SessionHttp K)
    (opts : SessionManagerOptions) where
  abbrev next_discovery_at : Text → SessionManager K → ℕ
  next_discovery_at peer m =
      time_at peer m.last_discovery_at + discovery_floor opts.background_discovery_floor_ms

  -- The queues belong to the discoveries in flight, and keep their bound.
  pub record IsOrderly (m : SessionManager K) : Type 0 where
    pub paired :
        (peer : Text) → JsMap.has peer m.pending_catch_up ≡ JsMap.has peer m.inflight_discovery
    pub bound : (peer : Text) → length (queue_of crypto http opts peer m) ≤ 100

  IsOrderly-of_same :
      (a b : SessionManager K)
      → b.pending_catch_up ≡ a.pending_catch_up
      → b.inflight_discovery ≡ a.inflight_discovery
      → IsOrderly a
      → IsOrderly b
  IsOrderly-of_same a b p i h = record {
    paired = λ peer. rw (p, i) (h.paired peer);
    bound = λ peer. rw p (h.bound peer);
  }

  refresh_peer_bundles-IsOrderly :
      (peer : Text) (m : SessionManager K)
      → IsOrderly m
      → IsOrderly (refresh_peer_bundles crypto http opts peer m).1
  unfolding refresh_peer_bundles
  refresh_peer_bundles-IsOrderly peer m =
      IsOrderly-of_same m (refresh_peer_bundles crypto http opts peer m).1 (ground arith)
        (ground arith)

  ensure_peer_bundles-IsOrderly :
      (peer : Text) (now done : ℕ) (m : SessionManager K)
      → IsOrderly m
      → IsOrderly (ensure_peer_bundles crypto http opts peer now done m).1
  unfolding ensure_peer_bundles claim_peer_bundles refresh_peer_bundles
  ensure_peer_bundles-IsOrderly peer now done m =
      IsOrderly-of_same m (ensure_peer_bundles crypto http opts peer now done m).1 (ground arith)
        (ground arith)

  forget_peer_device-IsOrderly :
      (peer device : Text) (m : SessionManager K)
      → IsOrderly m
      → IsOrderly (forget_peer_device crypto http opts peer device m)
  unfolding forget_peer_device forget_bundle
  forget_peer_device-IsOrderly peer device m =
      IsOrderly-of_same m (forget_peer_device crypto http opts peer device m) (ground arith)
        (ground arith)

  queue_plaintext-IsOrderly :
      (peer plaintext : Text) (m : SessionManager K)
      → IsOrderly m
      → IsOrderly (queue_plaintext crypto http opts peer plaintext m)
  unfolding queue_plaintext
  queue_plaintext-IsOrderly peer plaintext m h =
      elim (Option-cases (JsMap.lookup peer m.pending_catch_up)) [
        | inl no_queue ↦ rw (queue_plaintext, no_queue) h
        | inr (q, queue) ↦ elim (Bool-cases (ltb (length q) 100)) [
          | inr full ↦ rw (queue_plaintext, queue, full) h
          | inl room ↦
              rw (queue_plaintext, queue, room)
                (record {
                  paired = λ asked. ground (
                    arith,
                    queue,
                    eq_iff peer asked,
                    h.paired asked,
                    h.paired peer,
                    JsMap.lookup-insert peer asked (q ++ plaintext ∷ []) m.pending_catch_up,
                  );
                  bound = λ asked. ground (
                    arith,
                    room,
                    h.bound asked,
                    length-append q (plaintext ∷ []),
                    JsMap.lookup-insert peer asked (q ++ plaintext ∷ []) m.pending_catch_up,
                  );
                })
        ]
      ]

  start_discovery-IsOrderly :
      (peer plaintext : Text) (known : List ClaimedDevice) (now : ℕ) (m : SessionManager K)
      → IsOrderly m
      → IsOrderly (start_discovery crypto http opts peer plaintext known now m)
  start_discovery-IsOrderly peer plaintext known now m h = record {
    paired = λ asked.
        rw
          (
            JsMap.lookup-insert peer asked (plaintext ∷ []) m.pending_catch_up,
            JsMap.lookup-insert peer asked known m.inflight_discovery,
          )
          (ground (arith, h.paired asked));
    bound = λ asked.
        ground (
          arith,
          h.bound asked,
          JsMap.lookup-insert peer asked (plaintext ∷ []) m.pending_catch_up,
        );
  }

  maybe_kick_off_discovery-IsOrderly :
      (peer plaintext : Text) (known : List ClaimedDevice) (now : ℕ) (m : SessionManager K)
      → IsOrderly m
      → IsOrderly (maybe_kick_off_discovery crypto http opts peer plaintext known now m)
  unfolding maybe_kick_off_discovery
  maybe_kick_off_discovery-IsOrderly peer plaintext known now m h =
      elim (Bool-cases (not opts.background_discovery || names_self crypto http opts peer)) [
        | inl off ↦ rw (maybe_kick_off_discovery, off) h
        | inr on ↦ elim (Bool-cases (JsMap.has peer m.inflight_discovery)) [
          | inl busy ↦
              rw (maybe_kick_off_discovery, on, busy) (queue_plaintext-IsOrderly peer plaintext m h)
          | inr idle ↦ elim (Bool-cases (ltb now (next_discovery_at peer m))) [
            | inl early ↦ rw (maybe_kick_off_discovery, on, idle, early) h
            | inr due ↦
                rw (maybe_kick_off_discovery, on, idle, due)
                  (start_discovery-IsOrderly peer plaintext known now m h)
          ]
        ]
      ]

  encrypt_for_peer-IsOrderly :
      (peer plaintext : Text) (now done after : ℕ) (m : SessionManager K)
      → IsOrderly m
      → IsOrderly (encrypt_for_peer crypto http opts peer plaintext now done after m).1
  unfolding encrypt_for_peer
  encrypt_for_peer-IsOrderly peer plaintext now done after m h =
      let m1 : SessionManager K = (ensure_peer_bundles crypto http opts peer now done m).1 in
      let h1 : IsOrderly m1 = ensure_peer_bundles-IsOrderly peer now done m h in
      elim (Option-cases (ensure_peer_bundles crypto http opts peer now done m).0) [
        | inl failed ↦ rw (encrypt_for_peer, failed) h1
        | inr (cached, ensured) ↦
            let devices : List ClaimedDevice = fanout crypto http opts peer cached in
            let w : K = (encrypt_devices crypto http opts peer plaintext devices m1.outside).1 in
            let m2 : SessionManager K = record m1 { outside = w } in
            let h2 : IsOrderly m2 = IsOrderly-of_same m1 m2 refl refl h1 in
            elim (Option-cases
              (encrypt_devices crypto http opts peer plaintext devices m1.outside).0) [
                | inl failed ↦ rw (encrypt_for_peer, ensured, failed) h2
                | inr (results, given) ↦
                    rw (encrypt_for_peer, ensured, given)
                      (maybe_kick_off_discovery-IsOrderly peer plaintext devices after m2 h2)
              ]
      ]

  catch_up-other :
      (peer other : Text) (known : List ClaimedDevice) (live : List Text) (m : SessionManager K)
      → (peer == other) ≡ false
      → JsMap.lookup other (catch_up crypto http opts peer known live m).pending_catch_up
        ≡ JsMap.lookup other m.pending_catch_up
  unfolding catch_up catch_up_claimed refresh_peer_bundles
  catch_up-other peer other known live m apart =
      grind (arith, catch_up_queue-held, JsMap.lookup-insert, apart)

  catch_up-inflight :
      (peer : Text) (known : List ClaimedDevice) (live : List Text) (m : SessionManager K)
      → (catch_up crypto http opts peer known live m).inflight_discovery ≡ m.inflight_discovery
  unfolding catch_up catch_up_claimed refresh_peer_bundles
  catch_up-inflight peer known live m = grind (arith, catch_up_queue-held)

  discover-other :
      (peer other : Text) (known : List ClaimedDevice) (m : SessionManager K)
      → (peer == other) ≡ false
      → JsMap.lookup other (discover_and_catch_up crypto http opts peer known m).pending_catch_up
        ≡ JsMap.lookup other m.pending_catch_up
  unfolding discover_and_catch_up
  discover-other peer other known m apart = grind (arith, catch_up-other, apart)

  discover-inflight :
      (peer : Text) (known : List ClaimedDevice) (m : SessionManager K)
      → (discover_and_catch_up crypto http opts peer known m).inflight_discovery
        ≡ m.inflight_discovery
  unfolding discover_and_catch_up
  discover-inflight peer known m = grind (arith, catch_up-inflight)

  finish_discovery-IsOrderly :
      (peer : Text) (m : SessionManager K)
      → IsOrderly m
      → IsOrderly (finish_discovery crypto http opts peer m)
  unfolding finish_discovery
  finish_discovery-IsOrderly peer m h =
      elim (Option-cases (JsMap.lookup peer m.inflight_discovery)) [
        | inl idle ↦ rw (finish_discovery, idle) h
        | inr (known, busy) ↦
            rw (finish_discovery, busy)
              (let m1 : SessionManager K = discover_and_catch_up crypto http opts peer known m in
                record {
                  paired = λ asked. ground (
                    arith,
                    discover-inflight peer known m,
                    h.paired asked,
                    JsMap.lookup-erase peer asked m1.pending_catch_up,
                    JsMap.lookup-erase peer asked m1.inflight_discovery,
                    discover-other peer asked known m,
                  );
                  bound = λ asked. ground (
                    arith,
                    h.bound asked,
                    JsMap.lookup-erase peer asked m1.pending_catch_up,
                    discover-other peer asked known m,
                  );
                })
      ]

  apply_call-IsOrderly :
      (call : Call) (m : SessionManager K)
      → IsOrderly m
      → IsOrderly (apply_call crypto http opts call m)
  unfolding apply_call
  apply_call-IsOrderly (send peer plaintext now done after) m h =
      encrypt_for_peer-IsOrderly peer plaintext now done after m h
  apply_call-IsOrderly (refreshed peer) m h = refresh_peer_bundles-IsOrderly peer m h
  apply_call-IsOrderly (forgotten peer device) m h = forget_peer_device-IsOrderly peer device m h
  apply_call-IsOrderly (discovered peer) m h = finish_discovery-IsOrderly peer m h
  apply_call-IsOrderly cleared m h = record {
    paired = λ peer. ground arith;
    bound = λ peer. ground arith;
  }

  run_keeps_order :
      (calls : List Call) (m : SessionManager K)
      → IsOrderly m
      → IsOrderly (run crypto http opts calls m)
  unfolding run
  run_keeps_order [] m h = h
  run_keeps_order (call ∷ calls) m h =
      run_keeps_order calls (apply_call crypto http opts call m) (apply_call-IsOrderly call m h)

  -- After any calls a peer has a queue of texts to catch up exactly while a discovery of its
  -- devices is in flight, and no queue is longer than 100.
  pub run-IsOrderly :
      (calls : List Call) (w : K) → IsOrderly (run crypto http opts calls (new_sessions w))
  unfolding JsMap.lookup
  run-IsOrderly calls w =
      run_keeps_order calls (new_sessions w)
        (record { paired = λ peer. ground arith; bound = λ peer. ground arith })
