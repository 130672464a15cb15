-- ===== src/Sessions/Fanout.antt =====
-- Which devices get a message, and which get it later: src/sessions.ts, `encryptForPeer` and
-- `discoverAndCatchUp`.
use mathlib.Core.List.{append-nil, append_assoc}
use secure_chat_client.Bundles.{Action, await}
use secure_chat_client.Prelude.JsMap
use secure_chat_client.Prelude.JsSet
use secure_chat_client.Prelude.JsMap.{JsMap}
use secure_chat_client.Prelude.{
  ℕ, Bool, false, not, ◌&&◌, ◌||◌, ◌==◌, is_empty, eq_iff, arith, none, Bool-cases, Option-cases,
  if◌then◌else◌, ◌≡◌, ◌⊎◌, refl, sym, ap, ◌∙◌, Option, some, List, [], ◌∷◌, ◌++◌, Text, inl, inr,
}
use secure_chat_client.Sessions.{
  ClaimedDevice, OutboundEnvelope, EncryptForResult, CatchUpEnvelope, SessionCrypto, SessionHttp,
  SessionManagerOptions, SessionManager, ensure_peer_bundles, encrypt_devices, device_ids,
  encrypt_for_peer, catch_up_device, catch_up_text, catch_up_queue, catch_up_claimed, catch_up,
  refresh_peer_bundles, discover_and_catch_up, finish_discovery, fanout, new_device_ids, queue_of,
  among, without_device, to_self, unknown_ids, encrypt_for_one_device, result_for,
}

-- Each device with the text that it reads, where `reading` reads a ciphertext.
unfoldable pub targets : (Text → Text) → List EncryptForResult → List (Text × Text)
targets reading [] = []
targets reading (r ∷ rs) = (r.peer_device_id, reading r.ciphertext) ∷ targets reading rs

abbrev pub is_own_device : SessionManagerOptions → Text → Text → Bool
is_own_device opts peer device = elim opts.self_user_id [
  | none ↦ false
  | some self ↦ (peer == self) && (device == opts.self_device_id)
]

-- The text for every device, but for this device of a user who is known.
unfoldable pub each_but_own :
    SessionManagerOptions → Text → Text → List ClaimedDevice → List (Text × Text)
each_but_own opts peer plaintext [] = []
each_but_own opts peer plaintext (d ∷ ds) =
    let rest = each_but_own opts peer plaintext ds in
    if not (is_empty peer) && is_own_device opts peer d.device_id
    then rest
    else (d.device_id, plaintext) ∷ rest

unfoldable pub knows : List ClaimedDevice → Text → Bool
knows [] id = false
knows (d ∷ ds) id = (d.device_id == id) || knows ds id

-- The claimed devices that are listed and were not known, this device left out.
unfoldable pub newly_listed :
    SessionManagerOptions
    → Text
    → List ClaimedDevice
    → List Text
    → List ClaimedDevice
    → List ClaimedDevice
newly_listed opts peer known live [] = []
newly_listed opts peer known live (d ∷ ds) =
    let rest = newly_listed opts peer known live ds in
    if (JsSet.contains d.device_id live && not (knows known d.device_id))
      && not (is_own_device opts peer d.device_id)
    then d ∷ rest
    else rest

-- The texts of a queue, each for each device.
unfoldable pub each_for : Text → Text → List ClaimedDevice → List (Text × (Text × Text))
each_for peer plaintext [] = []
each_for peer plaintext (d ∷ ds) = (peer, (d.device_id, plaintext)) ∷ each_for peer plaintext ds

unfoldable pub all_for : Text → List Text → List ClaimedDevice → List (Text × (Text × Text))
unfolding each_for
all_for peer [] ds = []
all_for peer (plaintext ∷ queue) ds = each_for peer plaintext ds ++ all_for peer queue ds

-- To whom the envelopes go, and what is read from them.
unfoldable pub addressees : (Text → Text) → List CatchUpEnvelope → List (Text × (Text × Text))
addressees reading [] = []
addressees reading (e ∷ es) =
    (e.peer_user_id, (e.peer_device_id, reading e.ciphertext)) ∷ addressees reading es

await-some :
    {S A B : Type 0} (r : Option A × S) (next : A → Action S B) (a : A)
    → r.0 ≡ some a
    → await r next ≡ next a r.1
await-some (o, s) next a e = rw e refl

list-cases : (xs : List Text) → (xs ≡ []) ⊎ ((x : Text) × ((rest : List Text) × (xs ≡ x ∷ rest)))
list-cases [] = inl refl
list-cases (x ∷ rest) = inr (x, (rest, refl))

-- The text for each of the devices.
unfoldable each_to : Text → List ClaimedDevice → List (Text × Text)
each_to plaintext [] = []
each_to plaintext (d ∷ ds) = (d.device_id, plaintext) ∷ each_to plaintext ds

without_own :
    (opts : SessionManagerOptions) (peer plaintext : Text) (ds : List ClaimedDevice)
    → ((device : Text)
        → not (is_empty peer) && is_own_device opts peer device ≡ (device == opts.self_device_id))
    → each_to plaintext (without_device opts.self_device_id ds)
      ≡ each_but_own opts peer plaintext ds
unfolding each_to each_but_own without_device
without_own opts peer plaintext [] own = refl
without_own opts peer plaintext (d ∷ ds) own =
    ground (arith, own d.device_id, without_own opts peer plaintext ds own)

with_all :
    (opts : SessionManagerOptions) (peer plaintext : Text) (ds : List ClaimedDevice)
    → ((device : Text) → not (is_empty peer) && is_own_device opts peer device ≡ false)
    → each_to plaintext ds ≡ each_but_own opts peer plaintext ds
unfolding each_to each_but_own
with_all opts peer plaintext [] foreign = refl
with_all opts peer plaintext (d ∷ ds) foreign =
    rw (each_but_own, foreign d.device_id, with_all opts peer plaintext ds foreign) refl

contains-unknown_ids :
    (id : Text) (known ids : List Text)
    → JsSet.contains id (unknown_ids known ids)
      ≡ (JsSet.contains id ids && not (JsSet.contains id known))
unfolding unknown_ids JsSet.contains
contains-unknown_ids id known [] = refl
contains-unknown_ids id known (x ∷ ids) =
    ground (arith, eq_iff x id, contains-unknown_ids id known ids)

contains-device_ids :
    (id : Text) (ds : List ClaimedDevice) → JsSet.contains id (device_ids ds) ≡ knows ds id
unfolding device_ids knows JsSet.contains
contains-device_ids id [] = refl
contains-device_ids id (d ∷ ds) = rw (contains-device_ids id ds) refl

module _ {K : Type 0} (crypto : SessionCrypto K) (http : SessionHttp K)
    (opts : SessionManagerOptions) (reading : Text → Text) where
  -- The adapter can encrypt for every claimed device, and the device reads what was encrypted.
  abbrev pub Encrypts : Type 0
  Encrypts =
      (peer device : Text) (d : ClaimedDevice) (plaintext : Text) (w : K)
      → (env : OutboundEnvelope) × (((crypto.encrypt_for_peer peer device d plaintext w).0
            ≡ some env)
          × (reading env.ciphertext ≡ plaintext))

  encrypt_devices-targets :
      (peer plaintext : Text) (ds : List ClaimedDevice) (w : K)
      → Encrypts
      → (rs : List EncryptForResult) × (((encrypt_devices crypto http opts peer plaintext ds w).0
            ≡ some rs)
          × (targets reading rs ≡ each_to plaintext ds))
  unfolding encrypt_devices targets each_to
  encrypt_devices-targets peer plaintext [] w can = ([], (refl, refl))
  encrypt_devices-targets peer plaintext (d ∷ ds) w can =
      let (env, (e, reads)) = can peer d.device_id d plaintext w in
      let (rs, (given, same)) =
        encrypt_devices-targets peer plaintext ds
          (crypto.encrypt_for_peer peer d.device_id d plaintext w).1 can in
      (
        result_for crypto http opts d env ∷ rs,
        (
          ap (λ o. o.0)
                (await-some (encrypt_for_one_device crypto http opts peer d plaintext w)
                  (λ env' w1.
                    await (encrypt_devices crypto http opts peer plaintext ds w1)
                      (λ rest w2. (some (result_for crypto http opts d env' ∷ rest), w2)))
                  env e)
              ∙ ap (λ o. o.0)
                  (await-some
                    (encrypt_devices crypto http opts peer plaintext ds
                      (encrypt_for_one_device crypto http opts peer d plaintext w).1)
                    (λ rest w2. (some (result_for crypto http opts d env ∷ rest), w2)) rs given),
          ap (λ l. (d.device_id, reading env.ciphertext) ∷ l) same
              ∙ ap (λ s. (d.device_id, s) ∷ each_to plaintext ds) reads,
        ),
      )

  to_self-own :
      (peer device : Text)
      → not (is_empty peer) && is_own_device opts peer device
        ≡ (to_self crypto http opts peer && (device == opts.self_device_id))
  to_self-own peer device = elim (Option-cases opts.self_user_id) [
    | inl nobody ↦ ground (arith, nobody)
    | inr (self, known) ↦ ground (arith, known, eq_iff peer self)
  ]

  fanout-each :
      (peer plaintext : Text) (ds : List ClaimedDevice)
      → each_to plaintext (fanout crypto http opts peer ds) ≡ each_but_own opts peer plaintext ds
  fanout-each peer plaintext ds = elim (Bool-cases (to_self crypto http opts peer)) [
    | inl own ↦
        rw own
          (without_own opts peer plaintext ds (λ device. to_self-own peer device ∙ rw own refl))
    | inr other ↦
        rw other
          (with_all opts peer plaintext ds (λ device. to_self-own peer device ∙ rw other refl))
  ]

  -- With an adapter that can encrypt for every claimed device, and whose ciphertext is read as what
  -- was encrypted: a send whose bundles are at hand gives one ciphertext of the text for each of the
  -- devices of the peer, in their order; if the peer is the user, who is known, this device is left
  -- out.
  pub encrypt_for_peer-targets :
      (peer plaintext : Text) (now done after : ℕ) (m : SessionManager K)
      (cached : List ClaimedDevice)
      → Encrypts
      → (ensure_peer_bundles crypto http opts peer now done m).0 ≡ some cached
      → (rs : List EncryptForResult) × (((encrypt_for_peer crypto http opts peer plaintext now done
              after m).0
            ≡ some rs)
          × (targets reading rs ≡ each_but_own opts peer plaintext cached))
  unfolding encrypt_for_peer
  encrypt_for_peer-targets peer plaintext now done after m cached can ensured =
      let (rs, (given, same)) =
        encrypt_devices-targets peer plaintext (fanout crypto http opts peer cached)
          (ensure_peer_bundles crypto http opts peer now done m).1.outside can in
      (rs, (rw (encrypt_for_peer, ensured, given) refl, same ∙ fanout-each peer plaintext cached))

  addressees-append :
      (es fs : List CatchUpEnvelope)
      → addressees reading (es ++ fs) ≡ addressees reading es ++ addressees reading fs
  unfolding addressees
  addressees-append [] fs = refl
  addressees-append (e ∷ es) fs = rw (addressees-append es fs) refl

  catch_up_device-addressees :
      (peer plaintext : Text) (d : ClaimedDevice) (m : SessionManager K)
      → Encrypts
      → addressees reading (catch_up_device crypto http opts peer plaintext d m).caught_up
        ≡ addressees reading m.caught_up ++ (peer, (d.device_id, plaintext)) ∷ []
  unfolding catch_up_device addressees
  catch_up_device-addressees peer plaintext d m can =
      let (env, (e, reads)) = can peer d.device_id d plaintext m.outside in
      rw (catch_up_device, e)
        (addressees-append m.caught_up _
          ∙ ap (λ s. addressees reading m.caught_up ++ (peer, (d.device_id, s)) ∷ []) reads)

  catch_up_text-addressees :
      (peer plaintext : Text) (ds : List ClaimedDevice) (m : SessionManager K)
      → Encrypts
      → addressees reading (catch_up_text crypto http opts peer plaintext ds m).caught_up
        ≡ addressees reading m.caught_up ++ each_for peer plaintext ds
  unfolding catch_up_text each_for
  catch_up_text-addressees peer plaintext [] m can =
      sym (append-nil (addressees reading m.caught_up))
  catch_up_text-addressees peer plaintext (d ∷ ds) m can =
      catch_up_text-addressees peer plaintext ds
        (catch_up_device crypto http opts peer plaintext d m) can
      ∙ ap (λ l. l ++ each_for peer plaintext ds)
          (catch_up_device-addressees peer plaintext d m can)
      ∙ append_assoc (addressees reading m.caught_up) ((peer, (d.device_id, plaintext)) ∷ [])
          (each_for peer plaintext ds)

  catch_up_queue-addressees :
      (peer : Text) (queue : List Text) (ds : List ClaimedDevice) (m : SessionManager K)
      → Encrypts
      → addressees reading (catch_up_queue crypto http opts peer queue ds m).caught_up
        ≡ addressees reading m.caught_up ++ all_for peer queue ds
  unfolding catch_up_queue all_for
  catch_up_queue-addressees peer [] ds m can = sym (append-nil (addressees reading m.caught_up))
  catch_up_queue-addressees peer (plaintext ∷ queue) ds m can =
      catch_up_queue-addressees peer queue ds (catch_up_text crypto http opts peer plaintext ds m)
        can
      ∙ ap (λ l. l ++ all_for peer queue ds) (catch_up_text-addressees peer plaintext ds m can)
      ∙ append_assoc (addressees reading m.caught_up) (each_for peer plaintext ds)
          (all_for peer queue ds)

  among-nil : (ds : List ClaimedDevice) → among [] ds ≡ []
  unfolding among JsSet.contains
  among-nil [] = refl
  among-nil (d ∷ ds) = among-nil ds

  all_for-nil : (peer : Text) (queue : List Text) → all_for peer queue [] ≡ []
  unfolding all_for each_for
  all_for-nil peer [] = refl
  all_for-nil peer (plaintext ∷ queue) = all_for-nil peer queue

  refresh_peer_bundles-given :
      (peer : Text) (claimed : List ClaimedDevice) (m : SessionManager K)
      → (http.claim_all opts.self_device_id peer m.outside).0 ≡ some claimed
      → refresh_peer_bundles crypto http opts peer m ≡ (
        some claimed,
        record m {
          bundle_cache = JsMap.insert peer claimed m.bundle_cache;
          outside = (http.claim_all opts.self_device_id peer m.outside).1;
        },
      )
  unfolding refresh_peer_bundles
  refresh_peer_bundles-given peer claimed m given = rw (refresh_peer_bundles, given) refl

  catch_up-addressees :
      (peer : Text) (known claimed : List ClaimedDevice) (live : List Text) (m : SessionManager K)
      → Encrypts
      → (http.claim_all opts.self_device_id peer m.outside).0 ≡ some claimed
      → addressees reading (catch_up crypto http opts peer known live m).caught_up
        ≡ addressees reading m.caught_up
          ++ all_for peer
              (queue_of crypto http opts peer m)
              (among (new_device_ids crypto http opts peer known live) claimed)
  unfolding catch_up refresh_peer_bundles
  catch_up-addressees peer known claimed live m can given =
      elim (list-cases (new_device_ids crypto http opts peer known live)) [
        | inl no_news ↦
            rw
              (
                catch_up,
                no_news,
                among-nil claimed,
                all_for-nil peer (queue_of crypto http opts peer m),
              )
              (sym (append-nil (addressees reading m.caught_up)))
        | inr (id, (ids, news)) ↦
            rw (catch_up, news)
              (ap
                  (λ r.
                    addressees reading
                      (catch_up_claimed crypto http opts peer (id ∷ ids) r).caught_up)
                  (refresh_peer_bundles-given peer claimed m given)
                ∙ catch_up_queue-addressees peer (queue_of crypto http opts peer m)
                    (among (id ∷ ids) claimed) _ can)
      ]

  contains-new_device_ids :
      (peer id : Text) (known : List ClaimedDevice) (live : List Text)
      → JsSet.contains id (new_device_ids crypto http opts peer known live)
        ≡ ((JsSet.contains id live && not (knows known id)) && not (is_own_device opts peer id))
  unfolding JsSet.contains
  contains-new_device_ids peer id known live = ground (
    arith,
    contains-unknown_ids id (opts.self_device_id ∷ []) (unknown_ids (device_ids known) live),
    contains-unknown_ids id (device_ids known) live,
    contains-device_ids id known,
    eq_iff opts.self_device_id id,
    eq_iff id opts.self_device_id,
  )

  among-newly :
      (peer : Text) (known : List ClaimedDevice) (live : List Text) (ds : List ClaimedDevice)
      → among (new_device_ids crypto http opts peer known live) ds
        ≡ newly_listed opts peer known live ds
  unfolding among newly_listed
  among-newly peer known live [] = refl
  among-newly peer known live (d ∷ ds) =
      rw (contains-new_device_ids peer d.device_id known live, among-newly peer known live ds) refl

  -- With an adapter that can encrypt for every claimed device, and whose ciphertext is read as what
  -- was encrypted: the end of a discovery whose list of devices and whose claim succeed sends each
  -- queued text, in order, to each claimed device that was listed and not known when the discovery
  -- started, in order, and to no other; if the peer is the user, this device is left out.
  pub finish_discovery-addressees :
      (peer : Text) (known claimed : List ClaimedDevice) (live queue : List Text)
      (m : SessionManager K)
      → Encrypts
      → JsMap.lookup peer m.inflight_discovery ≡ some known
      → JsMap.lookup peer m.pending_catch_up ≡ some queue
      → (http.list_devices opts.self_device_id peer m.outside).0 ≡ some live
      → (http.claim_all opts.self_device_id peer
          (http.list_devices opts.self_device_id peer m.outside).1).0
        ≡ some claimed
      → addressees reading (finish_discovery crypto http opts peer m).caught_up
        ≡ addressees reading m.caught_up
          ++ all_for peer queue (newly_listed opts peer known live claimed)
  unfolding finish_discovery discover_and_catch_up catch_up refresh_peer_bundles
  finish_discovery-addressees peer known claimed live queue m can busy waiting listed given =
      let w : K = (http.list_devices opts.self_device_id peer m.outside).1 in
      rw (finish_discovery, busy, discover_and_catch_up, listed)
        (catch_up-addressees peer known claimed live (record m { outside = w }) can given
          ∙ ap
              (λ ds.
                addressees reading m.caught_up
                ++ all_for peer (queue_of crypto http opts peer m) ds)
              (among-newly peer known live claimed)
          ∙ rw (queue_of, waiting) refl)
