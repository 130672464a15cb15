-- ===== src/Devices/Known.antt =====
-- What the cache holds of a peer over a sequence of calls: src/device_discovery.ts.
use secure_chat_client.Prelude.JsMap
use secure_chat_client.Prelude.JsSet
use secure_chat_client.Prelude.JsSet.{Distinct}
use secure_chat_client.Prelude.{
  ℕ, ◌+◌, ◌≡◌, refl, sym, false, Option, none, some, List, [], ◌∷◌, ◌++◌, map, Text, ◌==◌, ltb,
  if◌then◌else◌, arith, inl, inr, Option-cases, Bool-cases,
}
use secure_chat_client.Devices.{
  PeerDeviceMeta, CacheEntry, Directory, PeerDeviceCache, new_cache, set_entry, stale_window,
  refresh, get_peer_devices, has_device, note_new_peer_device, invalidate, clear,
}

-- The calls of the client; of a fetch, the times at which it starts and ends.
pub data Call : Type 0 where
  lookup_devices : Text → ℕ → ℕ → Call
  fetch_again : Text → ℕ → Call
  noted : Text → PeerDeviceMeta → ℕ → Call
  invalidated : Text → Call
  cleared : Call

module _ (http : Directory) (stale_after_ms : Option ℕ) where
  unfoldable pub apply_call : Call → PeerDeviceCache → PeerDeviceCache
  unfolding get_peer_devices refresh note_new_peer_device invalidate
  apply_call (lookup_devices peer now done) c =
      (get_peer_devices http stale_after_ms peer now done c).1
  apply_call (fetch_again peer done) c = (refresh http peer done c).1
  apply_call (noted peer device now) c = note_new_peer_device peer device now c
  apply_call (invalidated peer) c = invalidate peer c
  apply_call cleared c = clear c

  unfoldable pub run : List Call → PeerDeviceCache → PeerDeviceCache
  unfolding apply_call
  run [] c = c
  run (call ∷ calls) c = run calls (apply_call call c)

abbrev pub ids : List PeerDeviceMeta → List Text
ids = map (λ d. d.device_id)

-- No device stands twice in the list of a peer.
abbrev pub HasNoDuplicates : PeerDeviceCache → Type 0
HasNoDuplicates c =
    (peer : Text) (e : CacheEntry) → JsMap.lookup peer c.cache ≡ some e → Distinct (ids e.devices)

-- The server names each device of a peer once.
abbrev pub NamesOnce : Directory → Type 0
NamesOnce http =
    (n : ℕ) (peer : Text) (ds : List PeerDeviceMeta) → http n peer ≡ some ds → Distinct (ids ds)

has_device-contains :
    (id : Text) (ds : List PeerDeviceMeta) → has_device id ds ≡ JsSet.contains id (ids ds)
unfolding has_device JsSet.contains
has_device-contains id [] = refl
has_device-contains id (d ∷ ds) = rw (has_device-contains id ds) refl

ids-append :
    (d : PeerDeviceMeta) (ds : List PeerDeviceMeta)
    → has_device d.device_id ds ≡ false
    → ids (ds ++ d ∷ []) ≡ JsSet.add d.device_id (ids ds)
unfolding has_device JsSet.add
ids-append d [] new = refl
ids-append d (e ∷ ds) new = ground (arith, ids-append d ds)

append-Distinct :
    (d : PeerDeviceMeta) (ds : List PeerDeviceMeta)
    → has_device d.device_id ds ≡ false
    → Distinct (ids ds)
    → Distinct (ids (ds ++ d ∷ []))
append-Distinct d ds new h = rw (ids-append d ds new) (JsSet.add-Distinct d.device_id (ids ds) h)

set_entry-HasNoDuplicates :
    (k : Text) (e : CacheEntry) (c : PeerDeviceCache)
    → Distinct (ids e.devices)
    → HasNoDuplicates c
    → HasNoDuplicates (set_entry k e c)
set_entry-HasNoDuplicates k e c d h peer e' found = elim (Bool-cases (k == peer)) [
  | inl same ↦
      let entry : e ≡ e' = ground (arith, JsMap.lookup-insert k peer e c.cache) in rw (sym entry) d
  | inr other ↦ h peer e' (ground (arith, JsMap.lookup-insert k peer e c.cache))
]

refresh-HasNoDuplicates :
    (http : Directory) (peer : Text) (done : ℕ) (c : PeerDeviceCache)
    → NamesOnce http
    → HasNoDuplicates c
    → HasNoDuplicates (refresh http peer done c).1
unfolding refresh
refresh-HasNoDuplicates http peer done c once h = elim (Option-cases (http c.requests peer)) [
  | inl thrown ↦ rw (thrown, refresh) h
  | inr (ds, answered) ↦
      rw (answered, refresh)
        (set_entry-HasNoDuplicates peer (record { devices = ds; fetched_at = done }) c
          (once c.requests peer ds answered) h)
]

note_new_peer_device-HasNoDuplicates :
    (peer : Text) (device : PeerDeviceMeta) (now : ℕ) (c : PeerDeviceCache)
    → HasNoDuplicates c
    → HasNoDuplicates (note_new_peer_device peer device now c)
unfolding note_new_peer_device
note_new_peer_device-HasNoDuplicates peer device now c h =
    elim (Option-cases (JsMap.lookup peer c.cache)) [
      | inl unknown ↦
          rw (unknown, note_new_peer_device)
            (set_entry-HasNoDuplicates peer (record { devices = device ∷ []; fetched_at = now }) c
              (append-Distinct device [] refl tt) h)
      | inr (e, known) ↦ elim (Bool-cases (has_device device.device_id e.devices)) [
        | inl there ↦ rw (known, note_new_peer_device, there) h
        | inr new ↦
            rw (known, note_new_peer_device, new)
              (set_entry-HasNoDuplicates peer (record e { devices = e.devices ++ device ∷ [] }) c
                (append-Distinct device e.devices new (h peer e known)) h)
      ]
    ]

get_peer_devices-HasNoDuplicates :
    (http : Directory) (stale_after_ms : Option ℕ) (peer : Text) (now done : ℕ)
    (c : PeerDeviceCache)
    → NamesOnce http
    → HasNoDuplicates c
    → HasNoDuplicates (get_peer_devices http stale_after_ms peer now done c).1
unfolding get_peer_devices
get_peer_devices-HasNoDuplicates http stale_after_ms peer now done c once h =
    elim (Option-cases (JsMap.lookup peer c.cache)) [
      | inl unknown ↦
          rw (unknown, get_peer_devices) (refresh-HasNoDuplicates http peer done c once h)
      | inr (e, known) ↦ elim (Bool-cases (ltb now (e.fetched_at + stale_window stale_after_ms))) [
        | inl fresh ↦ rw (known, get_peer_devices, fresh) h
        | inr old ↦
            rw (known, get_peer_devices, old) (refresh-HasNoDuplicates http peer done c once h)
      ]
    ]

invalidate-HasNoDuplicates :
    (peer : Text) (c : PeerDeviceCache) → HasNoDuplicates c → HasNoDuplicates (invalidate peer c)
unfolding invalidate
invalidate-HasNoDuplicates peer c h q e found =
    h q e (ground (arith, JsMap.lookup-erase peer q c.cache))

apply_call-HasNoDuplicates :
    (http : Directory) (stale_after_ms : Option ℕ) (call : Call) (c : PeerDeviceCache)
    → NamesOnce http
    → HasNoDuplicates c
    → HasNoDuplicates (apply_call http stale_after_ms call c)
unfolding apply_call JsMap.lookup
apply_call-HasNoDuplicates http t (lookup_devices peer now done) c once h =
    get_peer_devices-HasNoDuplicates http t peer now done c once h
apply_call-HasNoDuplicates http t (fetch_again peer done) c once h =
    refresh-HasNoDuplicates http peer done c once h
apply_call-HasNoDuplicates http t (noted peer device now) c once h =
    note_new_peer_device-HasNoDuplicates peer device now c h
apply_call-HasNoDuplicates http t (invalidated peer) c once h = invalidate-HasNoDuplicates peer c h
apply_call-HasNoDuplicates http t cleared c once h = λ peer e found. cc

run_from-HasNoDuplicates :
    (http : Directory) (stale_after_ms : Option ℕ) (calls : List Call) (c : PeerDeviceCache)
    → NamesOnce http
    → HasNoDuplicates c
    → HasNoDuplicates (run http stale_after_ms calls c)
unfolding run
run_from-HasNoDuplicates http t [] c once h = h
run_from-HasNoDuplicates http t (call ∷ calls) c once h =
    run_from-HasNoDuplicates http t calls (apply_call http t call c) once
      (apply_call-HasNoDuplicates http t call c once h)

-- If the server names each device of a peer once, then after any calls, those that fail included,
-- the cache names each device of a peer once, those that were noted by hand included.
pub run-HasNoDuplicates :
    (http : Directory) (stale_after_ms : Option ℕ) (calls : List Call)
    → NamesOnce http
    → HasNoDuplicates (run http stale_after_ms calls new_cache)
unfolding JsMap.lookup
run-HasNoDuplicates http t calls once =
    run_from-HasNoDuplicates http t calls new_cache once (λ peer e found. cc)

-- A device that is noted for a peer with no entry is taken for the whole list of the peer's
-- devices: until the window is over no request is made, and that device alone is returned.
pub get_peer_devices-note_new_peer_device :
    (http : Directory) (stale_after_ms : Option ℕ) (peer : Text) (device : PeerDeviceMeta)
    (noted_at now done : ℕ) (c : PeerDeviceCache)
    → JsMap.lookup peer c.cache ≡ none
    → get_peer_devices http stale_after_ms peer now done
        (note_new_peer_device peer device noted_at c)
      ≡ (if ltb now (noted_at + stale_window stale_after_ms)
          then (some (device ∷ []), note_new_peer_device peer device noted_at c)
          else refresh http peer done (note_new_peer_device peer device noted_at c))
unfolding get_peer_devices note_new_peer_device
get_peer_devices-note_new_peer_device http t peer device noted_at now done c unknown =
    rw (unknown, note_new_peer_device)
      (rw
        (
          JsMap.lookup-insert_self peer (record { devices = device ∷ []; fetched_at = noted_at })
              c.cache,
          get_peer_devices,
        )
        refl)
