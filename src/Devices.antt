-- ===== src/Devices.antt =====
-- The known devices of the peers: src/device_discovery.ts, class `PeerDeviceCache`.
-- `http.listDevices` is the environment `Directory`, a function of the number of the request and
-- the peer (`none`: it throws). The entries of the cache are changed in place by the source; here
-- the changed entry is written back. A fetch that starts at `now` ends at `done`.
pub mod Known
use secure_chat_client.Prelude.JsMap
use secure_chat_client.Prelude.JsMap.{JsMap}
use secure_chat_client.Prelude.{
  ℕ, ◌+◌, ◌*◌, Bool, true, false, ◌||◌, Option, none, some, List, [], ◌∷◌, ◌++◌, Text, ◌==◌, ltb,
  length, if◌then◌else◌,
}

pub record PeerDeviceMeta : Type 0 where
  pub device_id : Text
  pub fingerprint : Text
  pub last_active_at : ℕ

pub record CacheEntry : Type 0 where
  pub devices : List PeerDeviceMeta
  pub fetched_at : ℕ

abbrev pub Directory : Type 0
Directory = ℕ → Text → Option (List PeerDeviceMeta)

pub record PeerDeviceCache : Type 0 where
  pub cache : JsMap CacheEntry
  -- how many requests were made
  pub requests : ℕ

abbrev pub new_cache : PeerDeviceCache
new_cache = record { cache = []; requests = 0 }

abbrev pub default_stale_after_ms : ℕ
default_stale_after_ms = 5 * 60 * 1000

-- `staleAfterMs ?? DEFAULT_STALE_AFTER_MS`
abbrev pub stale_window : Option ℕ → ℕ
stale_window none = default_stale_after_ms
stale_window (some ms) = ms

abbrev pub set_entry : Text → CacheEntry → PeerDeviceCache → PeerDeviceCache
set_entry peer e c = record c { cache = JsMap.insert peer e c.cache }

-- `none`: the request throws, and the cache stays.
unfoldable pub refresh :
    Directory → Text → ℕ → PeerDeviceCache → Option (List PeerDeviceMeta) × PeerDeviceCache
unfolding JsMap.insert
refresh http peer done c =
    let asked : PeerDeviceCache = record c { requests = c.requests + 1 } in
    elim (http c.requests peer) [
      | none ↦ (none, asked)
      | some devices ↦
          (some devices, set_entry peer (record { devices = devices; fetched_at = done }) asked)
    ]

unfoldable pub get_peer_devices :
    Directory
    → Option ℕ
    → Text
    → ℕ
    → ℕ
    → PeerDeviceCache
    → Option (List PeerDeviceMeta) × PeerDeviceCache
unfolding refresh JsMap.lookup
get_peer_devices http stale_after_ms peer now done c = elim (JsMap.lookup peer c.cache) [
  | none ↦ refresh http peer done c
  | some e ↦
      if ltb now (e.fetched_at + stale_window stale_after_ms)
      then (some e.devices, c)
      else refresh http peer done c
]

unfoldable pub has_device : Text → List PeerDeviceMeta → Bool
has_device id [] = false
has_device id (d ∷ ds) = (d.device_id == id) || has_device id ds

unfoldable pub note_new_peer_device : Text → PeerDeviceMeta → ℕ → PeerDeviceCache → PeerDeviceCache
unfolding JsMap.lookup JsMap.insert has_device
note_new_peer_device peer device now c = elim (JsMap.lookup peer c.cache) [
  | none ↦ set_entry peer (record { devices = device ∷ []; fetched_at = now }) c
  | some e ↦
      if has_device device.device_id e.devices
      then c
      else set_entry peer (record e { devices = e.devices ++ device ∷ [] }) c
]

unfoldable pub invalidate : Text → PeerDeviceCache → PeerDeviceCache
unfolding JsMap.erase
invalidate peer c = record c { cache = JsMap.erase peer c.cache }

abbrev pub clear : PeerDeviceCache → PeerDeviceCache
clear c = record c { cache = [] }

pub record Diagnostics : Type 0 where
  pub peer_user_id : Text
  pub device_count : ℕ
  pub fetched_at : ℕ

unfoldable pub diagnostics_of : JsMap CacheEntry → List Diagnostics
diagnostics_of [] = []
diagnostics_of ((peer, e) ∷ m) =
    record { peer_user_id = peer; device_count = length e.devices; fetched_at = e.fetched_at }
    ∷ diagnostics_of m

abbrev pub diagnostics : PeerDeviceCache → List Diagnostics
diagnostics c = diagnostics_of c.cache
