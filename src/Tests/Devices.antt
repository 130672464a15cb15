-- ===== src/Tests/Devices.antt =====
-- A peer with one device by the server, and one that was noted: src/device_discovery.ts.
use secure_chat_client.Prelude.JsSet
use secure_chat_client.Prelude.{zero, suc, ◌≡◌, refl, sym, false, none, some, List, [], ◌∷◌, lit}
use secure_chat_client.Devices.{PeerDeviceMeta, Directory, new_cache}
use secure_chat_client.Devices.Known.{
  Call, lookup_devices, noted, run, HasNoDuplicates, NamesOnce, run-HasNoDuplicates,
}

abbrev phone : PeerDeviceMeta
phone = record { device_id = lit "phone"; fingerprint = lit "f1"; last_active_at = 5 }

abbrev laptop : PeerDeviceMeta
laptop = record { device_id = lit "laptop"; fingerprint = lit "f2"; last_active_at = 7 }

-- The first request fails.
abbrev pub http : Directory
http n peer = elim n [ zero ↦ none | suc k ↦ some (phone ∷ []) ]

one : JsSet.contains (lit "phone") [] ≡ false
unfolding JsSet.contains
one = refl

http-NamesOnce : NamesOnce http
http-NamesOnce zero peer ds e = cc
http-NamesOnce (suc n) peer ds e = let list : phone ∷ [] ≡ ds = cc in rw (sym list) (one, tt)

abbrev calls : List Call
calls =
    lookup_devices (lit "bob") 10 20
    ∷ lookup_devices (lit "bob") 30 40
    ∷ noted (lit "bob") laptop 50
    ∷ []

run-HasNoDuplicates_example : HasNoDuplicates (run http none calls new_cache)
run-HasNoDuplicates_example = run-HasNoDuplicates http none calls http-NamesOnce
