-- ===== src/Store/Memory.antt =====
-- The in-memory store: src/store/memory-adapter.ts, class `MemoryKVStore`.
use secure_chat_client.Prelude.JsMap
use secure_chat_client.Prelude.JsMap.{JsMap}
use secure_chat_client.Prelude.JsSet
use secure_chat_client.Prelude.{
  ◌≡◌, refl, ◌&&◌, Option, List, [], ◌∷◌, Text, eq_iff, starts_with, is_some, if◌then◌else◌, arith,
}
use secure_chat_client.Store.{Bytes, Stored, string, bytes, KvOps, IsLawful, as_string, as_bytes}

abbrev pub MemoryKvStore : Type 0
MemoryKvStore = JsMap Stored

abbrev pub get_string : Text → MemoryKvStore → Option Text
get_string key m = as_string (JsMap.lookup key m)

abbrev pub set_string : Text → Text → MemoryKvStore → MemoryKvStore
set_string key value m = JsMap.insert key (string value) m

abbrev pub get_bytes : Text → MemoryKvStore → Option Bytes
get_bytes key m = as_bytes (JsMap.lookup key m)

abbrev pub set_bytes : Text → Bytes → MemoryKvStore → MemoryKvStore
set_bytes key value m = JsMap.insert key (bytes value) m

abbrev pub delete : Text → MemoryKvStore → MemoryKvStore
delete key m = JsMap.erase key m

unfoldable pub list_keys : Text → MemoryKvStore → List Text
list_keys prefix [] = []
list_keys prefix ((k, v) ∷ m) =
    let rest = list_keys prefix m in if starts_with prefix k then k ∷ rest else rest

abbrev pub memory_kv : KvOps MemoryKvStore
memory_kv = record {
  get_string = get_string;
  set_string = set_string;
  get_bytes = get_bytes;
  set_bytes = set_bytes;
  delete = delete;
  list_keys = list_keys;
}

contains-list_keys :
    (p k : Text) (m : MemoryKvStore)
    → JsSet.contains k (list_keys p m) ≡ (starts_with p k && is_some (JsMap.lookup k m))
unfolding JsSet.contains list_keys JsMap.lookup
contains-list_keys p k [] = ground arith
contains-list_keys p k ((j, v) ∷ m) = ground (arith, eq_iff j k, contains-list_keys p k m)

-- The in-memory store meets the contract of the storage interface.
pub memory-IsLawful : IsLawful memory_kv JsMap.lookup
memory-IsLawful = record {
  get_string_at = λ k s. refl;
  get_bytes_at = λ k s. refl;
  at-set_string = λ k j v s. JsMap.lookup-insert k j (string v) s;
  at-set_bytes = λ k j v s. JsMap.lookup-insert k j (bytes v) s;
  at-delete = λ k j s. JsMap.lookup-erase k j s;
  list_keys_at = contains-list_keys;
}
