-- ===== src/Store.antt =====
-- The key-value storage under the whole client: src/store/interface.ts.
-- `KvOps` is the interface over a type of states; a Promise is the value that it resolves to.
-- `IsLawful` is the contract that the rest of the client relies on.
pub mod Memory
pub mod Scoped
pub mod Migrate
pub mod Wipe
pub mod Adoption
use secure_chat_client.Prelude.JsSet
use secure_chat_client.Prelude.{
  ℕ, ◌≡◌, Bool, true, false, ◌&&◌, ◌||◌, Option, none, some, List, Text, ◌==◌, starts_with, is_some,
  if◌then◌else◌,
}

abbrev pub Bytes : Type 0
Bytes = List ℕ

-- A stored value: both kinds live under one key space.
pub data Stored : Type 0 where
  string : Text → Stored
  bytes : Bytes → Stored

pub record KvOps (S : Type 0) : Type 0 where
  pub get_string : Text → S → Option Text
  pub set_string : Text → Text → S → S
  pub get_bytes : Text → S → Option Bytes
  pub set_bytes : Text → Bytes → S → S
  pub delete : Text → S → S
  pub list_keys : Text → S → List Text

abbrev pub as_string : Option Stored → Option Text
as_string (some (string s)) = some s
as_string _ = none

abbrev pub as_bytes : Option Stored → Option Bytes
as_bytes (some (bytes b)) = some b
as_bytes _ = none

-- A store behaves as a partial function from keys to values: `at` is what it holds.
pub record IsLawful {S : Type 0} (kv : KvOps S) (at : Text → S → Option Stored) : Type 0 where
  pub get_string_at : (k : Text) (s : S) → kv.get_string k s ≡ as_string (at k s)
  pub get_bytes_at : (k : Text) (s : S) → kv.get_bytes k s ≡ as_bytes (at k s)
  pub at-set_string :
      (k j v : Text) (s : S)
      → at j (kv.set_string k v s) ≡ (if k == j then some (string v) else at j s)
  pub at-set_bytes :
      (k j : Text) (v : Bytes) (s : S)
      → at j (kv.set_bytes k v s) ≡ (if k == j then some (bytes v) else at j s)
  pub at-delete : (k j : Text) (s : S) → at j (kv.delete k s) ≡ (if k == j then none else at j s)
  pub list_keys_at :
      (p k : Text) (s : S)
      → JsSet.contains k (kv.list_keys p s) ≡ (starts_with p k && is_some (at k s))
