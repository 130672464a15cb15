-- ===== src/Store/Migrate.antt =====
-- Adoption of the keys of an old install, and the wipe of one user: src/store/scoped-adapter.ts,
-- `migrateLegacyKeys` and `wipeScope`.
use secure_chat_client.Prelude.{
  ℕ, suc, Bool, true, false, none, some, List, [], ◌∷◌, Text, lit, starts_with, if◌then◌else◌,
  length,
}
use secure_chat_client.Store.{KvOps}
use secure_chat_client.Store.Scoped.{scoped_kv}

-- `u/`: what every scoped key starts with
abbrev pub scope_mark : Text
scope_mark = lit "u/"

-- `allKeys.filter((k) => !k.startsWith(SCOPE_PREFIX))`
unfoldable pub legacy_keys : List Text → List Text
legacy_keys [] = []
legacy_keys (k ∷ ks) =
    let rest = legacy_keys ks in if starts_with scope_mark k then rest else k ∷ rest

abbrev pub is_nil : List Text → Bool
is_nil [] = true
is_nil (k ∷ ks) = false

module _ {S : Type 0} (raw : KvOps S) (scope : Text) where
  -- One round of the loop of `migrateLegacyKeys`: whether the key moved, and the state.
  unfoldable pub migrate_key : Text → S → Bool × S
  migrate_key key s = elim (raw.get_bytes key s) [
    | some b ↦ (true, raw.delete key ((scoped_kv raw scope).set_bytes key b s))
    | none ↦ elim (raw.get_string key s) [
      | some str ↦ (true, raw.delete key ((scoped_kv raw scope).set_string key str s))
      | none ↦ (false, s)
    ]
  ]

  unfoldable pub migrate_loop : List Text → ℕ → S → ℕ × S
  unfolding migrate_key
  migrate_loop [] migrated s = (migrated, s)
  migrate_loop (k ∷ ks) migrated s =
      let (moved, s') = migrate_key k s in
      migrate_loop ks (if moved then suc migrated else migrated) s'

  unfoldable pub migrate_legacy_keys : S → ℕ × S
  unfolding migrate_loop legacy_keys
  migrate_legacy_keys s =
      if is_nil ((scoped_kv raw scope).list_keys [] s)
      then migrate_loop (legacy_keys (raw.list_keys [] s)) 0 s
      else (0, s)

  unfoldable pub delete_all : List Text → S → S
  delete_all [] s = s
  delete_all (k ∷ ks) s = delete_all ks ((scoped_kv raw scope).delete k s)

  unfoldable pub wipe_scope : S → ℕ × S
  unfolding delete_all
  wipe_scope s =
      let ks : List Text = (scoped_kv raw scope).list_keys [] s in (length ks, delete_all ks s)
