-- ===== src/Store/Adoption.antt =====
-- Where the keys of an old install end: src/store/scoped-adapter.ts, `migrateLegacyKeys`.
use secure_chat_client.Prelude.JsSet
use secure_chat_client.Prelude.{
  ℕ, suc, ◌≡◌, refl, true, false, not, ◌&&◌, Option, none, some, List, [], ◌∷◌, ◌++◌, Text, ◌==◌,
  eq_iff, eq_refl, starts_with, is_some, if◌then◌else◌, arith, Bool-cases, inl, inr,
  eq-append_append,
}
use secure_chat_client.Store.{Stored, string, bytes, KvOps, IsLawful}
use secure_chat_client.Store.Migrate.{
  scope_mark, is_nil, legacy_keys, migrate_key, migrate_loop, migrate_legacy_keys,
}
use secure_chat_client.Store.Wipe.{starts_with-ne}
use secure_chat_client.Store.Scoped.{scope_prefix, scoped_key, scoped_kv, scoped-IsLawful}

contains-legacy_keys :
    (k : Text) (ks : List Text)
    → JsSet.contains k (legacy_keys ks) ≡ (JsSet.contains k ks && not (starts_with scope_mark k))
unfolding JsSet.contains legacy_keys
contains-legacy_keys k [] = refl
contains-legacy_keys k (j ∷ ks) = ground (arith, eq_iff j k, contains-legacy_keys k ks)

starts_with-scope_prefix :
    (scope k : Text) → starts_with scope_mark (scope_prefix scope ++ k) ≡ true
unfolding starts_with
starts_with-scope_prefix scope k = refl

-- An unscoped key is not a scoped one.
legacy-ne :
    (scope j k : Text) → starts_with scope_mark j ≡ false → ((scope_prefix scope ++ k) == j) ≡ false
legacy-ne scope j k h = elim (Bool-cases ((scope_prefix scope ++ k) == j)) [
  | inl same ↦ ground (arith, eq_iff (scope_prefix scope ++ k) j, starts_with-scope_prefix scope k)
  | inr other ↦ other
]

legacy-ne_sym :
    (scope j k : Text) → starts_with scope_mark j ≡ false → (j == (scope_prefix scope ++ k)) ≡ false
legacy-ne_sym scope j k h = ground (
  arith,
  eq_iff (scope_prefix scope ++ k) j,
  eq_iff j (scope_prefix scope ++ k),
  legacy-ne scope j k h,
)

module _ {S : Type 0} (kv : KvOps S) (at : Text → S → Option Stored) (scope : Text)
    (l : IsLawful kv at) where
  -- The value that the key has after one round, by the value that was there.
  migrate_value :
      (k j : Text) (s : S) (v : Option Stored)
      → at k s ≡ v
      → at j (migrate_key kv scope k s).1 ≡ (
          if k == j
          then none
          else (if ((scope_prefix scope ++ k) == j) && is_some v then v else at j s))
  unfolding migrate_key
  migrate_value k j s none e = ground (arith, l.get_bytes_at k s, l.get_string_at k s, eq_iff k j)
  migrate_value k j s (some (string v)) e =
      let p : Text = scope_prefix scope ++ k in
      ground (
        arith,
        l.get_bytes_at k s,
        l.get_string_at k s,
        l.at-delete k j (kv.set_string p v s),
        l.at-set_string p j v s,
      )
  migrate_value k j s (some (bytes b)) e =
      let p : Text = scope_prefix scope ++ k in
      ground
        (arith, l.get_bytes_at k s, l.at-delete k j (kv.set_bytes p b s), l.at-set_bytes p j b s)

  -- Over a list of unscoped keys: the listed ones are gone, their values stand under the scope,
  -- and every other scoped key is as it was.
  migrate_loop-legacy :
      (ks : List Text) (n : ℕ) (j : Text) (s : S)
      → starts_with scope_mark j ≡ false
      → at j (migrate_loop kv scope ks n s).1 ≡ (if JsSet.contains j ks then none else at j s)
  unfolding migrate_loop JsSet.contains
  migrate_loop-legacy [] n j s h = refl
  migrate_loop-legacy (k ∷ ks) n j s h =
      let s' : S = (migrate_key kv scope k s).1 in
      let n' : ℕ = if (migrate_key kv scope k s).0 then suc n else n in
      ground (
        arith,
        migrate_loop-legacy ks n' j s' h,
        migrate_value k j s (at k s) refl,
        legacy-ne scope j k h,
        eq_iff k j,
      )

  migrate_loop-scoped :
      (ks : List Text) (n : ℕ) (j : Text) (s : S)
      → ((k : Text) → JsSet.contains k ks ≡ true → starts_with scope_mark k ≡ false)
      → at (scope_prefix scope ++ j) (migrate_loop kv scope ks n s).1 ≡ (
          if JsSet.contains j ks && is_some (at j s)
          then at j s
          else at (scope_prefix scope ++ j) s)
  unfolding migrate_loop JsSet.contains
  migrate_loop-scoped [] n j s all = refl
  migrate_loop-scoped (k ∷ ks) n j s all =
      let s' : S = (migrate_key kv scope k s).1 in
      let n' : ℕ = if (migrate_key kv scope k s).0 then suc n else n in
      let p : Text = scope_prefix scope in
      let here : starts_with scope_mark k ≡ false = all k (ground (arith, eq_refl k)) in
      let rest : (k : Text) → JsSet.contains k ks ≡ true → starts_with scope_mark k ≡ false =
        λ a m. all a (ground arith) in
      ground (
        arith,
        migrate_loop-scoped ks n' j s' rest,
        migrate_value k j s (at k s) refl,
        migrate_value k (p ++ j) s (at k s) refl,
        legacy-ne scope j k,
        legacy-ne_sym scope k j here,
        eq-append_append p k j,
        rest j,
        eq_iff k j,
      )

  migrate_loop-foreign :
      (ks : List Text) (n : ℕ) (j : Text) (s : S)
      → ((k : Text) → JsSet.contains k ks ≡ true → starts_with scope_mark k ≡ false)
      → starts_with scope_mark j ≡ true
      → starts_with (scope_prefix scope) j ≡ false
      → at j (migrate_loop kv scope ks n s).1 ≡ at j s
  unfolding migrate_loop JsSet.contains
  migrate_loop-foreign [] n j s all marked outside = refl
  migrate_loop-foreign (k ∷ ks) n j s all marked outside =
      let s' : S = (migrate_key kv scope k s).1 in
      let n' : ℕ = if (migrate_key kv scope k s).0 then suc n else n in
      let here : starts_with scope_mark k ≡ false = all k (ground (arith, eq_refl k)) in
      let rest : (k : Text) → JsSet.contains k ks ≡ true → starts_with scope_mark k ≡ false =
        λ a m. all a (ground arith) in
      ground (
        arith,
        migrate_loop-foreign ks n' j s' rest marked outside,
        migrate_value k j s (at k s) refl,
        starts_with-ne (scope_prefix scope) j k outside,
        eq_iff k j,
      )

  legacy_all :
      (s : S) (k : Text)
      → JsSet.contains k (legacy_keys (kv.list_keys [] s)) ≡ true
      → starts_with scope_mark k ≡ false
  legacy_all s k m = ground (arith, contains-legacy_keys k (kv.list_keys [] s))

  -- A migration into a scope that holds nothing.
  pub record IsAdopted (s s' : S) : Type 0 where
    pub gone : (k : Text) → starts_with scope_mark k ≡ false → at k s' ≡ none
    pub taken_over :
        (k : Text) → starts_with scope_mark k ≡ false → at (scope_prefix scope ++ k) s' ≡ at k s
    pub foreign :
        (k : Text)
        → starts_with scope_mark k ≡ true
        → starts_with (scope_prefix scope) k ≡ false
        → at k s' ≡ at k s

  migrate_loop-IsAdopted :
      (s : S)
      → ((k : Text) → at (scope_prefix scope ++ k) s ≡ none)
      → IsAdopted s (migrate_loop kv scope (legacy_keys (kv.list_keys [] s)) 0 s).1
  unfolding starts_with
  migrate_loop-IsAdopted s fresh =
      let ks : List Text = legacy_keys (kv.list_keys [] s) in
      record {
        gone = λ k h. ground (
          arith,
          migrate_loop-legacy ks 0 k s h,
          contains-legacy_keys k (kv.list_keys [] s),
          l.list_keys_at [] k s,
        );
        taken_over = λ k h. ground (
          arith,
          migrate_loop-scoped ks 0 k s (legacy_all s),
          contains-legacy_keys k (kv.list_keys [] s),
          l.list_keys_at [] k s,
          fresh k,
        );
        foreign = λ k marked outside. migrate_loop-foreign ks 0 k s (legacy_all s) marked outside;
      }

  is_nil_of_empty : (ks : List Text) → ((k : Text) → JsSet.contains k ks ≡ false) → is_nil ks ≡ true
  unfolding JsSet.contains
  is_nil_of_empty [] h = refl
  is_nil_of_empty (k ∷ ks) h = absurd (ground (arith, h k, eq_refl k))

  -- Over a lawful store, into a scope that holds nothing: every unscoped key is gone from its old
  -- place and its value stands under `u/<scope>/` followed by the key, and no key of another scope
  -- changes.
  pub migrate-IsAdopted :
      (s : S)
      → ((k : Text) → at (scope_prefix scope ++ k) s ≡ none)
      → IsAdopted s (migrate_legacy_keys kv scope s).1
  unfolding migrate_legacy_keys starts_with
  migrate-IsAdopted s fresh =
      let q : IsLawful (scoped_kv kv scope) (λ k s. at (scoped_key kv scope k) s) =
        scoped-IsLawful kv at scope l in
      let nothing : is_nil ((scoped_kv kv scope).list_keys [] s) ≡ true =
        is_nil_of_empty ((scoped_kv kv scope).list_keys [] s)
          (λ k. ground (arith, q.list_keys_at [] k s, fresh k)) in
      rw nothing (migrate_loop-IsAdopted s fresh)

  not_nil_of_contains : (ks : List Text) (k : Text) → JsSet.contains k ks ≡ true → is_nil ks ≡ false
  unfolding JsSet.contains
  not_nil_of_contains [] k h = cc
  not_nil_of_contains (j ∷ ks) k h = refl

  -- Over a lawful store a scope that already holds a key adopts nothing: the store is unchanged,
  -- and no key is reported as migrated.
  pub migrate_occupied :
      (s : S) (k : Text)
      → is_some (at (scope_prefix scope ++ k) s) ≡ true
      → migrate_legacy_keys kv scope s ≡ (0, s)
  unfolding migrate_legacy_keys starts_with
  migrate_occupied s k there =
      let q : IsLawful (scoped_kv kv scope) (λ k s. at (scoped_key kv scope k) s) =
        scoped-IsLawful kv at scope l in
      let ks : List Text = (scoped_kv kv scope).list_keys [] s in
      rw (not_nil_of_contains ks k (ground (arith, q.list_keys_at [] k s, there)))
