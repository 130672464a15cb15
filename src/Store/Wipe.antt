-- ===== src/Store/Wipe.antt =====
-- What a wipe and a migration leave in the store: src/store/scoped-adapter.ts.
use secure_chat_client.Prelude.JsSet
use secure_chat_client.Prelude.{
  ◌≡◌, refl, sym, ap, ◌∙◌, false, Option, none, List, [], ◌∷◌, ◌++◌, Text, ◌==◌, eq_iff,
  starts_with, if◌then◌else◌, arith, length, drop, Bool-cases, Option-cases, inl, inr,
  starts_with-append, append-drop, eq-append_append,
}
use secure_chat_client.Store.{Stored, KvOps, IsLawful}
use secure_chat_client.Store.Migrate.{delete_all, wipe_scope}
use secure_chat_client.Store.Scoped.{scope_prefix, scoped_key, scoped_kv, scoped-IsLawful}

pub starts_with-ne : (p j k : Text) → starts_with p j ≡ false → ((p ++ k) == j) ≡ false
starts_with-ne p j k h = elim (Bool-cases ((p ++ k) == j)) [
  | inl same ↦ ground (arith, eq_iff (p ++ k) j, starts_with-append p k)
  | inr other ↦ other
]

module _ {S : Type 0} (kv : KvOps S) (at : Text → S → Option Stored) (scope : Text)
    (l : IsLawful kv at) where
  delete_all-inside :
      (ks : List Text) (k : Text) (s : S)
      → at (scope_prefix scope ++ k) (delete_all kv scope ks s)
        ≡ (if JsSet.contains k ks then none else at (scope_prefix scope ++ k) s)
  unfolding delete_all JsSet.contains
  delete_all-inside [] k s = refl
  delete_all-inside (j ∷ ks) k s =
      let p : Text = scope_prefix scope in
      ground (
        arith,
        delete_all-inside ks k (kv.delete (p ++ j) s),
        l.at-delete (p ++ j) (p ++ k) s,
        eq-append_append p j k,
      )

  delete_all-outside :
      (ks : List Text) (j : Text) (s : S)
      → starts_with (scope_prefix scope) j ≡ false
      → at j (delete_all kv scope ks s) ≡ at j s
  unfolding delete_all
  delete_all-outside [] j s h = refl
  delete_all-outside (k ∷ ks) j s h =
      let p : Text = scope_prefix scope in
      ground (
        arith,
        delete_all-outside ks j (kv.delete (p ++ k) s),
        l.at-delete (p ++ k) j s,
        starts_with-ne p j k h,
      )

  wipe_inside : (k : Text) (s : S) → at (scope_prefix scope ++ k) (wipe_scope kv scope s).1 ≡ none
  unfolding wipe_scope starts_with
  wipe_inside k s =
      let q : IsLawful (scoped_kv kv scope) (λ k s. at (scoped_key kv scope k) s) =
        scoped-IsLawful kv at scope l in
      elim (Option-cases (at (scope_prefix scope ++ k) s)) [
        | inl gone ↦ ground (arith, delete_all-inside ((scoped_kv kv scope).list_keys [] s) k s)
        | inr (v, there) ↦ ground (
          arith,
          delete_all-inside ((scoped_kv kv scope).list_keys [] s) k s,
          q.list_keys_at [] k s,
        )
      ]

  wipe_outside :
      (j : Text) (s : S)
      → starts_with (scope_prefix scope) j ≡ false
      → at j (wipe_scope kv scope s).1 ≡ at j s
  unfolding wipe_scope
  wipe_outside j s h = delete_all-outside ((scoped_kv kv scope).list_keys [] s) j s h

  -- Over a lawful store a wipe removes exactly the keys under `u/<scope>/`, and changes no other.
  pub wipe_scope_at :
      (j : Text) (s : S)
      → at j (wipe_scope kv scope s).1
        ≡ (if starts_with (scope_prefix scope) j then none else at j s)
  wipe_scope_at j s = elim (Bool-cases (starts_with (scope_prefix scope) j)) [
    | inl inside ↦
        let k : Text = drop (length (scope_prefix scope)) j in
        rw inside (
          ap (λ x. at x (wipe_scope kv scope s).1) (sym (append-drop (scope_prefix scope) j inside))
          ∙ wipe_inside k s)
    | inr outside ↦ rw outside (wipe_outside j s outside)
  ]
