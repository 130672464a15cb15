-- ===== src/Store/Scoped.antt =====
-- A store confined to one user: src/store/scoped-adapter.ts, `scopePrefix` and `ScopedKVStore`.
-- The scope is not empty (the constructor of the source throws on an empty one).
use mathlib.Core.List.{append_assoc}
use secure_chat_client.Prelude.JsSet
use secure_chat_client.Prelude.{
  ◌≡◌, ◌≢◌, refl, sym, ap, ◌∙◌, eq_refl, true, ◌&&◌, Option, List, [], ◌∷◌, ◌++◌, Text, lit, ◌==◌,
  eq_iff, starts_with, is_some, arith, length, drop, append-drop, eq-append_append,
  starts_with-append_append,
}
use secure_chat_client.Store.{Bytes, Stored, KvOps, IsLawful}

-- `u/<scope>/`
abbrev pub scope_prefix : Text → Text
scope_prefix scope = lit "u/" ++ scope ++ lit "/"

-- `key.slice(prefix.length)` of every key
unfoldable pub strip : Text → List Text → List Text
strip prefix [] = []
strip prefix (k ∷ ks) = drop (length prefix) k ∷ strip prefix ks

module _ {S : Type 0} (inner : KvOps S) (scope : Text) where
  abbrev pub scoped_key : Text → Text
  scoped_key key = scope_prefix scope ++ key

  abbrev pub scoped_kv : KvOps S
  scoped_kv = record {
    get_string = λ key s. inner.get_string (scoped_key key) s;
    set_string = λ key value s. inner.set_string (scoped_key key) value s;
    get_bytes = λ key s. inner.get_bytes (scoped_key key) s;
    set_bytes = λ key value s. inner.set_bytes (scoped_key key) value s;
    delete = λ key s. inner.delete (scoped_key key) s;
    list_keys = λ prefix s. strip (scope_prefix scope) (inner.list_keys (scoped_key prefix) s);
  }

-- All of the listed keys start with the prefix.
abbrev pub AllStart : Text → List Text → Type 0
AllStart p ks = (k : Text) → JsSet.contains k ks ≡ true → starts_with p k ≡ true

eq-drop : (p j k : Text) → starts_with p j ≡ true → (drop (length p) j == k) ≡ (j == (p ++ k))
eq-drop p j k h =
    sym (eq-append_append p (drop (length p) j) k) ∙ ap (λ x. x == (p ++ k)) (append-drop p j h)

pub contains-strip :
    (p k : Text) (ks : List Text)
    → AllStart p ks
    → JsSet.contains k (strip p ks) ≡ JsSet.contains (p ++ k) ks
unfolding JsSet.contains strip
contains-strip p k [] h = refl
contains-strip p k (j ∷ ks) h =
    let here : starts_with p j ≡ true = h j (ground (arith, eq_refl j)) in
    let rest : AllStart p ks = λ a m. h a (ground arith) in
    ground (arith, eq-drop p j k here, contains-strip p k ks rest)

pub starts_with_of-append : (p q k : Text) → starts_with (p ++ q) k ≡ true → starts_with p k ≡ true
unfolding starts_with
starts_with_of-append [] q k h = refl
starts_with_of-append (x ∷ p) q [] h = cc
starts_with_of-append (x ∷ p) q (y ∷ k) h = ground (arith, starts_with_of-append p q k)

-- Over a store that meets the contract, the store of one user meets it too: it holds under `key`
-- what the store below holds under `u/<scope>/key`.
pub scoped-IsLawful :
    {S : Type 0} (kv : KvOps S) (at : Text → S → Option Stored) (scope : Text)
    → IsLawful kv at
    → IsLawful (scoped_kv kv scope) (λ k s. at (scoped_key kv scope k) s)
scoped-IsLawful kv at scope l =
    let p : Text = scope_prefix scope in
    record {
      get_string_at = λ k s. l.get_string_at (p ++ k) s;
      get_bytes_at = λ k s. l.get_bytes_at (p ++ k) s;
      at-set_string =
          λ k j v s. ground (arith, l.at-set_string (p ++ k) (p ++ j) v s, eq-append_append p k j);
      at-set_bytes =
          λ k j v s. ground (arith, l.at-set_bytes (p ++ k) (p ++ j) v s, eq-append_append p k j);
      at-delete = λ k j s. ground (arith, l.at-delete (p ++ k) (p ++ j) s, eq-append_append p k j);
      list_keys_at = λ q k s.
          contains-strip p k (kv.list_keys (p ++ q) s)
            (λ j m. starts_with_of-append p q j (ground (arith, l.list_keys_at (p ++ q) j s)))
          ∙ l.list_keys_at (p ++ q) (p ++ k) s
          ∙ ap (λ b. b && is_some (at (p ++ k) s)) (starts_with-append_append p q k);
    }

-- A scope with no slash.
abbrev pub NoSlash : Text → Type 0
NoSlash [] = Unit
NoSlash (x ∷ xs) = (x ≢ 47) × NoSlash xs

scopes_apart : (a b j k : Text) → NoSlash a → NoSlash b → (a ++ (47 ∷ j)) ≡ (b ++ (47 ∷ k)) → a ≡ b
scopes_apart [] [] j k p q e = refl
scopes_apart [] (y ∷ b) j k p q e = absurd (q.0 (cc))
scopes_apart (x ∷ a) [] j k p q e = absurd (p.0 (cc))
scopes_apart (x ∷ a) (y ∷ b) j k p q e =
    let tails : (a ++ (47 ∷ j)) ≡ (b ++ (47 ∷ k)) = cc in
    let tail_eq : a ≡ b = scopes_apart a b j k p.1 q.1 tails in cc

scoped_key-split : (a j : Text) → scope_prefix a ++ j ≡ lit "u/" ++ (a ++ (47 ∷ j))
scoped_key-split a j = simp append_assoc

append_cancel : (p s t : Text) → p ++ s ≡ p ++ t → s ≡ t
append_cancel [] s t e = e
append_cancel (x ∷ p) s t e = append_cancel p s t (cc)

pub scoped_key-ne :
    (a b j k : Text) → NoSlash a → NoSlash b → a ≢ b → (scope_prefix a ++ j) ≢ (scope_prefix b ++ k)
scoped_key-ne a b j k p q apart e = apart (
    scopes_apart a b j k p q (
      append_cancel (lit "u/") (a ++ (47 ∷ j)) (b ++ (47 ∷ k))
        (sym (scoped_key-split a j) ∙ e ∙ scoped_key-split b k)))

-- The writes of one user.
pub data Write : Type 0 where
  put_string : Text → Text → Write
  put_bytes : Text → Bytes → Write
  drop_key : Text → Write

module _ {S : Type 0} where
  unfoldable pub write : KvOps S → Write → S → S
  write kv (put_string key value) = kv.set_string key value
  write kv (put_bytes key value) = kv.set_bytes key value
  write kv (drop_key key) = kv.delete key

  -- What one user writes or deletes changes nothing that another user can read, for two different
  -- user ids with no slash.
  pub scoped_isolation :
      (kv : KvOps S) (at : Text → S → Option Stored) (a b k : Text) (w : Write) (s : S)
      → IsLawful kv at
      → NoSlash a
      → NoSlash b
      → a ≢ b
      → at (scoped_key kv b k) (write (scoped_kv kv a) w s) ≡ at (scoped_key kv b k) s
  unfolding write
  scoped_isolation kv at a b k (put_string key value) s l p q apart = ground (
    arith,
    l.at-set_string (scope_prefix a ++ key) (scope_prefix b ++ k) value s,
    eq_iff (scope_prefix a ++ key) (scope_prefix b ++ k),
    scoped_key-ne a b key k p q apart,
  )
  scoped_isolation kv at a b k (put_bytes key value) s l p q apart = ground (
    arith,
    l.at-set_bytes (scope_prefix a ++ key) (scope_prefix b ++ k) value s,
    eq_iff (scope_prefix a ++ key) (scope_prefix b ++ k),
    scoped_key-ne a b key k p q apart,
  )
  scoped_isolation kv at a b k (drop_key key) s l p q apart = ground (
    arith,
    l.at-delete (scope_prefix a ++ key) (scope_prefix b ++ k) s,
    eq_iff (scope_prefix a ++ key) (scope_prefix b ++ k),
    scoped_key-ne a b key k p q apart,
  )
