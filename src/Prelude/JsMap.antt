-- ===== src/Prelude/JsMap.antt =====
-- A `Map` with string keys: the entries in insertion order. Setting a key that is there keeps its
-- place, and a new key comes last.
use Prim.Native.Nat.{◌+◌, ◌≤◌}
use mathlib.Core.Bool.{Bool}
use mathlib.Core.List.{List, [], ◌∷◌, ◌++◌, map}
use mathlib.Core.Option.{Option, none, some}
use mathlib.Core.Path.{◌≡◌, refl}
use native.Mathlib.Omega.{arith}
use secure_chat_client.Prelude.Lists.{length}
use secure_chat_client.Prelude.Tests.{if◌then◌else◌, is_some}
use secure_chat_client.Prelude.Strings.{Text, ◌==◌, eq_iff, eq_refl}

abbrev pub JsMap {ℓ} : Type ℓ → Type ℓ
JsMap V = List (Text × V)

module _ {ℓ} {V : Type ℓ} where
  unfoldable pub lookup : Text → JsMap V → Option V
  lookup key [] = none
  lookup key ((name, value) ∷ entries) = if name == key then some value else lookup key entries

  unfoldable pub insert : Text → V → JsMap V → JsMap V
  insert key value [] = (key, value) ∷ []
  insert key value ((name, old) ∷ entries) =
      if name == key then (name, value) ∷ entries else (name, old) ∷ insert key value entries

  -- every entry of the key goes; a map has at most one
  unfoldable pub erase : Text → JsMap V → JsMap V
  erase k [] = []
  erase k ((j, w) ∷ m) = let rest = erase k m in if j == k then rest else (j, w) ∷ rest

  abbrev pub keys : JsMap V → List Text
  keys = map (λ e. e.0)

  abbrev pub values : JsMap V → List V
  values = map (λ e. e.1)

  abbrev pub has : Text → JsMap V → Bool
  has k m = is_some (lookup k m)

  -- What a key holds once a value is set under a key.
  pub lookup-insert :
      (set asked : Text) (value : V) (entries : JsMap V)
      → lookup asked (insert set value entries)
        ≡ (if set == asked then some value else lookup asked entries)
  unfolding insert lookup
  lookup-insert set asked value [] = refl
  lookup-insert set asked value ((name, old) ∷ entries) = ground (
    arith,
    lookup-insert set asked value entries,
    eq_iff name asked,
    eq_iff name set,
    eq_iff set asked,
  )

  pub lookup-erase :
      (gone asked : Text) (entries : JsMap V)
      → lookup asked (erase gone entries) ≡ (if gone == asked then none else lookup asked entries)
  unfolding erase lookup
  lookup-erase gone asked [] = ground arith
  lookup-erase gone asked ((name, old) ∷ entries) = ground (
    arith,
    lookup-erase gone asked entries,
    eq_iff name asked,
    eq_iff name gone,
    eq_iff gone asked,
  )

  pub lookup-insert_self : (k : Text) (v : V) (m : JsMap V) → lookup k (insert k v m) ≡ some v
  lookup-insert_self k v m = rw (lookup-insert k k v m) (rw (eq_refl k))

  -- A new key makes the map longer by one, an old one leaves its length.
  pub length-insert :
      (k : Text) (v : V) (m : JsMap V)
      → length (insert k v m) ≡ (if has k m then length m else length m + 1)
  unfolding lookup insert
  length-insert k v [] = omega arith
  length-insert k v ((j, w) ∷ m) = ground (arith, length-insert k v m)

  pub length-erase-le : (k : Text) (m : JsMap V) → length (erase k m) ≤ length m
  unfolding erase
  length-erase-le k [] = omega arith
  length-erase-le k ((j, w) ∷ m) = ground (arith, length-erase-le k m)

  -- A new key comes last.
  pub insert_absent :
      (k : Text) (v : V) (m : JsMap V) → lookup k m ≡ none → insert k v m ≡ m ++ (k, v) ∷ []
  unfolding lookup insert
  insert_absent k v [] h = refl
  insert_absent k v ((j, w) ∷ m) h = ground (arith, insert_absent k v m)
