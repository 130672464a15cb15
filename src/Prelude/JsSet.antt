-- ===== src/Prelude/JsSet.antt =====
-- A `Set` of strings: its members in insertion order. Also `includes` on a list of strings.
use Prim.Native.Nat.{◌+◌, ◌≤◌}
use mathlib.Core.Bool.{Bool, true, false, ◌&&◌, ◌||◌, not}
use mathlib.Core.List.{List, [], ◌∷◌, ◌++◌}
use mathlib.Core.Logic.{inl, inr}
use mathlib.Core.Path.{◌≡◌, refl}
use native.Mathlib.Omega.{arith}
use secure_chat_client.Prelude.Lists.{length}
use secure_chat_client.Prelude.Tests.{if◌then◌else◌, Bool-cases}
use secure_chat_client.Prelude.Strings.{Text, ◌==◌, eq_iff, eq_refl}

unfoldable pub contains : Text → List Text → Bool
contains a [] = false
contains a (x ∷ xs) = (x == a) || contains a xs

unfoldable pub add : Text → List Text → List Text
add a [] = a ∷ []
add a (x ∷ xs) = if x == a then x ∷ xs else x ∷ add a xs

unfoldable pub remove : Text → List Text → List Text
remove a [] = []
remove a (x ∷ xs) = let rest = remove a xs in if x == a then rest else x ∷ rest

pub contains-add :
    (a b : Text) (xs : List Text) → contains b (add a xs) ≡ ((a == b) || contains b xs)
unfolding contains add
contains-add a b [] = refl
contains-add a b (x ∷ xs) = ground (arith, eq_iff x a, eq_iff a b, eq_iff x b, contains-add a b xs)

pub contains-remove :
    (a b : Text) (xs : List Text) → contains b (remove a xs) ≡ (not (a == b) && contains b xs)
unfolding contains remove
contains-remove a b [] = ground arith
contains-remove a b (x ∷ xs) =
    ground (arith, eq_iff x a, eq_iff a b, eq_iff x b, contains-remove a b xs)

pub contains-append :
    (a : Text) (xs ys : List Text) → contains a (xs ++ ys) ≡ (contains a xs || contains a ys)
unfolding contains
contains-append a [] ys = refl
contains-append a (x ∷ xs) ys = ground (arith, contains-append a xs ys)

pub length-add :
    (a : Text) (xs : List Text)
    → length (add a xs) ≡ (if contains a xs then length xs else length xs + 1)
unfolding contains add
length-add a [] = omega arith
length-add a (x ∷ xs) = ground (arith, length-add a xs)

-- No member stands twice.
abbrev pub Distinct : List Text → Type 0
Distinct [] = Unit
Distinct (x ∷ xs) = (contains x xs ≡ false) × Distinct xs

pub add-Distinct : (a : Text) (xs : List Text) → Distinct xs → Distinct (add a xs)
unfolding add contains
add-Distinct a [] d = ground arith
add-Distinct a (x ∷ xs) d =
    ground (arith, eq_iff x a, eq_iff a x, contains-add a x xs, add-Distinct a xs d.1)

abbrev pub Subset : List Text → List Text → Type 0
Subset xs ys = (a : Text) → contains a xs ≡ true → contains a ys ≡ true

pub length-remove-le : (a : Text) (xs : List Text) → length (remove a xs) ≤ length xs
unfolding remove
length-remove-le a [] = omega arith
length-remove-le a (x ∷ xs) = ground (arith, length-remove-le a xs)

pub length-remove :
    (a : Text) (xs : List Text) → contains a xs ≡ true → length (remove a xs) + 1 ≤ length xs
unfolding contains remove
length-remove a [] h = cc
length-remove a (x ∷ xs) h = ground (arith, eq_iff x a, length-remove a xs, length-remove-le a xs)

Subset-remove :
    (x : Text) (xs ys : List Text) → Subset xs ys → contains x xs ≡ false → Subset xs (remove x ys)
Subset-remove x xs ys sub absent a h = ground (arith, eq_iff x a, contains-remove x a ys, sub a h)

pub length-le_of_Subset : (xs ys : List Text) → Distinct xs → Subset xs ys → length xs ≤ length ys
unfolding contains
length-le_of_Subset [] ys d sub = omega arith
length-le_of_Subset (x ∷ xs) ys d sub =
    let here : contains x ys ≡ true = sub x (ground (arith, eq_refl x)) in
    let rest : Subset xs ys = λ a h. sub a (ground arith) in
    omega (
      arith,
      length-le_of_Subset xs (remove x ys) d.1 (Subset-remove x xs ys rest d.0),
      length-remove x ys here,
    )

-- A set of distinct members within another that is no larger has all of its members.
pub Subset_of_length :
    (xs ys : List Text) → Distinct xs → Subset xs ys → length ys ≤ length xs → Subset ys xs
Subset_of_length xs ys d sub le a h = elim (Bool-cases (contains a xs)) [
  | inl there ↦ there
  | inr absent ↦ absurd (
      omega (
        arith,
        length-le_of_Subset xs (remove a ys) d (Subset-remove a xs ys sub absent),
        length-remove a ys h,
      ))
]

pub Distinct-middle :
    (x : Text) (xs ys : List Text)
    → Distinct (xs ++ (x ∷ ys))
    → Distinct (xs ++ ys) × (contains x (xs ++ ys) ≡ false)
unfolding contains
Distinct-middle x [] ys d = (d.1, d.0)
Distinct-middle x (z ∷ xs) ys d =
    let (rest, absent) = Distinct-middle x xs ys d.1 in
    (
      (ground (arith, contains-append z xs (x ∷ ys), contains-append z xs ys, d.0), rest),
      ground (arith, eq_iff z x, eq_iff x z, absent, contains-append z xs (x ∷ ys), d.0),
    )

pub Distinct-concat :
    (x : Text) (xs : List Text) → Distinct xs → contains x xs ≡ false → Distinct (xs ++ (x ∷ []))
unfolding contains
Distinct-concat x [] d h = (refl, tt)
Distinct-concat x (y ∷ xs) d h = (
  ground (arith, eq_iff y x, eq_iff x y, contains-append y xs (x ∷ []), d.0),
  Distinct-concat x xs d.1 (ground arith),
)
