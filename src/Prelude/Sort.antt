-- ===== src/Prelude/Sort.antt =====
-- `Array.prototype.sort` by a numeric key: stable, as the language requires.
use mathlib.Core.List.Perm
use mathlib.Core.List.{List, [], ◌∷◌, Perm}
use mathlib.Core.Logic.{inl, inr}
use Prim.Native.Nat.{ℕ, ◌≤◌}
use native.Mathlib.Omega.{arith}
use secure_chat_client.Prelude.Tests.{leb, if◌then◌else◌, Bool-cases}
use secure_chat_client.Prelude.Lists.{All}

module _ {ℓ} {A : Type ℓ} (key : A → ℕ) where
  unfoldable pub insert_sorted : A → List A → List A
  insert_sorted x [] = x ∷ []
  insert_sorted x (y ∷ ys) = if leb (key x) (key y) then x ∷ y ∷ ys else y ∷ insert_sorted x ys

  unfoldable pub sort_by : List A → List A
  unfolding insert_sorted
  sort_by [] = []
  sort_by (x ∷ xs) = insert_sorted x (sort_by xs)

  -- Each key is at most every later one.
  abbrev pub Ascending : List A → Type 0
  Ascending [] = Unit
  Ascending (x ∷ xs) = All (λ y. key x ≤ key y) xs × Ascending xs

  All-insert_sorted :
      (n : ℕ) (x : A) (ys : List A)
      → n ≤ key x
      → All (λ y. n ≤ key y) ys
      → All (λ y. n ≤ key y) (insert_sorted x ys)
  unfolding insert_sorted
  All-insert_sorted n x [] h all = (h, tt)
  All-insert_sorted n x (y ∷ ys) h all = elim (Bool-cases (leb (key x) (key y))) [
    | inl le ↦ rw le (h, all)
    | inr gt ↦ rw gt (all.0, All-insert_sorted n x ys h all.1)
  ]

  All_mono : (n m : ℕ) (ys : List A) → n ≤ m → All (λ y. m ≤ key y) ys → All (λ y. n ≤ key y) ys
  All_mono n m [] h all = tt
  All_mono n m (y ∷ ys) h all = (omega arith, All_mono n m ys h all.1)

  insert_sorted-Ascending : (x : A) (ys : List A) → Ascending ys → Ascending (insert_sorted x ys)
  unfolding insert_sorted
  insert_sorted-Ascending x [] h = (tt, tt)
  insert_sorted-Ascending x (y ∷ ys) h = elim (Bool-cases (leb (key x) (key y))) [
    | inl le ↦ rw le ((ground arith, All_mono (key x) (key y) ys (ground arith) h.0), h)
    | inr gt ↦
        rw gt (All-insert_sorted (key y) x ys (ground arith) h.0, insert_sorted-Ascending x ys h.1)
  ]

  pub sort_by-Ascending : (xs : List A) → Ascending (sort_by xs)
  unfolding sort_by
  sort_by-Ascending [] = tt
  sort_by-Ascending (x ∷ xs) = insert_sorted-Ascending x (sort_by xs) (sort_by-Ascending xs)

  insert_sorted-perm : (x : A) (ys : List A) → Perm (insert_sorted x ys) (x ∷ ys)
  unfolding insert_sorted
  insert_sorted-perm x [] = Perm.refl (x ∷ [])
  insert_sorted-perm x (y ∷ ys) = elim (Bool-cases (leb (key x) (key y))) [
    | inl le ↦ rw le (Perm.refl (x ∷ y ∷ ys))
    | inr gt ↦ rw gt (Perm.trans (Perm.cons y (insert_sorted-perm x ys)) (Perm.swap x y ys))
  ]

  pub sort_by-perm : (xs : List A) → Perm (sort_by xs) xs
  unfolding sort_by
  sort_by-perm [] = Perm.refl []
  sort_by-perm (x ∷ xs) =
      Perm.trans (insert_sorted-perm x (sort_by xs)) (Perm.cons x (sort_by-perm xs))

  -- The same in the other direction: the greatest key first, equal keys in their order.
  unfoldable pub insert_desc : A → List A → List A
  insert_desc x [] = x ∷ []
  insert_desc x (y ∷ ys) = if leb (key y) (key x) then x ∷ y ∷ ys else y ∷ insert_desc x ys

  unfoldable pub sort_desc : List A → List A
  unfolding insert_desc
  sort_desc [] = []
  sort_desc (x ∷ xs) = insert_desc x (sort_desc xs)

  abbrev pub Descending : List A → Type 0
  Descending [] = Unit
  Descending (x ∷ xs) = All (λ y. key y ≤ key x) xs × Descending xs

  All-insert_desc :
      (n : ℕ) (x : A) (ys : List A)
      → key x ≤ n
      → All (λ y. key y ≤ n) ys
      → All (λ y. key y ≤ n) (insert_desc x ys)
  unfolding insert_desc
  All-insert_desc n x [] h all = (h, tt)
  All-insert_desc n x (y ∷ ys) h all = elim (Bool-cases (leb (key y) (key x))) [
    | inl ge ↦ rw ge (h, all)
    | inr lt ↦ rw lt (all.0, All-insert_desc n x ys h all.1)
  ]

  All_anti : (n m : ℕ) (ys : List A) → n ≤ m → All (λ y. key y ≤ n) ys → All (λ y. key y ≤ m) ys
  All_anti n m [] h all = tt
  All_anti n m (y ∷ ys) h all = (omega arith, All_anti n m ys h all.1)

  insert_desc-Descending : (x : A) (ys : List A) → Descending ys → Descending (insert_desc x ys)
  unfolding insert_desc
  insert_desc-Descending x [] h = (tt, tt)
  insert_desc-Descending x (y ∷ ys) h = elim (Bool-cases (leb (key y) (key x))) [
    | inl ge ↦ rw ge ((ground arith, All_anti (key y) (key x) ys (ground arith) h.0), h)
    | inr lt ↦
        rw lt (All-insert_desc (key y) x ys (ground arith) h.0, insert_desc-Descending x ys h.1)
  ]

  pub sort_desc-Descending : (xs : List A) → Descending (sort_desc xs)
  unfolding sort_desc
  sort_desc-Descending [] = tt
  sort_desc-Descending (x ∷ xs) = insert_desc-Descending x (sort_desc xs) (sort_desc-Descending xs)
