-- ===== src/Prelude/Sort.antt =====
-- Python's stable `list.sort(key=...)`, with the order of the keys as a Boolean test, and the
-- `sum` of a list.
use Prim.Native.Nat.{suc}
use mathlib.Core.Path.{◌≡◌, refl, ap, ◌∙◌}
use mathlib.Core.Logic.{inl, inr}
use mathlib.Core.Bool.{Bool, true, false}
use mathlib.Core.List.{List, [], ◌∷◌}
use native.Mathlib.Omega.{arith}
use solo_rt.Prelude.Tests.{if◌then◌else◌, Bool-cases}
use solo_rt.Prelude.Lists.{length}

-- A predicate of every element, by recursion, so that it computes to a tuple.
abbrev pub All {ℓ κ} : {A : Type ℓ} → (A → Type κ) → List A → Type κ
All P [] = Unit
All P (x ∷ xs) = P x × All P xs

-- Some element satisfies the predicate, with the place kept.
pub data Has {ℓ κ} {A : Type ℓ} (P : A → Type κ) : List A → Type (ℓ ⊔ κ) where
  here : {x : A} {xs : List A} → P x → Has P (x ∷ xs)
  there : {x : A} {xs : List A} → Has P xs → Has P (x ∷ xs)

pub All-Has {ℓ κ} :
    {A : Type ℓ} {P Q : A → Type κ} (xs : List A) → All P xs → Has Q xs → (x : A) × P x × Q x
All-Has [] h m = elim m [ ]
All-Has (x ∷ xs) h (here q) = (x, h.0, q)
All-Has (x ∷ xs) h (there m) = All-Has xs h.1 m

module _ {ℓ} {A : Type ℓ} (before : A → A → Bool) where
  -- Goes in front of the first element that it does not come after.
  unfoldable pub insert_sorted : A → List A → List A
  insert_sorted x [] = x ∷ []
  insert_sorted x (y ∷ ys) = if before x y then x ∷ y ∷ ys else y ∷ insert_sorted x ys

  unfoldable pub sort_by : List A → List A
  unfolding insert_sorted
  sort_by [] = []
  sort_by (x ∷ xs) = insert_sorted x (sort_by xs)

  length-insert_sorted : (x : A) (xs : List A) → length (insert_sorted x xs) ≡ suc (length xs)
  unfolding insert_sorted
  length-insert_sorted x [] = refl
  length-insert_sorted x (y ∷ ys) = ground (arith, length-insert_sorted x ys)

  pub length-sort_by : (xs : List A) → length (sort_by xs) ≡ length xs
  unfolding sort_by
  length-sort_by [] = refl
  length-sort_by (x ∷ xs) = length-insert_sorted x (sort_by xs) ∙ ap suc (length-sort_by xs)

module _ {ℓ κ} {A : Type ℓ} (before : A → A → Bool) (P : A → Type κ) where
  All-insert_sorted : (x : A) (xs : List A) → P x → All P xs → All P (insert_sorted before x xs)
  unfolding insert_sorted
  All-insert_sorted x [] p h = (p, tt)
  All-insert_sorted x (y ∷ ys) p h = elim (Bool-cases (before x y)) [
    | inl b ↦ rw b (p, (h.0, h.1))
    | inr b ↦ rw b (h.0, All-insert_sorted x ys p h.1)
  ]

  pub All-sort_by : (xs : List A) → All P xs → All P (sort_by before xs)
  unfolding sort_by
  All-sort_by [] h = tt
  All-sort_by (x ∷ xs) h = All-insert_sorted x (sort_by before xs) h.0 (All-sort_by xs h.1)

  insert_sorted-All : (x : A) (xs : List A) → All P (insert_sorted before x xs) → P x × All P xs
  unfolding insert_sorted
  insert_sorted-All x [] h = (h.0, tt)
  insert_sorted-All x (y ∷ ys) h = elim (Bool-cases (before x y)) [
    | inl b ↦ let k = rw b at h in (k.0, k.1)
    | inr b ↦ let k = rw b at h in let (p, rest) = insert_sorted-All x ys k.1 in (p, (k.0, rest))
  ]

  pub sort_by-All : (xs : List A) → All P (sort_by before xs) → All P xs
  unfolding sort_by
  sort_by-All [] h = tt
  sort_by-All (x ∷ xs) h =
      let (p, rest) = insert_sorted-All x (sort_by before xs) h in (p, sort_by-All xs rest)

  Has-insert_sorted-head : (x : A) (xs : List A) → P x → Has P (insert_sorted before x xs)
  unfolding insert_sorted
  Has-insert_sorted-head x [] p = here p
  Has-insert_sorted-head x (y ∷ ys) p = elim (Bool-cases (before x y)) [
    | inl b ↦ rw b (here p)
    | inr b ↦ rw b (there (Has-insert_sorted-head x ys p))
  ]

  Has-insert_sorted : (x : A) (xs : List A) → Has P xs → Has P (insert_sorted before x xs)
  unfolding insert_sorted
  Has-insert_sorted x [] m = elim m [ ]
  Has-insert_sorted x (y ∷ ys) m = elim (Bool-cases (before x y)) [
    | inl b ↦ rw b (there m)
    | inr b ↦ rw b (elim m [ here p ↦ here p | there m' ↦ there (Has-insert_sorted x ys m') ])
  ]

  pub Has-sort_by : (xs : List A) → Has P xs → Has P (sort_by before xs)
  unfolding sort_by
  Has-sort_by [] m = elim m [ ]
  Has-sort_by (x ∷ xs) (here p) = Has-insert_sorted-head x (sort_by before xs) p
  Has-sort_by (x ∷ xs) (there m) = Has-insert_sorted x (sort_by before xs) (Has-sort_by xs m)

-- With a test that is total and transitive, the first element comes before every other.
module _ {ℓ} {A : Type ℓ} (before : A → A → Bool)
    (total : (x y : A) → before x y ≡ false → before y x ≡ true)
    (trans : (x y z : A) → before x y ≡ true → before y z ≡ true → before x z ≡ true) where
  abbrev pub IsSortedBy : List A → Type ℓ
  IsSortedBy [] = Unit
  IsSortedBy (x ∷ xs) = All (λ y. before x y ≡ true) xs × IsSortedBy xs

  All-before :
      (x y : A) (ys : List A)
      → before x y ≡ true
      → All (λ z. before y z ≡ true) ys
      → All (λ z. before x z ≡ true) ys
  All-before x y [] e h = tt
  All-before x y (z ∷ ys) e h = (trans x y z e h.0, All-before x y ys e h.1)

  insert_sorted-IsSortedBy :
      (x : A) (xs : List A) → IsSortedBy xs → IsSortedBy (insert_sorted before x xs)
  unfolding insert_sorted
  insert_sorted-IsSortedBy x [] h = (tt, tt)
  insert_sorted-IsSortedBy x (y ∷ ys) h = elim (Bool-cases (before x y)) [
    | inl b ↦ rw b ((b, All-before x y ys b h.0), (h.0, h.1))
    | inr b ↦ rw b (
      All-insert_sorted before (λ z. before y z ≡ true) x ys (total x y b) h.0,
      insert_sorted-IsSortedBy x ys h.1,
    )
  ]

  pub sort_by-IsSortedBy : (xs : List A) → IsSortedBy (sort_by before xs)
  unfolding sort_by
  sort_by-IsSortedBy [] = tt
  sort_by-IsSortedBy (x ∷ xs) =
      insert_sorted-IsSortedBy x (sort_by before xs) (sort_by-IsSortedBy xs)
