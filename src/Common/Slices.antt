-- ===== src/Common/Slices.antt =====
-- Parts of lists: `take` and `drop` with lookups, appends and one another.
use Prim.Native.Nat.{ℕ, zero, suc, ◌+◌, ◌≤◌, ◌<◌}
use mathlib.Core.Path.{◌≡◌, refl, ap, ◌∙◌}
use mathlib.Core.List.{List, [], ◌∷◌, ◌++◌}
use mathlib.Core.Option.{none, some}
use native.Mathlib.Omega.{arith}
use esk.Common.Lists.{length, take, drop, get_elem?}

pub take-nil {ℓ} : (A : Type ℓ) (n : ℕ) → take {A = A} n [] ≡ []
take-nil A zero = refl
take-nil A (suc n) = refl

pub drop-nil {ℓ} : (A : Type ℓ) (n : ℕ) → drop {A = A} n [] ≡ []
drop-nil A zero = refl
drop-nil A (suc n) = refl

module _ {ℓ} {A : Type ℓ} where
  pub get_elem?-take_lt :
      (n : ℕ) (xs : List A) (i : ℕ) → i < n → get_elem? (take n xs) i ≡ get_elem? xs i
  get_elem?-take_lt zero xs i h = absurd (omega arith)
  get_elem?-take_lt (suc n) [] i h = refl
  get_elem?-take_lt (suc n) (x ∷ xs) zero h = refl
  get_elem?-take_lt (suc n) (x ∷ xs) (suc i) h = get_elem?-take_lt n xs i (omega arith)

  pub get_elem?-take_ge : (n : ℕ) (xs : List A) (i : ℕ) → n ≤ i → get_elem? (take n xs) i ≡ none
  get_elem?-take_ge zero xs i h = refl
  get_elem?-take_ge (suc n) [] i h = refl
  get_elem?-take_ge (suc n) (x ∷ xs) zero h = absurd (omega arith)
  get_elem?-take_ge (suc n) (x ∷ xs) (suc i) h = get_elem?-take_ge n xs i (omega arith)

  pub get_elem?-append :
      (xs ys : List A) (n i : ℕ) → length xs ≡ n → get_elem? (xs ++ ys) (n + i) ≡ get_elem? ys i
  get_elem?-append [] ys zero i h = ap (get_elem? ys) (omega arith)
  get_elem?-append [] ys (suc n) i h = absurd (omega arith)
  get_elem?-append (x ∷ xs) ys zero i h = absurd (omega arith)
  get_elem?-append (x ∷ xs) ys (suc n) i h =
      let shift : suc n + i ≡ suc (n + i) = omega arith in
      ap (get_elem? (x ∷ (xs ++ ys))) shift ∙ get_elem?-append xs ys n i (omega arith)

  pub lt_of_get_elem? : (xs : List A) (i : ℕ) {a : A} → get_elem? xs i ≡ some a → i < length xs
  lt_of_get_elem? [] i h = cc
  lt_of_get_elem? (x ∷ xs) zero h = omega arith
  lt_of_get_elem? (x ∷ xs) (suc i) h = omega (arith, lt_of_get_elem? xs i h)

  pub take_all : (n : ℕ) (xs : List A) → length xs ≤ n → take n xs ≡ xs
  take_all zero [] h = refl
  take_all zero (x ∷ xs) h = absurd (omega arith)
  take_all (suc n) [] h = refl
  take_all (suc n) (x ∷ xs) h = ap (λ t. x ∷ t) (take_all n xs (omega arith))

  pub take-add : (m n : ℕ) (xs : List A) → take (m + n) xs ≡ take m xs ++ take n (drop m xs)
  take-add zero n xs = ap (λ k. take k xs) (omega arith)
  take-add (suc m) n [] = rw (take-nil A (suc m + n), take-nil A n)
  take-add (suc m) n (x ∷ xs) =
      let shift : suc m + n ≡ suc (m + n) = omega arith in
      ap (λ k. take k (x ∷ xs)) shift ∙ ap (λ t. x ∷ t) (take-add m n xs)

  pub drop-drop : (m n : ℕ) (xs : List A) → drop n (drop m xs) ≡ drop (m + n) xs
  drop-drop zero n xs = ap (λ k. drop k xs) (omega arith)
  drop-drop (suc m) n [] = rw (drop-nil A n, drop-nil A (suc m + n))
  drop-drop (suc m) n (x ∷ xs) =
      let shift : suc (m + n) ≡ suc m + n = omega arith in
      drop-drop m n xs ∙ ap (λ k. drop k (x ∷ xs)) shift
