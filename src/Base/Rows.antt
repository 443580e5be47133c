-- ===== src/Base/Rows.antt =====
-- Columns, their slices and their rows.
use Prim.Native.Nat.{ℕ, zero, suc, ◌≤◌}
use mathlib.Core.Path.{◌≡◌, refl, ap}
use mathlib.Core.Bool.{Bool}
use mathlib.Core.List.{List, [], ◌∷◌}
use native.Mathlib.Omega.{arith}
use zord.Base.Tests.{if◌then◌else◌}
use zord.Base.Lists.{length, All}

module _ {ℓ} {A : Type ℓ} where
  abbrev pub take : ℕ → List A → List A
  take zero xs = []
  take (suc n) [] = []
  take (suc n) (x ∷ xs) = x ∷ take n xs

  abbrev pub drop : ℕ → List A → List A
  drop zero xs = xs
  drop (suc n) [] = []
  drop (suc n) (x ∷ xs) = drop n xs

  -- `xs[lo:hi]`
  abbrev pub slice : ℕ → ℕ → List A → List A
  slice lo hi xs = drop lo (take hi xs)

  abbrev pub filter : (A → Bool) → List A → List A
  filter p [] = []
  filter p (x ∷ xs) = if p x then x ∷ filter p xs else filter p xs

  pub length-take : (n : ℕ) (xs : List A) → n ≤ length xs → length (take n xs) ≡ n
  length-take zero xs h = refl
  length-take (suc n) [] h = absurd (omega arith)
  length-take (suc n) (x ∷ xs) h = ap suc (length-take n xs (omega arith))

module _ {ℓ κ} {A : Type ℓ} (P : A → Type κ) where
  pub All-take : (n : ℕ) (xs : List A) → All P xs → All P (take n xs)
  All-take zero xs h = tt
  All-take (suc n) [] h = tt
  All-take (suc n) (x ∷ xs) h = (h.0, All-take n xs h.1)

  pub All-drop : (n : ℕ) (xs : List A) → All P xs → All P (drop n xs)
  All-drop zero xs h = h
  All-drop (suc n) [] h = h
  All-drop (suc n) (x ∷ xs) h = All-drop n xs h.1

  pub All-slice : (lo hi : ℕ) (xs : List A) → All P (drop lo xs) → All P (slice lo hi xs)
  All-slice zero zero xs h = tt
  All-slice zero (suc hi) [] h = h
  All-slice zero (suc hi) (x ∷ xs) h = (h.0, All-slice zero hi xs h.1)
  All-slice (suc lo) zero xs h = tt
  All-slice (suc lo) (suc hi) [] h = h
  All-slice (suc lo) (suc hi) (x ∷ xs) h = All-slice lo hi xs h

module _ {ℓ κ} {A : Type ℓ} {B : Type κ} where
  abbrev pub zip : List A → List B → List (A × B)
  zip [] ys = []
  zip (x ∷ xs) [] = []
  zip (x ∷ xs) (y ∷ ys) = (x, y) ∷ zip xs ys

  pub length-zip :
      (xs : List A) (ys : List B) → length ys ≡ length xs → length (zip xs ys) ≡ length xs
  length-zip [] ys h = refl
  length-zip (x ∷ xs) [] h = absurd (omega arith)
  length-zip (x ∷ xs) (y ∷ ys) h = ap suc (length-zip xs ys (omega arith))

  pub zip-take :
      (n : ℕ) (xs : List A) (ys : List B) → zip (take n xs) (take n ys) ≡ take n (zip xs ys)
  zip-take zero xs ys = refl
  zip-take (suc n) [] ys = refl
  zip-take (suc n) (x ∷ xs) [] = refl
  zip-take (suc n) (x ∷ xs) (y ∷ ys) = ap (λ l. (x, y) ∷ l) (zip-take n xs ys)

  zip_nil : (xs : List A) → zip xs [] ≡ []
  zip_nil [] = refl
  zip_nil (x ∷ xs) = refl

  pub zip-drop :
      (n : ℕ) (xs : List A) (ys : List B) → zip (drop n xs) (drop n ys) ≡ drop n (zip xs ys)
  zip-drop zero xs ys = refl
  zip-drop (suc n) [] ys = refl
  zip-drop (suc n) (x ∷ xs) [] = zip_nil (drop n xs)
  zip-drop (suc n) (x ∷ xs) (y ∷ ys) = zip-drop n xs ys

module _ {ℓ κ μ} {A : Type ℓ} {B : Type κ} (P : B → Type μ) where
  pub All-zip : (xs : List A) (ys : List B) → All P ys → All (λ r. P r.1) (zip xs ys)
  All-zip [] ys h = tt
  All-zip (x ∷ xs) [] h = tt
  All-zip (x ∷ xs) (y ∷ ys) h = (h.0, All-zip xs ys h.1)
