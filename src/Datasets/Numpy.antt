-- ===== src/Datasets/Numpy.antt =====
-- What the program relies on of numpy's sorting and searching, which are not part of it.
pub mod Gather
pub mod Insertion
use zord.Base.{
  ℕ, zero, suc, ◌≤◌, ◌<◌, ◌≡◌, List, [], ◌∷◌, Option, none, some, length, get_elem?, All, arith,
}
use zord.Base.Ranges.{range_up}
use zord.Base.Rows.{take, drop}
use mathlib.Core.List.{Permᴰ}

abbrev pub Sorted : List ℕ → Type 0
Sorted [] = Unit
Sorted (x ∷ xs) = All (λ y. x ≤ y) xs × Sorted xs

pub All-from : (a b : ℕ) (t : List ℕ) → a ≤ b → All (λ y. b ≤ y) t → All (λ y. a ≤ y) t
All-from a b [] le h = tt
All-from a b (x ∷ t) le h = (omega (arith, h.0), All-from a b t le h.1)

-- `xs[order]`; an index out of range is an error.
unfoldable pub gather {ℓ} : {A : Type ℓ} → List A → List ℕ → Option (List A)
gather xs [] = some []
gather xs (i ∷ order) =
    let rest = gather xs order in
    elim (get_elem? xs i) [
      | none ↦ none
      | some x ↦ elim rest [ none ↦ none | some ys ↦ some (x ∷ ys) ]
    ]

-- `argsort(t)` is an order of the indices under which `t` is sorted; `searchsorted(t, v, "left")`
-- separates, in a sorted `t`, what is below `v` from the rest.
pub record Numpy : Type 0 where
  pub argsort : List ℕ → List ℕ
  pub argsort_perm : (t : List ℕ) → Permᴰ (range_up 0 (length t)) (argsort t)
  pub argsort_sorts : (t s : List ℕ) → gather t (argsort t) ≡ some s → Sorted s
  pub searchsorted : List ℕ → ℕ → ℕ
  pub searchsorted_length : (t : List ℕ) (v : ℕ) → searchsorted t v ≤ length t
  pub searchsorted_below :
      (t : List ℕ) (v : ℕ) → Sorted t → All (λ x. x < v) (take (searchsorted t v) t)
  pub searchsorted_rest :
      (t : List ℕ) (v : ℕ) → Sorted t → All (λ x. v ≤ x) (drop (searchsorted t v) t)
