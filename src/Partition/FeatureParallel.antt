-- ===== src/Partition/FeatureParallel.antt =====
-- src/zord/partition/feature_parallel.py: `fp_aggregate_consistency`, for any addition of numbers. The
-- largest difference of the two results is left out; `none` is an index error, a failed assertion or
-- the concatenation of no columns; the two columns of edges are of the same length.
pub mod Recombined
pub mod Split
pub mod Plan
pub mod Tests
use zord.Base.{
  ℕ, zero, suc, ◌+◌, ◌-◌, ◌==◌, Option, none, some, List, [], ◌∷◌, ◌++◌, map, if◌then◌else◌, length,
  get_elem?, min, not, sum,
}
use zord.Base.Options.{◌>>=◌}
use zord.Base.Rows.{slice}

-- The number of columns and the rows.
pub record Matrix {ℓ} (A : Type ℓ) : Type ℓ where
  pub cols : ℕ
  pub rows : List (List A)

unfoldable pub repeat {ℓ} : {A : Type ℓ} → ℕ → A → List A
repeat zero x = []
repeat (suc n) x = x ∷ repeat n x

unfoldable pub add_row {ℓ} : {A : Type ℓ} → (A → A → A) → List A → List A → List A
add_row plus (x ∷ xs) (y ∷ ys) = plus x y ∷ add_row plus xs ys
add_row plus _ _ = []

unfoldable pub add_to {ℓ} :
    {A : Type ℓ} → (A → A → A) → List (List A) → ℕ → List A → Option (List (List A))
unfolding add_row
add_to plus [] i row = none
add_to plus (r ∷ h) zero row = some (add_row plus r row ∷ h)
add_to plus (r ∷ h) (suc i) row = do rest ← add_to plus h i row; some (r ∷ rest)

-- `np.add.at(h, to, x[from])`
unfoldable pub add_at {ℓ} :
    {A : Type ℓ}
    → (A → A → A)
    → List (List A)
    → List ℕ
    → List ℕ
    → List (List A)
    → Option (List (List A))
unfolding add_to
add_at plus h (t ∷ to) (f ∷ from) x = do
  row ← get_elem? x f
  added ← add_to plus h t row
  add_at plus added to from x
add_at plus h _ _ x = some h

-- `_agg`: the sum over the neighbours, along both directions.
unfoldable pub aggregate {ℓ} :
    {A : Type ℓ} → (A → A → A) → A → ℕ → List ℕ → List ℕ → Matrix A → Option (List (List A))
unfolding add_at repeat
aggregate plus z n src dst x = do
  h ← add_at plus (repeat n (repeat x.cols z)) dst src x.rows
  add_at plus h src dst x.rows

-- `X[:, c0:c1]`
unfoldable pub columns {ℓ} : {A : Type ℓ} → ℕ → ℕ → Matrix A → Matrix A
columns c0 c1 x = record { cols = min c1 x.cols - min c0 x.cols; rows = map (slice c0 c1) x.rows }

unfoldable pub parts {ℓ} :
    {A : Type ℓ}
    → (A → A → A)
    → A
    → ℕ
    → List ℕ
    → List ℕ
    → Matrix A
    → ℕ
    → List ℕ
    → Option (List (List (List A)))
unfolding aggregate columns
parts plus z n src dst x c0 [] = some []
parts plus z n src dst x c0 (w ∷ splits) = do
  part ← aggregate plus z n src dst (columns c0 (c0 + w) x)
  rest ← parts plus z n src dst x (c0 + w) splits
  some (part ∷ rest)

unfoldable pub beside {ℓ} : {A : Type ℓ} → List (List A) → List (List A) → List (List A)
beside (r ∷ rs) (s ∷ ss) = (r ++ s) ∷ beside rs ss
beside _ _ = []

-- `np.concatenate(parts, axis=1)` of matrices with as many rows.
unfoldable pub concatenate {ℓ} : {A : Type ℓ} → List (List (List A)) → Option (List (List A))
unfolding beside
concatenate [] = none
concatenate (m ∷ []) = some m
concatenate (m ∷ n ∷ ms) = do rest ← concatenate (n ∷ ms); some (beside m rest)

-- The result on a single device, and the result of the column slices.
unfoldable pub fp_aggregate_consistency {ℓ} :
    {A : Type ℓ}
    → (A → A → A)
    → A
    → List ℕ
    → List ℕ
    → Matrix A
    → List ℕ
    → Option (List (List A) × List (List A))
unfolding aggregate parts concatenate
fp_aggregate_consistency plus z src dst x splits = if not (sum splits == x.cols) then none else do
  h_single ← aggregate plus z (length x.rows) src dst x
  slices ← parts plus z (length x.rows) src dst x 0 splits
  h_fp ← concatenate slices
  some (h_single, h_fp)
