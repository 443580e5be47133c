-- ===== src/Base/Ranges.antt =====
-- The integer ranges of Python and numpy.
use Prim.Native.Nat.{ℕ, zero, suc, ◌+◌, ◌≤◌, ◌<◌}
use mathlib.Core.Path.{◌≡◌, refl, ap}
use mathlib.Core.Logic.{inl, inr}
use mathlib.Core.List.{List, [], ◌∷◌, Memᴰ}
use native.Mathlib.Omega.{arith}
use zord.Base.Tests.{ltb, if◌then◌else◌, Bool-cases, lt→ltb, ◌==◌}
use zord.Base.Lists.{length, All}

-- `range(i, stop, step)`; the fuel bounds the number of items.
unfoldable pub range_step : ℕ → ℕ → ℕ → ℕ → List ℕ
range_step zero i stop step = []
range_step (suc fuel) i stop step =
    let rest = range_step fuel (i + step) stop step in if ltb i stop then i ∷ rest else []

-- `range(i, i + n)`
unfoldable pub range_up : ℕ → ℕ → List ℕ
range_up i zero = []
range_up i (suc n) = i ∷ range_up (i + 1) n

pub range_up-bounds : (i n k : ℕ) → i + n ≤ k → All (λ u. u < k) (range_up i n)
unfolding range_up
range_up-bounds i zero k h = tt
range_up-bounds i (suc n) k h = (omega arith, range_up-bounds (i + 1) n k (omega arith))

pub length-range_up : (i n : ℕ) → length (range_up i n) ≡ n
unfolding range_up
length-range_up i zero = refl
length-range_up i (suc n) = ap suc (length-range_up (i + 1) n)

pub starts-bounds : (fuel i stop step : ℕ) → All (λ u. u < stop) (range_step fuel i stop step)
unfolding range_step
starts-bounds zero i stop step = tt
starts-bounds (suc fuel) i stop step = elim (Bool-cases (ltb i stop)) [
  | inl e ↦ rw e (ground arith, starts-bounds fuel (i + step) stop step)
  | inr n ↦ rw n tt
]

pub range_step-first : (n stop step : ℕ) → 0 < n → 0 < stop → 0 < length (range_step n 0 stop step)
unfolding range_step
range_step-first zero stop step h k = h
range_step-first (suc n) stop step h k = rw (lt→ltb 0 stop k) (omega arith)

pub range_up-Memᴰ : (n i v : ℕ) → i ≤ v → v < i + n → Memᴰ v (range_up i n)
unfolding range_up
range_up-Memᴰ zero i v le lt = absurd (omega arith)
range_up-Memᴰ (suc n) i v le lt = elim (Bool-cases (v == i)) [
  | inl same ↦ Memᴰ.head (ground arith)
  | inr differ ↦ Memᴰ.tail (range_up-Memᴰ n (i + 1) v (ground arith) (omega arith))
]
