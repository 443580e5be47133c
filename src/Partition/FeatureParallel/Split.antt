-- ===== src/Partition/FeatureParallel/Split.antt =====
-- src/zord/partition/feature_parallel.py: the split of the columns by weight. The weights are natural
-- numbers; how the product of a share and the columns is rounded is a parameter; `none` is a remainder
-- by zero.
pub mod Shares
use zord.Base.{
  ℕ, zero, suc, ◌+◌, ◌-◌, ◌*◌, ◌%◌, ◌≤◌, ◌<◌, Option, none, some, List, [], ◌∷◌, ◌==◌,
  if◌then◌else◌, length, sum, get_elem?, max, map,
}
use zord.Base.Options.{◌>>=◌}
use zord.Datasets.Numpy.{Numpy}
use zord.Partition.Hetero.{update}
use zord.Partition.FeatureParallel.{repeat}

abbrev pub greatest : List ℕ → ℕ
greatest [] = 0
greatest (w ∷ ws) = max w (greatest ws)

-- `-weight`, as its distance from the greatest one.
abbrev pub negated : List ℕ → List ℕ
negated ws = map (λ w. greatest ws - w) ws

-- What is relied on of the floats. `floor_product w s f` is `floor(w / s * F)`, where the quotient and the
-- product are each rounded, so that it can be one less than the exact value. The floors of shares of a
-- whole are at most the whole: rounding adds much less than one column to their sum.
pub record Rounding : Type 0 where
  pub floor_product : ℕ → ℕ → ℕ → ℕ
  pub floor_product_sum :
      (s f : ℕ) (ws : List ℕ) → 0 < s → sum ws ≤ s → sum (map (λ w. floor_product w s f) ws) ≤ f

-- `floor(share * F)`: an even share where the weights are all zero.
abbrev pub floors : Rounding → ℕ → List ℕ → List ℕ
floors fl f ws =
    map
      (λ w. if sum ws == 0 then fl.floor_product 1 (length ws) f else fl.floor_product w (sum ws) f)
      ws

-- `order[i % D]`
unfoldable pub turn : List ℕ → ℕ → ℕ → Option ℕ
turn order i zero = none
turn order i (suc d) = get_elem? order (i % suc d)

-- The columns that are left, one by one from the round `i` on.
unfoldable pub spread : ℕ → ℕ → List ℕ → List ℕ → Option (List ℕ)
unfolding turn update
spread i zero order cols = some cols
spread i (suc rem) order cols = do
  k ← turn order i (length cols)
  spread (i + 1) rem order (update k (λ c. c + 1) cols)

unfoldable pub columns_by_weight : Numpy → Rounding → ℕ → List ℕ → Option (List ℕ)
unfolding repeat spread
columns_by_weight np fl zero weight = some (repeat (length weight) 0)
columns_by_weight np fl (suc f) weight =
    let cols = floors fl (suc f) weight in
    spread 0 (suc f - sum cols) (np.argsort (negated weight)) cols
