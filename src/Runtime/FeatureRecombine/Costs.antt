-- ===== src/Runtime/FeatureRecombine/Costs.antt =====
-- src/zord/runtime/feature_recombine.py: the cost of the recombination next to the closed form of
-- src/zord/partition/attr_cost.py.
use zord.Base.{
  ℕ, ◌+◌, ◌*◌, ◌≤◌, ◌≡◌, refl, ap, ◌∙◌, List, sum, some, true, false, ◌==◌, ==_refl, arith, max,
}
use zord.Partition.AttrCost.{rate, feature_row_bytes, integration_cost_ms}
use zord.Runtime.FeatureRecombine.{RecombineSpec, plan_recombine}

bare_words : (n f l b : ℕ) → (n * f + 0) * b * l * 1000 ≡ l * n * f * b * 1000
bare_words n f l b = grind arith

full_words :
    (n f l b : ℕ) → (n * f + 2 * (n * f)) * b * l * 1000 * 2 ≡ 2 * (l * n * f * b * 1000) * 3
full_words n f l b = grind arith

-- For columns that the devices share out and one layer or more: without the mixing of the weights the plan
-- has the time of `integration_cost_ms`, and with it half as much again as `integration_cost_ms` has,
-- since the sum of the products is charged twice by the plan and once by the closed form.
pub plan_recombine-integration :
    (cols : List ℕ) (f n layers link : ℕ)
    → sum cols ≡ f
    → 1 ≤ layers
    → (bare : RecombineSpec) × (full : RecombineSpec) × (plan_recombine cols f n layers link false
        ≡ some bare)
      × (plan_recombine cols f n layers link true ≡ some full)
      × (bare.recombine_ms ≡ integration_cost_ms n f link layers false)
      × (full.recombine_ms.num * 2 ≡ (integration_cost_ms n f link layers true).num * 3)
      × (full.recombine_ms.den ≡ (integration_cost_ms n f link layers true).den)
unfolding plan_recombine integration_cost_ms
plan_recombine-integration cols f n layers link covered some_layers =
    let counted : (sum cols == f) ≡ true = ap (λ m. m == f) covered ∙ ==_refl f in
    let most : max 1 layers ≡ layers = omega arith in
    rw (counted, most)
      (
        _,
        _,
        refl,
        refl,
        ap (λ m. record { num = m; den = rate link }) (bare_words n f layers feature_row_bytes),
        full_words n f layers feature_row_bytes,
        refl,
      )
