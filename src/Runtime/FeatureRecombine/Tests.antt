-- ===== src/Runtime/FeatureRecombine/Tests.antt =====
-- Tests and examples of the recombination.
use zord.Base.{ℕ, ◌+◌, ◌*◌, ◌≡◌, refl, List, [], ◌∷◌, some, none, true, false, arith, ◌-◌}
use zord.Base.Options.{◌>>=◌}
use zord.Partition.AttrCost.{integration_cost_ms}
use zord.Partition.FeatureParallel.{Matrix}
use zord.Runtime.FeatureRecombine.{
  Arithmetic, RecombineSpec, reference_llayer, verify_recombine, plan_recombine,
}
use zord.Runtime.FeatureRecombine.Layers.{verify_recombine-same}
use zord.Runtime.FeatureRecombine.Costs.{plan_recombine-integration}

abbrev whole_numbers : Arithmetic ℕ
whole_numbers = record {
  plus = λ a b. a + b;
  times = λ a b. a * b;
  nought = 0;
  plus_assoc = λ a b c. omega arith;
  nought_left = λ a. omega arith;
  nought_right = λ a. omega arith;
}

abbrev src : List ℕ
src = 0 ∷ 1 ∷ []

abbrev dst : List ℕ
dst = 1 ∷ 2 ∷ []

abbrev features : Matrix ℕ
features = record { cols = 3; rows = (1 ∷ 2 ∷ 3 ∷ []) ∷ (4 ∷ 5 ∷ 6 ∷ []) ∷ (7 ∷ 8 ∷ 9 ∷ []) ∷ [] }

abbrev weights : Matrix ℕ
weights = record { cols = 3; rows = (1 ∷ 0 ∷ 2 ∷ []) ∷ (0 ∷ 1 ∷ 1 ∷ []) ∷ (3 ∷ 0 ∷ 1 ∷ []) ∷ [] }

-- A nonlinearity that is 0 up to some value.
abbrev above : ℕ → ℕ
above n = n - 4

abbrev mixed : Matrix ℕ
mixed = record {
  cols = 3;
  rows = (18 ∷ 1 ∷ 15 ∷ []) ∷ (40 ∷ 6 ∷ 34 ∷ []) ∷ (18 ∷ 1 ∷ 15 ∷ []) ∷ [];
}

mixed_once :
    verify_recombine whole_numbers 1 above src dst (2 ∷ 1 ∷ []) (some weights) features
    ≡ some (mixed, mixed)
unfolding verify_recombine
mixed_once = refl

-- Splits that do not make up the columns fail the assertion.
uncovered : verify_recombine whole_numbers 1 above src dst (2 ∷ 2 ∷ []) none features ≡ none
unfolding verify_recombine
uncovered = refl

verify_recombine-same_example :
    verify_recombine whole_numbers 2 above src dst (2 ∷ 1 ∷ []) (some weights) features ≡ (
      reference_llayer whole_numbers 2 above src dst (some weights) features
      >>= (λ ref. some (ref, ref)))
verify_recombine-same_example =
    verify_recombine-same whole_numbers above src dst 2 2 (1 ∷ []) (some weights) features refl
      (refl, refl, (refl, (refl, (refl, tt)))) (refl, (refl, (refl, tt)))

plan_recombine-integration_example :
    (bare : RecombineSpec) × (full : RecombineSpec) × (plan_recombine (2 ∷ 1 ∷ []) 3 10 2 16 false
      ≡ some bare)
    × (plan_recombine (2 ∷ 1 ∷ []) 3 10 2 16 true ≡ some full)
    × (bare.recombine_ms ≡ integration_cost_ms 10 3 16 2 false)
    × (full.recombine_ms.num * 2 ≡ (integration_cost_ms 10 3 16 2 true).num * 3)
    × (full.recombine_ms.den ≡ (integration_cost_ms 10 3 16 2 true).den)
plan_recombine-integration_example =
    plan_recombine-integration (2 ∷ 1 ∷ []) 3 10 2 16 refl (omega arith)
