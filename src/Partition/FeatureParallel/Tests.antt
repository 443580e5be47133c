-- ===== src/Partition/FeatureParallel/Tests.antt =====
-- Tests and examples of the column slices.
use zord.Base.Ranges.{range_up}
use zord.Base.Ratios.{AtMost}
use zord.Datasets.Numpy.Insertion.{insertion, argsort}
use zord.Partition.AttrCost.{DeviceProfile}
use zord.Partition.FeatureParallel.Split.{Rounding, columns_by_weight, floors}
use zord.Partition.FeatureParallel.Split.Shares.{
  exactly, exactly-sum, Covers, columns_by_weight-shares,
}
use zord.Partition.FeatureParallel.Plan.{
  Setting, Split, FeatureParallelPlan, HybridPlan, epoch_ms, all_fit, feature_parallel_plan,
  factor_pairs, hybrid_plans,
}
use zord.Partition.FeatureParallel.Plan.Columns.{
  feature_parallel_plan-columns, feature_parallel_plan-auto,
}
use zord.Partition.FeatureParallel.Plan.Grids.{factors, hybrid_plans-grids}
use mathlib.Core.List.{Memᴰ}
use zord.Base.{
  ℕ, ◌+◌, ◌≡◌, refl, List, [], ◌∷◌, some, ◌*◌, ◌≢◌, ◌↔◌, ◌⊎◌, true, map, sum, length, get_elem?,
  All, arith,
}
use zord.Base.Options.{◌>>=◌}
use zord.Partition.FeatureParallel.{Matrix, aggregate, fp_aggregate_consistency}
use zord.Partition.FeatureParallel.Recombined.{fp_aggregate_consistency-same}

abbrev src : List ℕ
src = 0 ∷ 1 ∷ []

abbrev dst : List ℕ
dst = 1 ∷ 2 ∷ []

abbrev features : Matrix ℕ
features = record { cols = 3; rows = (1 ∷ 2 ∷ 3 ∷ []) ∷ (4 ∷ 5 ∷ 6 ∷ []) ∷ (7 ∷ 8 ∷ 9 ∷ []) ∷ [] }

abbrev summed : List (List ℕ)
summed = (4 ∷ 5 ∷ 6 ∷ []) ∷ (8 ∷ 10 ∷ 12 ∷ []) ∷ (4 ∷ 5 ∷ 6 ∷ []) ∷ []

summed_twice :
    fp_aggregate_consistency (λ a b. a + b) 0 src dst features (2 ∷ 1 ∷ []) ≡ some (summed, summed)
unfolding fp_aggregate_consistency
summed_twice = refl

fp_aggregate_consistency-same_example :
    fp_aggregate_consistency (λ a b. a + b) 0 src dst features (2 ∷ 1 ∷ [])
    ≡ (aggregate (λ a b. a + b) 0 3 src dst features >>= (λ h. some (h, h)))
fp_aggregate_consistency-same_example =
    fp_aggregate_consistency-same (λ a b. a + b) 0 src dst features 2 (1 ∷ [])
      (refl, (refl, (refl, tt))) refl

-- Floors that are not rounded.
abbrev exact : Rounding
exact = record { floor_product = exactly; floor_product_sum = exactly-sum }

-- The remainder goes to the heavier weight.
shared_out : columns_by_weight insertion exact 7 (1 ∷ 2 ∷ []) ≡ some (2 ∷ 5 ∷ [])
unfolding columns_by_weight argsort
shared_out = refl

pairs_of_six : factor_pairs 6 ≡ (1, 6) ∷ (2, 3) ∷ (3, 2) ∷ (6, 1) ∷ []
unfolding factor_pairs range_up
pairs_of_six = refl

columns_by_weight-shares_example :
    (cols : List ℕ) × (columns_by_weight insertion exact 7 (1 ∷ 2 ∷ []) ≡ some cols)
    × (length cols ≡ 2)
    × (sum cols ≡ 7)
    × Covers (floors exact 7 (1 ∷ 2 ∷ [])) cols
columns_by_weight-shares_example = columns_by_weight-shares insertion exact 7 1 (2 ∷ [])

abbrev ring : Setting
ring = record {
  num_nodes = 4;
  num_edges = 8;
  link = 10;
  boundary_frac = record { num = 1; den = 1 };
}

abbrev slow : DeviceProfile
slow = record { hbm_bw = 100; usable_mem = 1000 }

abbrev fast : DeviceProfile
fast = record { hbm_bw = 300; usable_mem = 4000 }

feature_parallel_plan-columns_example :
    (plan : FeatureParallelPlan) × (feature_parallel_plan insertion exact ring
        (slow ∷ fast ∷ [])
        16
        Split.capacity
      ≡ some plan)
    × (length plan.costs ≡ 2)
    × (sum (map (λ c. c.cols) plan.costs) ≡ 16)
    × (sum (map (λ c. c.feat_bytes) plan.costs) ≡ 16 * 4 * 4)
    × (get_elem? (map epoch_ms plan.costs) plan.bottleneck ≡ some plan.makespan_ms)
    × All (λ c. AtMost (epoch_ms c) plan.makespan_ms) plan.costs
    × (plan.feasible ≡ all_fit plan.costs)
feature_parallel_plan-columns_example =
    feature_parallel_plan-columns insertion exact ring slow (fast ∷ []) 16 Split.capacity
      (omega arith) (omega arith, (omega arith, tt))

feature_parallel_plan-auto_example :
    (p : FeatureParallelPlan) × (q : FeatureParallelPlan) × (r : FeatureParallelPlan)
    × (feature_parallel_plan insertion exact ring (slow ∷ fast ∷ []) 16 Split.bandwidth ≡ some p)
    × (feature_parallel_plan insertion exact ring (slow ∷ fast ∷ []) 16 Split.capacity ≡ some q)
    × (feature_parallel_plan insertion exact ring (slow ∷ fast ∷ []) 16 Split.auto ≡ some r)
    × ((r.feasible ≡ true) ↔ ((p.feasible ≡ true) ⊎ (q.feasible ≡ true)))
    × (p.feasible ≡ true → r ≡ p)
feature_parallel_plan-auto_example =
    feature_parallel_plan-auto insertion exact ring slow (fast ∷ []) 16 (omega arith)
      (omega arith, (omega arith, tt))

hybrid_plans-grids_example :
    (plans : List HybridPlan) × (hybrid_plans ring (slow ∷ fast ∷ slow ∷ fast ∷ []) 16 ≡ some plans)
    × ((dn df : ℕ) → Memᴰ (dn, df) (map factors plans) ↔ ((dn * df ≡ 4) × (dn ≢ 1) × (df ≢ 1)))
hybrid_plans-grids_example = hybrid_plans-grids ring slow (fast ∷ slow ∷ fast ∷ []) 16
