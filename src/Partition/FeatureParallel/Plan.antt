-- ===== src/Partition/FeatureParallel/Plan.antt =====
-- src/zord/partition/feature_parallel.py: the plan of the column split and the plans of the grids. A
-- bandwidth is a number of bytes per second, and a time in milliseconds an exact quotient. The arrays of a
-- plan are the list of what it says of each device, of whose resident bytes only the comparison with the
-- memory is kept; the names of the plans are left out. `none` is a
-- cluster without devices.
pub mod Columns
pub mod Grids
use zord.Base.{
  ℕ, zero, suc, ◌+◌, ◌-◌, ◌*◌, ◌/◌, ◌%◌, Bool, true, false, ◌&&◌, ◌||◌, Option, none, some, List,
  [], ◌∷◌, ◌==◌, if◌then◌else◌, leb, length, get_elem?, max, map,
}
use zord.Base.Options.{◌>>=◌}
use zord.Base.Ranges.{range_up}
use zord.Base.Ratios.{Ratio, plus, less, bottleneck_of}
use zord.Datasets.Numpy.{Numpy}
use zord.Partition.FeatureParallel.Split.{Rounding, columns_by_weight}
use zord.Partition.AttrCost.{
  DeviceProfile, rate, feature_row_bytes, bytes_per_edge_traversal, bytes_per_edge_resident,
}

abbrev pub n_gathers : ℕ
n_gathers = 2

pub data Bound : Type 0 where
  infeasible comm compute : Bound

-- What a plan says of a device.
pub record DeviceCost : Type 0 where
  pub cols : ℕ
  pub compute_ms : Ratio
  pub comm_ms : Ratio
  pub feat_bytes : ℕ
  pub fits : Bool

-- `compute_ms + integ_ms`
abbrev pub epoch_ms : DeviceCost → Ratio
epoch_ms c = plus c.compute_ms c.comm_ms

unfoldable pub all_fit : List DeviceCost → Bool
all_fit [] = true
all_fit (c ∷ cs) = c.fits && all_fit cs

-- What the makespan is bound by, on the device that sets it.
unfoldable pub bound_of : Bool → DeviceCost → Bound
bound_of feasible c =
    if feasible then (if less c.compute_ms c.comm_ms then comm else compute) else infeasible

-- The graph and the link of a plan.
pub record Setting : Type 0 where
  pub num_nodes : ℕ
  pub num_edges : ℕ
  pub link : ℕ
  pub boundary_frac : Ratio

pub record FeatureParallelPlan : Type 0 where
  pub costs : List DeviceCost
  pub makespan_ms : Ratio
  pub bottleneck : ℕ
  pub feasible : Bool
  pub integration_ms : Ratio
  pub bound : Bound

-- `_cost`, for one device.
unfoldable pub cost_of : Setting → DeviceProfile → ℕ → DeviceCost
cost_of s dev cols = record {
  cols = cols;
  compute_ms = record {
    num = 2 * s.num_edges * bytes_per_edge_traversal * n_gathers * cols * 1000;
    den = dev.hbm_bw;
  };
  comm_ms = record {
    num = s.boundary_frac.num * s.num_nodes * cols * feature_row_bytes * n_gathers * 1000;
    den = s.boundary_frac.den * rate s.link;
  };
  feat_bytes = cols * s.num_nodes * 4;
  fits = leb (cols * s.num_nodes * 4 + s.num_edges * bytes_per_edge_resident) dev.usable_mem;
}

unfoldable pub costs_of : Setting → List DeviceProfile → List ℕ → List DeviceCost
unfolding cost_of
costs_of s (dev ∷ devs) (c ∷ cols) = cost_of s dev c ∷ costs_of s devs cols
costs_of s _ _ = []

-- `split`; any text but the first two is "auto".
pub data Split : Type 0 where
  bandwidth capacity auto : Split

unfoldable pub chosen : Split → Setting → List DeviceProfile → List ℕ → List ℕ → List ℕ
unfolding costs_of all_fit
chosen bandwidth s devs cols_bw cols_cap = cols_bw
chosen capacity s devs cols_bw cols_cap = cols_cap
chosen auto s devs cols_bw cols_cap =
    if all_fit (costs_of s devs cols_bw) then cols_bw else cols_cap

-- The plan of the costs of the devices, given those of the slowest.
unfoldable pub plan_with : List DeviceCost → DeviceCost → FeatureParallelPlan
unfolding all_fit bound_of
plan_with costs worst = record {
  costs = costs;
  makespan_ms = epoch_ms worst;
  bottleneck = bottleneck_of (map epoch_ms costs);
  feasible = all_fit costs;
  integration_ms = worst.comm_ms;
  bound = bound_of (all_fit costs) worst;
}

unfoldable pub plan_of : List DeviceCost → Option FeatureParallelPlan
unfolding plan_with
plan_of costs = do
  worst ← get_elem? costs (bottleneck_of (map epoch_ms costs))
  some (plan_with costs worst)

unfoldable pub feature_parallel_plan :
    Numpy → Rounding → Setting → List DeviceProfile → ℕ → Split → Option FeatureParallelPlan
unfolding columns_by_weight chosen costs_of plan_of
feature_parallel_plan np fl s devs f split = do
  cols_bw ← columns_by_weight np fl f (map (λ dev. dev.hbm_bw) devs)
  cols_cap ← columns_by_weight np fl f (map (λ dev. dev.usable_mem) devs)
  plan_of (costs_of s devs (chosen split s devs cols_bw cols_cap))

-- The factorisations of `d`, for the factors `dns`.
unfoldable pub pairs_from : ℕ → List ℕ → List (ℕ × ℕ)
pairs_from d [] = []
pairs_from d (dn ∷ dns) =
    let rest = pairs_from d dns in if d % dn == 0 then (dn, d / dn) ∷ rest else rest

unfoldable pub factor_pairs : ℕ → List (ℕ × ℕ)
unfolding pairs_from
factor_pairs d = pairs_from d (range_up 1 d)

pub record HybridPlan : Type 0 where
  pub dn : ℕ
  pub df : ℕ
  pub costs : List DeviceCost
  pub makespan_ms : Ratio
  pub bottleneck : ℕ
  pub feasible : Bool
  pub bound : Bound

-- What the grid of `dn` by `df` asks of a device.
unfoldable pub grid_cost : Setting → ℕ → ℕ → ℕ → DeviceProfile → DeviceCost
grid_cost s f dn df dev =
    let cols = max 1 (f / df) in
    let rows = max 1 (s.num_nodes / dn) in
    record {
      cols = cols;
      compute_ms = record {
        num = 2 * s.num_edges * bytes_per_edge_traversal * n_gathers * cols * 1000;
        den = dn * dev.hbm_bw;
      };
      comm_ms = record {
        num = s.boundary_frac.num * rows * cols * feature_row_bytes * n_gathers * 1000;
        den = s.boundary_frac.den * rate s.link;
      };
      feat_bytes = rows * cols * 4;
      fits =
          leb (rows * cols * 4 * dn + s.num_edges * bytes_per_edge_resident) (dev.usable_mem * dn);
    }

-- The plan of a grid, given the cost of the slowest device.
unfoldable pub grid_with : ℕ → ℕ → List DeviceCost → DeviceCost → HybridPlan
unfolding all_fit bound_of
grid_with dn df costs worst = record {
  dn = dn;
  df = df;
  costs = costs;
  makespan_ms = epoch_ms worst;
  bottleneck = bottleneck_of (map epoch_ms costs);
  feasible = all_fit costs;
  bound = bound_of (all_fit costs) worst;
}

unfoldable pub grid_plan : ℕ → ℕ → List DeviceCost → Option HybridPlan
unfolding grid_with
grid_plan dn df costs = do
  worst ← get_elem? costs (bottleneck_of (map epoch_ms costs))
  some (grid_with dn df costs worst)

-- The loop over the factorisations, without those of one row or one column.
unfoldable pub grids_from :
    Setting → List DeviceProfile → ℕ → List (ℕ × ℕ) → Option (List HybridPlan)
unfolding grid_cost grid_plan
grids_from s devs f [] = some []
grids_from s devs f ((dn, df) ∷ pairs) =
    let rest = grids_from s devs f pairs in
    let plan = grid_plan dn df (map (grid_cost s f dn df) devs) in
    if (dn == 1) || (df == 1) then rest else (plan >>= (λ p. rest >>= (λ ps. some (p ∷ ps))))

unfoldable pub hybrid_plans : Setting → List DeviceProfile → ℕ → Option (List HybridPlan)
unfolding factor_pairs grids_from
hybrid_plans s devs f = grids_from s devs f (factor_pairs (length devs))
