-- ===== src/Partition/AttrCost.antt =====
-- src/zord/partition/attr_cost.py: the closed-form costs of the node, feature and hybrid axes and the
-- choice among them. A bandwidth is a number of bytes per second, so the least of 1e-9 GB/s is 1; a cost
-- in milliseconds is an exact quotient, and `none` stands for an infinite one. The rule, a
-- text with the threshold of the relief by columns, is left out.
pub mod Choice
pub mod Quotients
pub mod Cheapest
pub mod Axes
pub mod Tests
use zord.Base.{
  ℕ, ◌+◌, ◌-◌, ◌*◌, ◌/◌, ◌%◌, ◌^◌, Bool, true, false, ◌||◌, Option, none, some, List, [], ◌∷◌, ◌==◌,
  if◌then◌else◌, ltb, leb, length, max, min,
}
use zord.Base.Ranges.{range_up}
use zord.Base.Ratios.{Ratio, whole, plus, less}

pub record DeviceProfile : Type 0 where
  pub hbm_bw : ℕ
  pub usable_mem : ℕ

pub record GraphStats : Type 0 where
  pub num_nodes : ℕ
  pub num_edges : ℕ
  pub avg_degree : Ratio

abbrev pub feature_row_bytes : ℕ
feature_row_bytes = 4

abbrev pub bytes_per_edge_traversal : ℕ
bytes_per_edge_traversal = 4

abbrev pub bytes_per_edge_resident : ℕ
bytes_per_edge_resident = 20

-- `max(bw, 1e-9) * 1e9`
abbrev pub rate : ℕ → ℕ
rate bw = max bw 1

-- `max(deg_avg, 1e-9)`
abbrev pub degree : Ratio → Ratio
degree deg = record { num = max (deg.num * 10 ^ 9) deg.den; den = deg.den * 10 ^ 9 }

-- The compute time of `edges` edges over `cols` columns, split over `d` devices, in milliseconds.
abbrev pub compute_ms : ℕ → ℕ → ℕ → ℕ → ℕ → Ratio
compute_ms layers edges cols d hbm = record {
  num = layers * (2 * edges) * cols * bytes_per_edge_traversal * 1000;
  den = d * rate hbm;
}

unfoldable pub integration_cost_ms : ℕ → ℕ → ℕ → ℕ → Bool → Ratio
integration_cost_ms n f link layers full_layer =
    let aggregation = max 1 layers * n * f * feature_row_bytes * 1000 in
    record { num = if full_layer then 2 * aggregation else aggregation; den = rate link }

unfoldable pub node_parallel_cost_ms : ℕ → ℕ → Ratio → ℕ → ℕ → ℕ → ℕ → Ratio
node_parallel_cost_ms e f deg_avg d hbm link layers =
    let deg = degree deg_avg in
    plus (compute_ms (max 1 layers) e f (max 1 d) hbm) (record {
      num = max 1 layers * (e * deg.den * (max 1 d - 1)) * f * feature_row_bytes * 1000;
      den = deg.num * max 1 d * rate link;
    })

unfoldable pub feature_parallel_cost_ms : ℕ → ℕ → ℕ → ℕ → ℕ → ℕ → ℕ → Ratio
unfolding integration_cost_ms
feature_parallel_cost_ms n e f d hbm link layers =
    plus (compute_ms (max 1 layers) e f (max 1 d) hbm)
      (integration_cost_ms n f link (max 1 layers) false)

-- The slopes differ by more than 1e-12 or are taken as equal.
unfoldable pub crossover_dim : ℕ → Ratio → Option ℕ
crossover_dim d boundary_frac =
    let dev = max 1 d in
    let node_slope = (dev - 1) * boundary_frac.den * 10 ^ 12 in
    let feat_slope = boundary_frac.num * dev * 10 ^ 12 in
    let eps = dev * boundary_frac.den in
    if dev == 1 then none else if ltb (feat_slope + eps) node_slope then some 0 else none

-- The cost of the grid of `dn` by `df` devices.
unfoldable pub grid_ms : ℕ → ℕ → ℕ → ℕ → ℕ → ℕ → ℕ → ℕ → Ratio
grid_ms n e f hbm link layers dn df = plus (compute_ms layers e f (dn * df) hbm) (record {
  num = layers * (n * (dn - 1) + n * dn) * f * feature_row_bytes * 1000;
  den = dn * dn * df * rate link;
})

-- `min(best, c)`
unfoldable pub better : Option Ratio → Ratio → Option Ratio
better none c = some c
better (some b) c = some (if less c b then c else b)

-- A round of the loop over the grids: a grid counts where it splits both ways.
unfoldable pub with_grid : ℕ → (ℕ → ℕ → Ratio) → Option Ratio → ℕ → Option Ratio
unfolding better
with_grid d cost best dn =
    if ltb 0 (d % dn)
    then best
    else if (dn == 1) || (d / dn == 1)
    then best
    else better best (cost dn (d / dn))

-- The loop over the grids, with the best cost so far.
unfoldable pub best_grid : ℕ → (ℕ → ℕ → Ratio) → Option Ratio → List ℕ → Option Ratio
unfolding with_grid
best_grid d cost best [] = best
best_grid d cost best (dn ∷ dns) = best_grid d cost (with_grid d cost best dn) dns

unfoldable pub hybrid_cost_ms : ℕ → ℕ → ℕ → ℕ → ℕ → ℕ → ℕ → Option Ratio
unfolding grid_ms best_grid
hybrid_cost_ms n e f d hbm link layers =
    best_grid (max 1 d) (grid_ms n e f hbm link (max 1 layers)) none (range_up 1 (max 1 d))

-- `min` over the devices, of which there is one at least.
unfoldable pub least_of : (DeviceProfile → ℕ) → DeviceProfile → List DeviceProfile → ℕ
least_of g v [] = g v
least_of g v (w ∷ vs) = min (g v) (least_of g w vs)

-- Both checks want a device.
unfoldable pub feasible_node : ℕ → ℕ → ℕ → List DeviceProfile → Bool
unfolding least_of
feasible_node n e f [] = false
feasible_node n e f (v ∷ vs) =
    leb (n * f * 4 + e * bytes_per_edge_resident)
      (least_of (λ dev. dev.usable_mem) v vs * length (v ∷ vs))

unfoldable pub feasible_feature : ℕ → ℕ → ℕ → List DeviceProfile → Bool
unfolding least_of
feasible_feature n e f [] = false
feasible_feature n e f (v ∷ vs) =
    leb (f * n * 4 + e * bytes_per_edge_resident * length (v ∷ vs))
      (least_of (λ dev. dev.usable_mem) v vs * length (v ∷ vs))

pub data Axis : Type 0 where
  node feature hybrid : Axis

pub record AttrDecision : Type 0 where
  pub axis : Axis
  pub node_cost_ms : Ratio
  pub feature_cost_ms : Ratio
  pub hybrid_cost_ms : Option Ratio
  pub crossover_f : Option ℕ
  pub integration_ms : Ratio
  pub feasible_node : Bool
  pub feasible_feature : Bool

-- A candidate: its axis, its cost and whether it fits.
pub record Candidate : Type 0 where
  pub axis : Axis
  pub cost : Ratio
  pub fits : Bool

-- `cand`, but for the node axis.
abbrev pub others_of : Ratio → Bool → Option Ratio → List Candidate
others_of feat_ms feas_feat none = record { axis = feature; cost = feat_ms; fits = feas_feat } ∷ []
others_of feat_ms feas_feat (some hyb_ms) =
    record { axis = feature; cost = feat_ms; fits = feas_feat }
    ∷ record { axis = hybrid; cost = hyb_ms; fits = true }
    ∷ []

unfoldable pub fitting : List Candidate → List Candidate
fitting [] = []
fitting (c ∷ cs) = let rest = fitting cs in if c.fits then c ∷ rest else rest

-- `min(pool, key=...)`, with the best so far.
unfoldable pub cheapest : Candidate → List Candidate → Candidate
cheapest best [] = best
cheapest best (c ∷ cs) = cheapest (if less c.cost best.cost then c else best) cs

-- The pool is that of the candidates that fit, or else of all.
unfoldable pub cheapest_of : List Candidate → Candidate → List Candidate → Candidate
unfolding cheapest
cheapest_of [] c cs = cheapest c cs
cheapest_of (b ∷ bs) c cs = cheapest b bs

unfoldable pub pick : Ratio → Bool → Ratio → Bool → Option Ratio → Candidate
unfolding fitting cheapest_of
pick node_ms feas_node feat_ms feas_feat hyb_ms =
    let first : Candidate = record { axis = node; cost = node_ms; fits = feas_node } in
    let others = others_of feat_ms feas_feat hyb_ms in
    cheapest_of (fitting (first ∷ others)) first others

unfoldable pub decide_axis : GraphStats → List DeviceProfile → ℕ → ℕ → ℕ → Option AttrDecision
unfolding node_parallel_cost_ms feature_parallel_cost_ms hybrid_cost_ms integration_cost_ms
    crossover_dim least_of feasible_node feasible_feature pick
decide_axis stats [] f link layers = none
decide_axis stats (v ∷ vs) f link layers =
    let n = stats.num_nodes in
    let e = stats.num_edges in
    let d = length (v ∷ vs) in
    let hbm = least_of (λ dev. dev.hbm_bw) v vs in
    let node_ms = node_parallel_cost_ms e f stats.avg_degree d hbm link layers in
    let feat_ms = feature_parallel_cost_ms n e f d hbm link layers in
    let hyb_ms = hybrid_cost_ms n e f d hbm link layers in
    let feas_node = feasible_node n e f (v ∷ vs) in
    let feas_feat = feasible_feature n e f (v ∷ vs) in
    some (record {
      axis = (pick node_ms feas_node feat_ms feas_feat hyb_ms).axis;
      node_cost_ms = node_ms;
      feature_cost_ms = feat_ms;
      hybrid_cost_ms = hyb_ms;
      crossover_f = crossover_dim d (whole 1);
      integration_ms = integration_cost_ms n f link layers true;
      feasible_node = feas_node;
      feasible_feature = feas_feat;
    })
