-- ===== src/Partition/Cost.antt =====
-- src/zord/partition/base.py, src/zord/partition/cost_model.py, src/zord/guarantees.py: the summary of
-- a partition, its footprint on each device, the limits derived from it and the check before a run.
-- The times are left out; `halo_replication` and `margin` are in percent, and `avg_degree` is the
-- exact quotient of `num_edges` and `num_nodes`.
pub mod Summary
pub mod Feasible
pub mod Tests
use zord.Base.{
  ℕ, zero, suc, ◌+◌, ◌-◌, ◌*◌, ◌/◌, ◌%◌, Bool, true, false, ◌&&◌, Option, none, some, List, [], ◌∷◌,
  ◌==◌, if◌then◌else◌, ltb, leb, length, sum, get_elem?, max,
}
use zord.Base.Options.{◌>>=◌}
use zord.Base.Int.{ℤ, sub_ℕ}
use zord.Datasets.Numpy.{gather}

pub record Partition : Type 0 where
  pub assignment : List ℕ
  pub num_devices : ℕ
  pub nodes_per_device : List ℕ
  pub edges_per_device : List ℕ
  pub cross_edges : List (List ℕ)
  pub halo_per_device : Option (List ℕ)

-- How often `d` occurs, and how often the pair `i`, `j`.
unfoldable pub count_of : ℕ → List ℕ → ℕ
count_of d [] = 0
count_of d (e ∷ es) = (if e == d then 1 else 0) + count_of d es

unfoldable pub count_pair : ℕ → ℕ → List ℕ → List ℕ → ℕ
count_pair i j (a ∷ as') (b ∷ bs) = (if (a == i) && (b == j) then 1 else 0) + count_pair i j as' bs
count_pair i j _ _ = 0

-- The length of `np.bincount(es, minlength=n)`.
unfoldable pub bins : ℕ → List ℕ → ℕ
bins n [] = n
bins n (e ∷ es) = max (e + 1) (bins n es)

-- Entries for the devices from `d` on, `n` of them.
unfoldable pub counts_from : ℕ → ℕ → List ℕ → List ℕ
unfolding count_of
counts_from d zero es = []
counts_from d (suc n) es = count_of d es ∷ counts_from (d + 1) n es

unfoldable pub row_from : ℕ → ℕ → ℕ → List ℕ → List ℕ → List ℕ
unfolding count_pair
row_from i j zero as' bs = []
row_from i j (suc n) as' bs = count_pair i j as' bs ∷ row_from i (j + 1) n as' bs

unfoldable pub rows_from : ℕ → ℕ → ℕ → List ℕ → List ℕ → List (List ℕ)
unfolding row_from
rows_from i zero p as' bs = []
rows_from i (suc n) p as' bs = row_from i 0 p as' bs ∷ rows_from (i + 1) n p as' bs

unfoldable pub diagonal_from : ℕ → ℕ → List ℕ → List ℕ → List ℕ
unfolding count_pair
diagonal_from i zero as' bs = []
diagonal_from i (suc n) as' bs = count_pair i i as' bs ∷ diagonal_from (i + 1) n as' bs

-- A device that is not below `p` is an index error of the matrix.
unfoldable pub below : ℕ → List ℕ → Option Bool
below p [] = some true
below p (d ∷ ds) = if ltb d p then below p ds else none

unfoldable pub summarize : List ℕ → List ℕ → List ℕ → ℕ → Option Partition
unfolding gather below bins counts_from rows_from diagonal_from
summarize assignment src dst num_devices = do
  a_src ← gather assignment src
  a_dst ← gather assignment dst
  _ ← below num_devices a_src
  _ ← below num_devices a_dst
  some (record {
    assignment = assignment;
    num_devices = num_devices;
    nodes_per_device = counts_from 0 (bins num_devices assignment) assignment;
    edges_per_device = diagonal_from 0 num_devices a_src a_dst;
    cross_edges = rows_from 0 num_devices num_devices a_src a_dst;
    halo_per_device = none;
  })

-- `HashPartitioner`: `node_id % P`, for the nodes from `v` on.
unfoldable pub hash_from : ℕ → ℕ → ℕ → List ℕ
hash_from p v zero = []
hash_from p v (suc n) = v % p ∷ hash_from p (v + 1) n

unfoldable pub hash_partition : List ℕ → List ℕ → ℕ → ℕ → Option Partition
unfolding hash_from summarize
hash_partition src dst num_nodes p = summarize (hash_from p 0 num_nodes) src dst p

pub record CostParams : Type 0 where
  pub feat_dim : ℕ
  pub bytes_per_feat : ℕ
  pub bytes_per_edge : ℕ
  pub window : ℕ
  pub halo_replication : ℕ

unfoldable pub at_precision : ℕ → CostParams → CostParams
at_precision bits cp = record cp { bytes_per_feat = max 1 (bits / 8) }

unfoldable pub footprint_of : CostParams → ℕ → ℕ → ℕ → ℕ
footprint_of cp nodes edges halo =
    cp.window
    * ((nodes + halo * cp.halo_replication / 100) * cp.feat_dim * cp.bytes_per_feat
        + edges * cp.bytes_per_edge)

unfoldable pub halo_of : Option (List ℕ) → ℕ → Option ℕ
halo_of none d = some 0
halo_of (some halo) d = get_elem? halo d

unfoldable pub device_footprint_bytes : Partition → ℕ → CostParams → Option ℕ
unfolding footprint_of halo_of
device_footprint_bytes p d cp = do
  nodes ← get_elem? p.nodes_per_device d
  edges ← get_elem? p.edges_per_device d
  halo ← halo_of p.halo_per_device d
  some (footprint_of cp nodes edges halo)

-- The bytes of a node with its share of edges, multiplied by `num_nodes`; one at least.
unfoldable pub per_node : CostParams → ℕ → ℕ → ℕ
per_node cp num_edges num_nodes =
    max num_nodes
      (cp.window * (cp.feat_dim * cp.bytes_per_feat * num_nodes + num_edges * cp.bytes_per_edge))

unfoldable pub max_nodes : CostParams → ℕ → ℕ → ℕ → ℕ → ℕ
unfolding per_node
max_nodes cp num_edges num_nodes margin usable =
    max 1 (margin * usable * num_nodes / (100 * per_node cp num_edges num_nodes))

unfoldable pub max_nodes_per_device : CostParams → ℕ → ℕ → ℕ → List ℕ → List ℕ
unfolding max_nodes
max_nodes_per_device cp num_edges num_nodes margin [] = []
max_nodes_per_device cp num_edges num_nodes margin (usable ∷ devices) =
    max_nodes cp num_edges num_nodes margin usable
    ∷ max_nodes_per_device cp num_edges num_nodes margin devices

pub record PreflightReport : Type 0 where
  pub feasible : Bool
  pub oom_devices : List ℕ
  pub headroom : List ℤ

-- The loop over the devices from `d` on.
unfoldable pub check_from : Partition → CostParams → ℕ → List ℕ → Option (List ℕ × List ℤ)
unfolding device_footprint_bytes
check_from p cp d [] = some ([], [])
check_from p cp d (usable ∷ devices) = do
  fp ← device_footprint_bytes p d cp
  (oom, headroom) ← check_from p cp (d + 1) devices
  some (if ltb usable fp then d ∷ oom else oom, sub_ℕ usable fp ∷ headroom)

-- The usable memory of each device is what the check uses of a cluster; without devices the maximum of
-- their times is an error.
unfoldable pub preflight : Partition → List ℕ → CostParams → Option PreflightReport
unfolding check_from
preflight p [] cp = none
preflight p (d ∷ devices) cp = do
  (oom, headroom) ← check_from p cp 0 (d ∷ devices)
  some (record { feasible = leb (length oom) 0; oom_devices = oom; headroom = headroom })
