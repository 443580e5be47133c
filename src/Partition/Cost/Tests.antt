-- ===== src/Partition/Cost/Tests.antt =====
-- Tests and examples of the cost model and the check before a run.
use zord.Base.{ℕ, ◌≤◌, ◌≡◌, ◌↔◌, refl, true, List, [], ◌∷◌, none, some, length, sum, arith}
use zord.Base.Int.{pos}
use zord.Partition.Cost.{
  Partition, CostParams, PreflightReport, summarize, hash_partition, footprint_of, max_nodes,
  per_node, preflight, at_precision,
}
use zord.Partition.Cost.Summary.{total, summarize-totals}
use zord.Partition.Cost.Feasible.{Room, preflight-feasible_iff, max_nodes-fits}

-- A path of four nodes, by turns on two devices.
abbrev partition : Partition
partition = record {
  assignment = 0 ∷ 1 ∷ 0 ∷ 1 ∷ [];
  num_devices = 2;
  nodes_per_device = 2 ∷ 2 ∷ [];
  edges_per_device = 0 ∷ 0 ∷ [];
  cross_edges = (0 ∷ 2 ∷ []) ∷ (1 ∷ 0 ∷ []) ∷ [];
  halo_per_device = none;
}

abbrev src : List ℕ
src = 0 ∷ 1 ∷ 2 ∷ []

hashed : hash_partition (0 ∷ 1 ∷ 2 ∷ []) (1 ∷ 2 ∷ 3 ∷ []) 4 2 ≡ some partition
unfolding hash_partition
hashed = refl

summarized : summarize (0 ∷ 1 ∷ 0 ∷ 1 ∷ []) (0 ∷ 1 ∷ 2 ∷ []) (1 ∷ 2 ∷ 3 ∷ []) 2 ≡ some partition
unfolding summarize
summarized = refl

summarize-totals_example :
    (sum partition.nodes_per_device ≡ length partition.assignment)
    × (total partition.cross_edges ≡ length src)
summarize-totals_example =
    summarize-totals partition.assignment src (1 ∷ 2 ∷ 3 ∷ []) 2 partition refl summarized

abbrev params : CostParams
params = record {
  feat_dim = 2;
  bytes_per_feat = 4;
  bytes_per_edge = 20;
  window = 1;
  halo_replication = 100;
}

eighth : (at_precision 8 params).bytes_per_feat ≡ 1
unfolding at_precision
eighth = refl

-- Each device needs 16 bytes.
abbrev report : PreflightReport
report = record { feasible = true; oom_devices = []; headroom = pos 4 ∷ pos 0 ∷ [] }

checked : preflight partition (20 ∷ 16 ∷ []) params ≡ some report
unfolding preflight
checked = refl

preflight-feasible_iff_example : (report.feasible ≡ true) ↔ Room partition params 0 (20 ∷ 16 ∷ [])
preflight-feasible_iff_example =
    preflight-feasible_iff partition (20 ∷ 16 ∷ []) params report checked

-- With an edge per node a node takes 28 bytes, so 85% of 200 bytes hold 6 nodes.
limit : max_nodes params 4 4 85 200 ≡ 6
unfolding max_nodes
limit = refl

max_nodes-fits_example : footprint_of params 6 6 0 ≤ 200
unfolding max_nodes per_node
max_nodes-fits_example =
    max_nodes-fits params 4 4 85 200 6 6 (omega arith) (omega arith) (omega arith) (omega arith)
      (omega arith)
