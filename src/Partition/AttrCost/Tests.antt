-- ===== src/Partition/AttrCost/Tests.antt =====
-- Tests and examples of the choice of the axis.
use zord.Base.{◌≡◌, refl, true, List, [], ◌∷◌, none, some, arith}
use zord.Base.Ratios.{Ratio, AtMost}
use zord.Base.Ranges.{range_up}
use zord.Partition.AttrCost.{
  Axis, node, feature, GraphStats, DeviceProfile, AttrDecision, decide_axis, hybrid_cost_ms,
  crossover_dim,
}
use zord.Partition.AttrCost.Choice.{cost_at, eligible}
use zord.Partition.AttrCost.Axes.{decide_axis-Cheapest, decide_axis-never_feature}

-- Four nodes and eight edges, on two devices that are too small for the features.
abbrev stats : GraphStats
stats = record { num_nodes = 4; num_edges = 8; avg_degree = record { num = 2; den = 1 } }

abbrev device : DeviceProfile
device = record { hbm_bw = 100; usable_mem = 1000 }

abbrev fast : DeviceProfile
fast = record { hbm_bw = 300; usable_mem = 4000 }

no_crossing : crossover_dim 2 (record { num = 1; den = 1 }) ≡ none
unfolding crossover_dim
no_crossing = refl

columns_ahead : crossover_dim 2 (record { num = 1; den = 4 }) ≡ some 0
unfolding crossover_dim
columns_ahead = refl

prime : hybrid_cost_ms 4 8 16 3 100 10 2 ≡ none
unfolding hybrid_cost_ms range_up
prime = refl

abbrev two : List DeviceProfile
two = device ∷ fast ∷ []

abbrev on_nodes : AttrDecision
on_nodes = record {
  axis = node;
  node_cost_ms = record { num = 286720000000000000; den = 8000000000000 };
  feature_cost_ms = record { num = 122880000; den = 2000 };
  hybrid_cost_ms = none;
  crossover_f = none;
  integration_ms = record { num = 1024000; den = 10 };
  feasible_node = true;
  feasible_feature = true;
}

decided : decide_axis stats two 16 10 2 ≡ some on_nodes
unfolding decide_axis range_up
decided = refl

decide_axis-Cheapest_example :
    (dec : AttrDecision) × (decide_axis stats two 16 10 2 ≡ some dec)
    × (cost : Ratio) × (cost_at dec.node_cost_ms dec.feature_cost_ms dec.hybrid_cost_ms dec.axis
        ≡ some cost)
    × ((a : Axis) (c : Ratio)
        → cost_at dec.node_cost_ms dec.feature_cost_ms dec.hybrid_cost_ms a ≡ some c
        → eligible dec.feasible_node dec.feasible_feature a ≡ true
        → (eligible dec.feasible_node dec.feasible_feature dec.axis ≡ true) × AtMost cost c)
decide_axis-Cheapest_example = decide_axis-Cheapest stats device (fast ∷ []) 16 10 2 (omega arith)

decide_axis-never_feature_example : ¬ (on_nodes.axis ≡ feature)
decide_axis-never_feature_example =
    decide_axis-never_feature stats two 16 10 2 on_nodes decided (omega arith)
