-- ===== src/Schedule/Memory/Tests.antt =====
-- Tests and examples of the memory tiering.
use zord.Base.{◌+◌, ◌<◌, ◌≤◌, ◌≡◌, refl, true, arith, inr}
use zord.Schedule.Memory.{Workload, tier, snapshot_state_bytes, overhead_of, fit}
use zord.Schedule.Memory.Capacity.{tier_no_oom, tier_over_capacity}

abbrev workload : Workload
workload = record { feat_dim = 1; layers = 2; window = 3; bytes_per_feat = 4; bytes_per_edge = 0 }

-- Ten nodes take 120 bytes a snapshot, and 160 bytes of overhead while streaming.
sizes : (snapshot_state_bytes 10 0 workload ≡ 120) × (overhead_of workload 400 10 0 ≡ 160)
unfolding snapshot_state_bytes overhead_of
sizes = (refl, refl)

tier_no_oom_example :
    (0 < (tier workload 1 600 10 0).resident_snapshots)
    × ((tier workload 1 600 10 0).resident_snapshots + (tier workload 1 600 10 0).streamed_snapshots
        ≡ 3)
    × ((tier workload 1 600 10 0).peak_hbm_bytes ≤ 600)
unfolding tier
tier_no_oom_example = tier_no_oom workload 1 600 10 0 (omega arith) refl (inr (omega arith))

tier_over_capacity_example :
    ((tier workload 1 400 10 0).feasible ≡ true) × (400 < (tier workload 1 400 10 0).peak_hbm_bytes)
unfolding snapshot_state_bytes overhead_of fit
tier_over_capacity_example =
    tier_over_capacity workload 1 400 10 0 (omega arith) (omega arith) (omega arith) (omega arith)
