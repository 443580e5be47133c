-- ===== src/Schedule/Online/Tests.antt =====
-- Tests and examples of the online steps and of the driver.
use zord.Base.{
  ℕ, ◌≡◌, ◌≤◌, ◌*◌, ◌⊎◌, refl, List, [], ◌∷◌, true, false, Option, none, some, length, get_elem?,
  arith, max,
}
use zord.Base.Ranges.{range_step}
use zord.Datasets.Unique.{distinct_items, distinct}
use zord.Datasets.Argpartition.{sorting}
use zord.Datasets.Numpy.{gather}
use zord.Datasets.Numpy.Insertion.{insertion, argsort}
use zord.Schedule.Dynamic.{partition_incremental}
use zord.Schedule.Dynamic.Migration.{placed_all}
use zord.Schedule.Online.{Reason, budget_of, OnlineState, View, Setting, online_step}
use zord.Schedule.Online.Dependency.{by_pass, depth_after}
use zord.Schedule.Online.Dependency.Last.{Last, Touches}
use zord.Schedule.Online.Dependency.Latest.{by_pass-Follows}
use zord.Schedule.Online.Stream.{
  StreamTrace, WindowStats, refreshes, total_migrated_bytes, max_staleness, run_stream,
  window_bounds, window_size,
}
use zord.Schedule.Online.Staleness.{Stepped, online_step-Stepped, run_stream-bounded_staleness}
use zord.Schedule.Online.Migrated.{run_stream-migrated}

abbrev two_devices : Setting
two_devices = record {
  unique = distinct_items;
  argpartition = sorting;
  schedule_fn = none;
  num_devices = 2;
  feat_dim = 16;
  policy = record {
    max_staleness_snapshots = 2;
    drift_threshold = record { num = 1; den = 5 };
    rebalance_budget = record { num = 1; den = 4 };
  };
}

-- No figures, so no drift.
abbrev no_stats : WindowStats
no_stats src dst t n = none

abbrev src : List ℕ
src = 0 ∷ 1 ∷ 2 ∷ 3 ∷ []

abbrev dst : List ℕ
dst = 1 ∷ 2 ∷ 3 ∷ 0 ∷ []

abbrev t : List ℕ
t = 0 ∷ 1 ∷ 2 ∷ 3 ∷ []

-- The bounds of the windows end at the end.
bounds : window_bounds 3 7 ≡ 3 ∷ 6 ∷ 7 ∷ []
unfolding window_bounds range_step
bounds = refl

-- The depth follows only the most recent event at a vertex: the last event is after a chain of two
-- at its vertex 0, and has the depth of the event at its vertex 2.
shallow :
    (by_pass distinct_items (0 ∷ 0 ∷ 2 ∷ 0 ∷ []) (1 ∷ 1 ∷ 3 ∷ 2 ∷ [])).depth ≡ 0 ∷ 1 ∷ 0 ∷ 1 ∷ []
unfolding by_pass distinct
shallow = refl

abbrev kept : OnlineState
kept = record {
  assignment = 0 ∷ 0 ∷ 1 ∷ 1 ∷ [];
  last_stats = none;
  processed_edges = 3;
  staleness = 1;
  total_migrated_bytes = 64;
}

abbrev whole : View
whole = record { src = src; dst = dst; num_nodes = 4; stats = none }

reused :
    online_step two_devices (some kept) whole none
    ≡ some (
      record {
        schedule_plan = none;
        rearranged = false;
        drift = record { num = 0; den = 1 };
        moved_vertices = 0;
        reason = Reason.reuse;
      },
      record kept { processed_edges = 4; staleness = 2 },
    )
unfolding online_step
reused = refl

online_step-Stepped_example :
    Stepped two_devices.policy kept
      record {
        schedule_plan = none;
        rearranged = false;
        drift = record { num = 0; den = 1 };
        moved_vertices = 0;
        reason = Reason.reuse;
      }
      (record kept { processed_edges = 4; staleness = 2 })
online_step-Stepped_example =
    online_step-Stepped two_devices kept whole none
      record {
        schedule_plan = none;
        rearranged = false;
        drift = record { num = 0; den = 1 };
        moved_vertices = 0;
        reason = Reason.reuse;
      }
      (record kept { processed_edges = 4; staleness = 2 }) reused

run_stream-migrated_example :
    (trace : StreamTrace) × (run_stream insertion two_devices no_stats src dst t 4 2 12 true
      ≡ some trace)
    × (length trace.steps ≡ length (window_bounds (window_size 2 12 (length src)) (length src)))
    × (total_migrated_bytes trace
        ≤ refreshes trace.steps * (budget_of two_devices.policy 4 * two_devices.feat_dim * 4))
run_stream-migrated_example =
    run_stream-migrated insertion two_devices no_stats src dst t 4 2 12 true (omega arith)
      (omega arith) refl refl refl (omega arith, (omega arith, (omega arith, (omega arith, tt))))
      (omega arith, (omega arith, (omega arith, (omega arith, tt))))

-- Two windows: a cold start, and a window that is served as it is.
abbrev two_windows : StreamTrace
two_windows = record {
  steps =
      record {
        schedule_plan = none;
        rearranged = true;
        drift = record { num = 0; den = 1 };
        moved_vertices = 4;
        reason = Reason.cold_start;
      }
      ∷ record {
        schedule_plan = none;
        rearranged = false;
        drift = record { num = 0; den = 1 };
        moved_vertices = 0;
        reason = Reason.reuse;
      }
      ∷ [];
  final_state = some record {
    assignment = 0 ∷ 1 ∷ 0 ∷ 1 ∷ [];
    last_stats = none;
    processed_edges = 4;
    staleness = 1;
    total_migrated_bytes = 0;
  };
}

streamed : run_stream insertion two_devices no_stats src dst t 4 2 12 true ≡ some two_windows
unfolding run_stream online_step partition_incremental distinct argsort window_bounds range_step
    gather placed_all
streamed = refl

run_stream-bounded_staleness_example :
    max_staleness two_windows ≤ max 1 two_devices.policy.max_staleness_snapshots
run_stream-bounded_staleness_example =
    run_stream-bounded_staleness insertion two_devices no_stats src dst t 4 2 12 true two_windows
      streamed

abbrev heads : List ℕ
heads = 0 ∷ 2 ∷ 1 ∷ []

abbrev tails : List ℕ
tails = 1 ∷ 3 ∷ 2 ∷ []

by_pass-Follows_example :
    (length (by_pass distinct_items heads tails).ear ≡ length heads)
    × ((i : ℕ) (o : Option ℕ)
        → get_elem? (by_pass distinct_items heads tails).ear i ≡ some o
        → (u : ℕ) × (v : ℕ) × (get_elem? heads i ≡ some u)
          × (get_elem? tails i ≡ some v)
          × Last (λ k. Touches heads tails k u ⊎ Touches heads tails k v) i o
          × (get_elem? (by_pass distinct_items heads tails).depth i
              ≡ some (depth_after (by_pass distinct_items heads tails).depth o)))
by_pass-Follows_example = by_pass-Follows distinct_items heads tails refl
