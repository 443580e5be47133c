-- ===== src/Runtime/BufferPool/Tests.antt =====
-- Tests and examples of the buffer pool.
use zord.Base.{ℕ, ◌≡◌, ◌≤◌, Bool, refl, List, [], ◌∷◌, Option, none, some, arith, max}
use zord.Base.Dict.{has, put, del, get, max_key}
use zord.Runtime.BufferPool.{evict_max, belady_schedule, mrd_schedule, next_use_array}
use zord.Runtime.BufferPool.Plan.{
  Policy, belady, BufferPool, KernelOut, absent, mem, init, admit, plan_schedule,
}
use zord.Runtime.BufferPool.Accounting.{miss_flags, agreeing, kernel_plan}
use zord.Runtime.BufferPool.Runs.{after, flags, zip}
use zord.Runtime.BufferPool.Optimal.{Serves, done, miss, nothing, keep, drop, belady-le_any}
use zord.Runtime.BufferPool.Admit.{Admitted, init-IsValid, admit-Admitted}
use zord.Runtime.BufferPool.Window.{window_access_sequence}
use zord.Schedule.Memory.{Workload, MemoryPlan}

abbrev scan : List ℕ
scan = 1 ∷ 2 ∷ 3 ∷ 1 ∷ 2 ∷ []

belady_occupancy : (belady_schedule scan 2).per_step_resident ≡ 1 ∷ 2 ∷ 2 ∷ 2 ∷ 2 ∷ []
unfolding belady_schedule has put del get max_key
belady_occupancy = refl

mrd_evicts : (mrd_schedule scan 2).evictions ≡ 3
unfolding mrd_schedule has put del get max_key
mrd_evicts = refl

belady_flags : miss_flags belady scan 2 ≡ 1 ∷ 1 ∷ 1 ∷ 0 ∷ 1 ∷ []
unfolding miss_flags flags after has put del get max_key zip next_use_array evict_max
belady_flags = refl

windows : window_access_sequence 4 2 (some 1) 1 ≡ 0 ∷ 1 ∷ 1 ∷ 2 ∷ 2 ∷ 3 ∷ []
unfolding window_access_sequence
windows = refl

abbrev pool : BufferPool
pool = record {
  capacity_bytes = 20;
  unit_bytes = 10;
  policy = belady;
  num_slots = 2;
  resident = [];
}

abbrev binary : List ℕ → ℕ → Policy → Option KernelOut
binary access slots policy = some (agreeing pool access)

kernel_plan_example :
    plan_schedule pool (some binary) scan absent ≡ plan_schedule pool none scan absent
kernel_plan_example = kernel_plan pool binary (omega arith) 1 (2 ∷ 3 ∷ 1 ∷ 2 ∷ []) refl absent

lru-Serves : Serves (max 1 2) [] scan 5
unfolding mem
lru-Serves = miss refl nothing (omega arith) (
    miss refl (keep nothing) (omega arith) (
      miss refl (keep (drop nothing)) (omega arith) (
        miss refl (keep (drop nothing)) (omega arith)
          (miss refl (keep (drop nothing)) (omega arith) done))))

belady-le_any_example : (belady_schedule scan 2).admissions ≤ 5
belady-le_any_example = belady-le_any scan 2 5 (omega arith) lru-Serves

admit-Admitted_example :
    Admitted 7 3
      (init 20 10 belady)
      (admit 7 3 (init 20 10 belady)).0
      (admit 7 3 (init 20 10 belady)).1
admit-Admitted_example = admit-Admitted 7 3 (init 20 10 belady) (init-IsValid 20 10 belady)

abbrev workload : Workload
workload = record { feat_dim = 4; layers = 2; window = 3; bytes_per_feat = 4; bytes_per_edge = 12 }

abbrev device : MemoryPlan
device = record {
  work_nodes = 10;
  work_edges = 20;
  resident_snapshots = 3;
  streamed_snapshots = 0;
  peak_hbm_bytes = 1000;
  capacity_bytes = 2000;
  feasible = Bool.true;
}
