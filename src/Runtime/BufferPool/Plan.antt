-- ===== src/Runtime/BufferPool/Plan.antt =====
-- src/zord/runtime/bufferpool.py: the byte accounting, the `BufferPool` object and its plan, and
-- the access order of the window schedule.
use zord.Base.{
  ℕ, zero, suc, ◌+◌, ◌-◌, ◌*◌, ◌/◌, Bool, true, false, Option, none, some, List, [], ◌∷◌, max, min,
  ltb, leb, ◌==◌, if◌then◌else◌, length, get_elem?,
}
use zord.Base.Dict.{has, put, del, max_key}
use zord.Base.Ratios.{Ratio}
use zord.Runtime.BufferPool.{
  Schedule, next_use_array, belady_schedule, mrd_schedule, reuse_estimate, evict_max,
}

pub data Policy : Type 0 where
  belady mrd : Policy

-- The loop of `_naive_double_buffer_misses`; `pinned` is a set of units.
unfoldable pub mem : ℕ → List ℕ → Bool
mem u [] = false
mem u (v ∷ vs) = if v == u then true else mem u vs

unfoldable pub naive_misses : ℕ → List ℕ → List ℕ → ℕ → ℕ
unfolding mem
naive_misses rcap pinned [] misses = misses
naive_misses rcap pinned (u ∷ access) misses =
    naive_misses rcap
      (if mem u pinned then pinned else if ltb (length pinned) rcap then u ∷ pinned else pinned)
      access
      (if mem u pinned then misses else if ltb (length pinned) rcap then misses else misses + 1)

unfoldable pub naive_double_buffer_misses : List ℕ → ℕ → ℕ
unfolding naive_misses
naive_double_buffer_misses access resident_units = naive_misses resident_units [] access 0

-- The argument `unit_bytes`: absent, a scalar, or an array indexed by unit.
pub data UnitBytes : Type 0 where
  absent : UnitBytes
  scalar : ℕ → UnitBytes
  per_unit : List ℕ → UnitBytes

-- `np.full(n, v)`
unfoldable pub full : ℕ → ℕ → List ℕ
full zero v = []
full (suc n) v = v ∷ full n v

-- `arr[access]`; `none` is the IndexError of a unit beyond the array.
unfoldable pub gather : List ℕ → List ℕ → Option (List ℕ)
gather arr [] = some []
gather arr (u ∷ access) = elim (get_elem? arr u) [
  | none ↦ none
  | some b ↦ elim (gather arr access) [ none ↦ none | some bs ↦ some (b ∷ bs) ]
]

unfoldable pub per_unit_bytes : List ℕ → UnitBytes → Option (List ℕ)
unfolding full gather
per_unit_bytes access absent = some (full (length access) 1)
per_unit_bytes access (scalar b) = some (full (length access) b)
per_unit_bytes access (per_unit arr) = gather arr access

pub record BufferPool : Type 0 where
  pub capacity_bytes : ℕ
  pub unit_bytes : ℕ
  pub policy : Policy
  pub num_slots : ℕ
  pub resident : List (ℕ × ℕ)

unfoldable pub init : ℕ → ℕ → Policy → BufferPool
init capacity_bytes unit_bytes policy = record {
  capacity_bytes = capacity_bytes;
  unit_bytes = max 1 unit_bytes;
  policy = policy;
  num_slots = max 1 (capacity_bytes / max 1 unit_bytes);
  resident = [];
}

-- The new pool, and the evicted units.
unfoldable pub admit : ℕ → ℕ → BufferPool → BufferPool × List ℕ
admit unit next_use p =
    if has unit p.resident
    then (record p { resident = put unit next_use p.resident }, [])
    else if leb p.num_slots (length p.resident)
    then elim (max_key p.resident) [
      | none ↦ (record p { resident = put unit next_use p.resident }, [])
      | some victim ↦
          (record p { resident = put unit next_use (del victim p.resident) }, victim ∷ [])
    ]
    else (record p { resident = put unit next_use p.resident }, [])

unfoldable pub reset : BufferPool → BufferPool
reset p = record p { resident = [] }

-- The loops of `_staged_bytes_for_policy`: the resident dict and the running total.
unfoldable pub stage_unit : ℕ → ℕ → ℕ → ℕ → List (ℕ × ℕ) × ℕ → List (ℕ × ℕ) × ℕ
unfolding evict_max
stage_unit cap u prio b (resident, total) =
    if has u resident
    then (put u prio resident, total)
    else if leb cap (length resident)
    then (put u prio (evict_max resident), total + b)
    else (put u prio resident, total + b)

unfoldable pub staged_belady : ℕ → List ℕ → List ℕ → List ℕ → List (ℕ × ℕ) × ℕ → List (ℕ × ℕ) × ℕ
unfolding stage_unit
staged_belady cap (u ∷ access) (nx ∷ nxt) (b ∷ ubytes) s =
    staged_belady cap access nxt ubytes (stage_unit cap u nx b s)
staged_belady cap _ _ _ s = s

unfoldable pub staged_mrd :
    ℕ → ℕ → ℕ → List (ℕ × ℕ) → List ℕ → List ℕ → List (ℕ × ℕ) × ℕ → List (ℕ × ℕ) × ℕ
unfolding stage_unit reuse_estimate
staged_mrd cap big i last_pos (u ∷ access) (b ∷ ubytes) s =
    staged_mrd cap big (i + 1) (put u i last_pos) access ubytes
      (stage_unit cap u (reuse_estimate big i u last_pos) b s)
staged_mrd cap big i last_pos _ _ s = s

unfoldable pub staged_bytes_for_policy : BufferPool → List ℕ → List ℕ → ℕ
unfolding staged_belady staged_mrd
staged_bytes_for_policy p access ubytes = elim p.policy [
  | belady ↦ (staged_belady p.num_slots access (next_use_array access) ubytes ([], 0)).1
  | mrd ↦ (staged_mrd p.num_slots (length access) 0 [] access ubytes ([], 0)).1
]

unfoldable pub naive_bytes : ℕ → List ℕ → List ℕ → List ℕ → ℕ → ℕ
unfolding mem
naive_bytes rcap pinned (u ∷ access) (b ∷ ubytes) total =
    naive_bytes rcap
      (if mem u pinned then pinned else if ltb (length pinned) rcap then u ∷ pinned else pinned)
      access ubytes
      (if mem u pinned then total else if ltb (length pinned) rcap then total else total + b)
naive_bytes rcap pinned _ _ total = total

unfoldable pub staged_bytes_naive : BufferPool → List ℕ → List ℕ → ℕ
unfolding naive_bytes
staged_bytes_naive p access ubytes = naive_bytes p.num_slots [] access ubytes 0

-- What the native binary prints: the length, the miss flags, and the two counts.
pub record KernelOut : Type 0 where
  pub n : ℕ
  pub is_miss : List ℕ
  pub admissions : ℕ
  pub evictions : ℕ

-- The native binary: `none` where the file is missing, else its run, `none` for a nonzero exit.
abbrev pub Binary : Type 0
Binary = Option (List ℕ → ℕ → Policy → Option KernelOut)

-- `_simulate_cpp`: `none` sends the caller to the loops.
unfoldable pub simulate_cpp : Binary → List ℕ → ℕ → Policy → Option (List ℕ × ℕ × ℕ)
simulate_cpp none access capacity_units policy = none
simulate_cpp (some run) [] capacity_units policy = some ([], 0, 0)
simulate_cpp (some run) (u ∷ access) capacity_units policy =
    elim (run (u ∷ access) (max 1 capacity_units) policy) [
      | none ↦ none
      | some out ↦
          if out.n == length (u ∷ access)
          then if length out.is_miss == length (u ∷ access)
            then some (out.is_miss, out.admissions, out.evictions)
            else none
          else none
    ]

-- `np.dot(is_miss, ubytes)`
unfoldable pub dot : List ℕ → List ℕ → ℕ
dot (a ∷ as') (b ∷ bs) = a * b + dot as' bs
dot _ _ = 0

-- `np.minimum(np.cumsum(is_miss), num_slots)`, from a running count
unfoldable pub occupancy : ℕ → ℕ → List ℕ → List ℕ
occupancy slots acc [] = []
occupancy slots acc (m ∷ is_miss) = min (acc + m) slots ∷ occupancy slots (acc + m) is_miss

pub record BufferPoolPlan : Type 0 where
  pub capacity_bytes : ℕ
  pub num_slots : ℕ
  pub admissions : ℕ
  pub evictions : ℕ
  pub hit_rate : Ratio
  pub staged_bytes : ℕ
  pub staged_bytes_naive : ℕ
  pub staging_reduction : Ratio
  pub policy : Policy
  pub per_step_resident : List ℕ

-- `max(0, 1 - staged / naive)`, and 0 where the naive scheme stages nothing
unfoldable pub reduction : ℕ → ℕ → Ratio
reduction staged zero = record { num = 0; den = 1 }
reduction staged (suc naive) = record { num = suc naive - staged; den = suc naive }

unfoldable pub schedule_for : Policy → List ℕ → ℕ → Schedule
schedule_for belady access slots = belady_schedule access slots
schedule_for mrd access slots = mrd_schedule access slots

-- `(hits / L) if L > 0 else 1.0`
unfoldable pub hit_ratio : ℕ → ℕ → Ratio
hit_ratio hits zero = record { num = 1; den = 1 }
hit_ratio hits (suc l) = record { num = hits; den = suc l }

-- The counts of a plan from the answer of the native kernel, or by the loops.
unfoldable pub counts : Option (List ℕ × ℕ × ℕ) → BufferPool → List ℕ → List ℕ → Schedule × ℕ
unfolding dot occupancy schedule_for staged_bytes_for_policy hit_ratio
counts (some (is_miss, admissions, evictions)) p access ubytes = (
  record {
    admissions = admissions;
    evictions = evictions;
    hit_rate = hit_ratio (length access - admissions) (length access);
    per_step_resident = occupancy p.num_slots 0 is_miss;
  },
  dot is_miss ubytes,
)
counts none p access ubytes =
    (schedule_for p.policy access p.num_slots, staged_bytes_for_policy p access ubytes)

unfoldable pub simulate : BufferPool → Binary → List ℕ → List ℕ → Schedule × ℕ
unfolding simulate_cpp counts
simulate p binary access ubytes =
    counts (simulate_cpp binary access p.num_slots p.policy) p access ubytes

-- The bytes of each access.
unfoldable pub resolve : BufferPool → List ℕ → UnitBytes → Option (List ℕ)
unfolding per_unit_bytes full
resolve p access absent = some (full (length access) p.unit_bytes)
resolve p access (scalar b) = per_unit_bytes access (scalar b)
resolve p access (per_unit arr) = per_unit_bytes access (per_unit arr)

-- The returned plan.
unfoldable pub report : BufferPool → Schedule × ℕ → ℕ → BufferPoolPlan
unfolding reduction
report p (sched, staged) naive = record {
  capacity_bytes = p.capacity_bytes;
  num_slots = p.num_slots;
  admissions = sched.admissions;
  evictions = sched.evictions;
  hit_rate = sched.hit_rate;
  staged_bytes = staged;
  staged_bytes_naive = naive;
  staging_reduction = reduction staged naive;
  policy = p.policy;
  per_step_resident = sched.per_step_resident;
}

-- `none` is the IndexError of a per-unit array that is too short.
unfoldable pub plan_schedule : BufferPool → Binary → List ℕ → UnitBytes → Option BufferPoolPlan
unfolding simulate report staged_bytes_naive resolve
plan_schedule p binary access unit_bytes = elim (resolve p access unit_bytes) [
  | none ↦ none
  | some ubytes ↦
      some (report p (simulate p binary access ubytes) (staged_bytes_naive p access ubytes))
]
