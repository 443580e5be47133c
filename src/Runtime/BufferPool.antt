-- ===== src/Runtime/BufferPool.antt =====
-- src/zord/runtime/bufferpool.py: admission and eviction over a known access order. A unit id and a
-- position are natural numbers; `hit_rate` and `staging_reduction` are kept as exact quotients.
mod Evict
mod Runs
pub mod Accounting
pub mod Lookahead
mod Counting
pub mod Priorities
pub mod Optimal
pub mod Admit
pub mod Cold
pub mod Window
pub mod Plan
pub mod Tests
use zord.Base.{
  ℕ, zero, suc, ◌+◌, ◌-◌, none, some, List, [], ◌∷◌, ◌++◌, max, leb, if◌then◌else◌, length,
}
use zord.Base.Ratios.{Ratio}
use zord.Base.Dict.{get, has, put, del, max_key}

-- `np.iinfo(np.int64).max`
abbrev pub never : ℕ
never = 9223372036854775807

-- The loop of `_next_use_array` runs from the last position to the first: the recursive call is
-- the part of the loop that has run, with its `last_seen`.
unfoldable pub next_use_from : ℕ → List ℕ → List ℕ × List (ℕ × ℕ)
next_use_from i [] = ([], [])
next_use_from i (u ∷ access) =
    let (nxt, last_seen) = next_use_from (i + 1) access in
    (elim (get u last_seen) [ none ↦ never | some j ↦ j ] ∷ nxt, put u i last_seen)

unfoldable pub next_use_array : List ℕ → List ℕ
unfolding next_use_from
next_use_array access = (next_use_from 0 access).0

-- The variables of the loops of `belady_schedule` and `mrd_schedule`.
pub record Sim : Type 0 where
  pub resident : List (ℕ × ℕ)
  pub admissions : ℕ
  pub evictions : ℕ
  pub hits : ℕ
  pub per_step : List ℕ

abbrev pub start : Sim
start = record { resident = []; admissions = 0; evictions = 0; hits = 0; per_step = [] }

-- `del resident[max(resident, key=...)]`; an empty dict, where `max` raises, stays as it is.
unfoldable pub evict_max : List (ℕ × ℕ) → List (ℕ × ℕ)
evict_max d = elim (max_key d) [ none ↦ d | some victim ↦ del victim d ]

-- `if len(resident) >= cap: evict`
unfoldable pub make_room : ℕ → Sim → Sim
unfolding evict_max
make_room cap s =
    if leb cap (length s.resident)
    then record s { resident = evict_max s.resident; evictions = s.evictions + 1 }
    else s

unfoldable pub admit_miss : ℕ → ℕ → ℕ → Sim → Sim
unfolding make_room
admit_miss cap u prio s =
    let s' = make_room cap (record s { admissions = s.admissions + 1 }) in
    record s' { resident = put u prio s'.resident }

unfoldable pub log_step : Sim → Sim
log_step s = record s { per_step = s.per_step ++ length s.resident ∷ [] }

-- One round of a loop, for an access to `u` whose new priority is `prio`.
unfoldable pub access_unit : ℕ → ℕ → ℕ → Sim → Sim
unfolding admit_miss log_step
access_unit cap u prio s = log_step (
    if has u s.resident
    then record s { hits = s.hits + 1; resident = put u prio s.resident }
    else admit_miss cap u prio s)

unfoldable pub belady_loop : ℕ → List ℕ → List ℕ → Sim → Sim
unfolding access_unit
belady_loop cap (u ∷ access) (nx ∷ nxt) s = belady_loop cap access nxt (access_unit cap u nx s)
belady_loop cap _ _ s = s

-- `(admissions, evictions, hit_rate, per_step_resident)`
pub record Schedule : Type 0 where
  pub admissions : ℕ
  pub evictions : ℕ
  pub hit_rate : Ratio
  pub per_step_resident : List ℕ

-- The two `return` lines; `hits / L`, and 1.0 on an empty sequence.
unfoldable pub schedule_of : ℕ → Sim → Schedule
schedule_of zero s = record {
  admissions = 0;
  evictions = 0;
  hit_rate = record { num = 1; den = 1 };
  per_step_resident = [];
}
schedule_of (suc l) s = record {
  admissions = s.admissions;
  evictions = s.evictions;
  hit_rate = record { num = s.hits; den = suc l };
  per_step_resident = s.per_step;
}

unfoldable pub belady_schedule : List ℕ → ℕ → Schedule
unfolding next_use_array belady_loop schedule_of
belady_schedule access capacity_units =
    schedule_of (length access)
      (belady_loop (max 1 capacity_units) access (next_use_array access) start)

-- The reuse distance of a unit from its previous position, `BIG` for a new unit.
unfoldable pub reuse_estimate : ℕ → ℕ → ℕ → List (ℕ × ℕ) → ℕ
reuse_estimate big i u last_pos = elim (get u last_pos) [ none ↦ big | some p ↦ i - p ]

unfoldable pub mrd_loop : ℕ → ℕ → ℕ → List (ℕ × ℕ) → List ℕ → Sim → Sim
unfolding access_unit reuse_estimate
mrd_loop cap big i last_pos [] s = s
mrd_loop cap big i last_pos (u ∷ access) s =
    mrd_loop cap big (i + 1) (put u i last_pos) access
      (access_unit cap u (reuse_estimate big i u last_pos) s)

unfoldable pub mrd_schedule : List ℕ → ℕ → Schedule
unfolding mrd_loop schedule_of
mrd_schedule access capacity_units =
    schedule_of (length access) (mrd_loop (max 1 capacity_units) (length access) 0 [] access start)
