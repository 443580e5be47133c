-- ===== src/Schedule/Online.antt =====
-- src/zord/schedule/dynamic_online.py: the policy of bounded staleness, the drift score and a step of
-- online ingestion. The figures of a graph are natural numbers in units of 1e-9, a score is an exact
-- quotient, and the view of a window holds its columns in the order of time. The scheduler, which is
-- loaded lazily and may be absent or fail, is a parameter. The opaque `meta` is left out.
pub mod Dependency
pub mod Stream
pub mod Staleness
pub mod Migrated
pub mod Tests
use zord.Base.{
  ℕ, zero, suc, ◌+◌, ◌-◌, ◌*◌, ◌/◌, Bool, true, false, not, ◌||◌, Option, none, some, List, [], ◌∷◌,
  if◌then◌else◌, ltb, length, min, max,
}
use zord.Base.Options.{◌>>=◌}
use zord.Datasets.Unique.{Unique}
use zord.Datasets.Argpartition.{Argpartition}
use zord.Base.Ratios.{Ratio}
use zord.Schedule.Dynamic.{partition_incremental}
use zord.Schedule.Dynamic.Migration.{placed_all, plan_incremental}

pub record GraphStats : Type 0 where
  pub clusterability : ℕ
  pub persistence : ℕ
  pub avg_degree : ℕ
  pub max_snapshot_nodes : ℕ

pub record StalenessPolicy : Type 0 where
  pub max_staleness_snapshots : ℕ
  pub drift_threshold : Ratio
  pub rebalance_budget : Ratio

pub record OnlineState : Type 0 where
  pub assignment : List ℕ
  pub last_stats : Option GraphStats
  pub processed_edges : ℕ
  pub staleness : ℕ
  pub total_migrated_bytes : ℕ

-- What a step uses of a plan of the scheduler: the assignment and the migration it carries.
pub record Scheduled : Type 0 where
  pub assignment : Option (List ℕ)
  pub incremental : Option (ℕ × ℕ)

pub data Reason : Type 0 where
  cold_start drift_over staleness_over reuse : Reason

pub record OnlineStep : Type 0 where
  pub schedule_plan : Option Scheduled
  pub rearranged : Bool
  pub drift : Ratio
  pub moved_vertices : ℕ
  pub reason : Reason

-- `_rel_shift`
unfoldable pub rel_shift : ℕ → ℕ → Ratio
rel_shift a b =
    let denom = max (max a b) 1 in record { num = min denom ((b - a) + (a - b)); den = denom }

unfoldable pub detect_drift : Option GraphStats → GraphStats → Ratio
unfolding rel_shift
detect_drift none cur = record { num = 1; den = 1 }
detect_drift (some prev) cur =
    let c = rel_shift prev.clusterability cur.clusterability in
    let p = rel_shift prev.persistence cur.persistence in
    let d = rel_shift prev.avg_degree cur.avg_degree in
    let m = rel_shift prev.max_snapshot_nodes cur.max_snapshot_nodes in
    let score =
      35 * c.num * (p.den * d.den * m.den)
      + 30 * p.num * (c.den * d.den * m.den)
      + 20 * d.num * (c.den * p.den * m.den)
      + 15 * m.num * (c.den * p.den * d.den) in
    let whole = 100 * (c.den * p.den * d.den * m.den) in
    record { num = min whole score; den = whole }

-- The current view of the stream.
pub record View : Type 0 where
  pub src : List ℕ
  pub dst : List ℕ
  pub num_nodes : ℕ
  pub stats : Option GraphStats

-- What stays the same from step to step.
pub record Setting : Type 0 where
  pub unique : Unique
  pub argpartition : Argpartition
  pub schedule_fn : Option (View → Option Scheduled → Option Scheduled)
  pub num_devices : ℕ
  pub feat_dim : ℕ
  pub policy : StalenessPolicy

-- `int(rebalance_budget * N)`
unfoldable pub budget_of : StalenessPolicy → ℕ → ℕ
budget_of policy n = policy.rebalance_budget.num * n / policy.rebalance_budget.den

-- The plan and its assignment; none of either where the scheduler is absent or fails.
unfoldable pub full_schedule :
    Setting → View → Option Scheduled → Option Scheduled × Option (List ℕ)
full_schedule s view prior_plan = elim s.schedule_fn [
  | none ↦ (none, none)
  | some schedule ↦ elim (schedule view prior_plan) [
    | none ↦ (none, none)
    | some plan ↦ (some plan, plan.assignment)
  ]
]

unfoldable pub cold_assignment : Setting → View → Option (List ℕ)
unfolding budget_of
cold_assignment s view = do
  a ←
      partition_incremental s.unique s.argpartition view.src view.dst view.num_nodes s.num_devices
        none 0 (budget_of s.policy view.num_nodes)
  placed_all a

unfoldable pub first_of {ℓ} : {A : Type ℓ} → Option A → Option A → Option A
first_of (some a) other = some a
first_of none other = other

-- `_migration_cost`: that of the plan, or the estimate.
unfoldable pub migration_cost : Scheduled → ℕ × ℕ → ℕ × ℕ
migration_cost plan inc = elim plan.incremental [ none ↦ inc | some cost ↦ cost ]

-- The plan, the assignment, the vertices that move and the bytes that migrate.
unfoldable pub refreshed :
    Option Scheduled × Option (List ℕ) → List ℕ → ℕ × ℕ → Option Scheduled × List ℕ × ℕ × ℕ
unfolding migration_cost
refreshed (some plan, some a) estimate inc =
    let (moved, migrated) = migration_cost plan inc in (some plan, a, moved, migrated)
refreshed _ estimate (moved, migrated) = (none, estimate, moved, migrated)

unfoldable pub refresh :
    Setting → View → Option Scheduled → ℕ → List ℕ → Option (Option Scheduled × List ℕ × ℕ × ℕ)
unfolding budget_of full_schedule refreshed
refresh s view prior_plan lo prior = do
  inc ←
      plan_incremental s.unique s.argpartition view.src view.dst view.num_nodes s.num_devices
        (some prior) lo (budget_of s.policy view.num_nodes) s.feat_dim
  some (
      refreshed (full_schedule s view prior_plan) inc.assignment
        (inc.moved_vertices, inc.migrated_bytes))

unfoldable pub drift_of : OnlineState → View → Ratio
unfolding detect_drift
drift_of state view = elim view.stats [
  | none ↦ record { num = 0; den = 1 }
  | some cur ↦ detect_drift state.last_stats cur
]

-- `drift > policy.drift_threshold`
unfoldable pub drift_trigger : StalenessPolicy → Ratio → Bool
drift_trigger policy drift =
    ltb (policy.drift_threshold.num * drift.den) (drift.num * policy.drift_threshold.den)

unfoldable pub over_staleness : StalenessPolicy → OnlineState → Bool
over_staleness policy state = ltb (max 1 policy.max_staleness_snapshots) (state.staleness + 1)

-- The new events are processed on the layout as it is; their dependency graph, which the code builds and
-- drops here, changes nothing.
unfoldable pub reuse_step : Ratio → View → Option Scheduled → OnlineState → OnlineStep × OnlineState
reuse_step drift view prior_plan state = (
  record {
    schedule_plan = prior_plan;
    rearranged = false;
    drift = drift;
    moved_vertices = 0;
    reason = reuse;
  },
  record state { processed_edges = length view.src; staleness = state.staleness + 1 },
)

-- The step and the state after a refresh.
unfoldable pub refreshed_step :
    Setting
    → Ratio
    → View
    → OnlineState
    → Option Scheduled × List ℕ × ℕ × ℕ
    → OnlineStep × OnlineState
unfolding drift_trigger
refreshed_step s drift view state (plan, a, moved, migrated) = (
  record {
    schedule_plan = plan;
    rearranged = true;
    drift = drift;
    moved_vertices = moved;
    reason = if drift_trigger s.policy drift then drift_over else staleness_over;
  },
  record {
    assignment = a;
    last_stats = view.stats;
    processed_edges = length view.src;
    staleness = 0;
    total_migrated_bytes = state.total_migrated_bytes + migrated;
  },
)

unfoldable pub refresh_step :
    Setting → Ratio → View → Option Scheduled → OnlineState → Option (OnlineStep × OnlineState)
unfolding refresh refreshed_step
refresh_step s drift view prior_plan state = do
  layout ← refresh s view prior_plan (min state.processed_edges (length view.src)) state.assignment
  some (refreshed_step s drift view state layout)

-- The step and the state after a cold start.
unfoldable pub cold_step : View → Option Scheduled → List ℕ → OnlineStep × OnlineState
cold_step view plan a = (
  record {
    schedule_plan = plan;
    rearranged = true;
    drift = record { num = 0; den = 1 };
    moved_vertices = length a;
    reason = cold_start;
  },
  record {
    assignment = a;
    last_stats = view.stats;
    processed_edges = length view.src;
    staleness = 0;
    total_migrated_bytes = 0;
  },
)

unfoldable pub online_step :
    Setting → Option OnlineState → View → Option Scheduled → Option (OnlineStep × OnlineState)
unfolding full_schedule cold_assignment first_of cold_step drift_of drift_trigger over_staleness
    reuse_step refresh_step
online_step s none view prior_plan = do
  let (plan, scheduled) = full_schedule s view prior_plan
  let cold = cold_assignment s view
  a ← first_of scheduled cold
  some (cold_step view plan a)
online_step s (some state) view prior_plan =
    let drift = drift_of state view in
    if over_staleness s.policy state || drift_trigger s.policy drift
    then refresh_step s drift view prior_plan state
    else some (reuse_step drift view prior_plan state)
