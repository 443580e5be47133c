-- ===== src/Schedule/Online/Migrated.antt =====
-- src/zord/schedule/dynamic_online.py: without the scheduler the driver of a stream returns, and what it
-- migrates is within the budget of its refreshes.
use zord.Base.{
  ℕ, suc, ◌+◌, ◌-◌, ◌*◌, ◌≤◌, ◌<◌, ◌≡◌, refl, ap, subst, Bool, ◌||◌, Option, none, some, List, [],
  ◌∷◌, length, All, arith, inl, inr, Bool-cases, if◌then◌else◌, min,
}
use zord.Base.Rows.{All-drop, All-slice}
use zord.Base.Ranges.{range_up-bounds}
use zord.Datasets.Numpy.{Numpy}
use zord.Datasets.Numpy.Gather.{gather_total, All-Permᴰ}
use zord.Base.Ratios.{Ratio}
use zord.Schedule.Dynamic.Total.{partition_incremental-total}
use zord.Schedule.Dynamic.Migration.{exact_match_max_dev}
use zord.Schedule.Dynamic.Budget.{placed_all_total, plan_incremental-within_budget, gather-All_of}
use zord.Schedule.Online.{
  OnlineState, OnlineStep, Scheduled, View, Setting, online_step, refresh_step, reuse_step,
  budget_of, drift_of, drift_trigger, over_staleness, full_schedule, cold_assignment, first_of,
  cold_step, refreshed_step,
}
use zord.Schedule.Online.Stream.{
  StreamTrace, WindowStats, refreshes, total_migrated_bytes, run_windows, run_stream, view_at,
  window_size, window_bounds,
}

-- The bytes that a refresh may migrate.
abbrev pub refresh_bytes : Setting → ℕ → ℕ
refresh_bytes s n = budget_of s.policy n * s.feat_dim * 4

full_schedule-absent :
    (s : Setting) (view : View) (prior_plan : Option Scheduled)
    → s.schedule_fn ≡ none
    → full_schedule s view prior_plan ≡ (none, none)
unfolding full_schedule
full_schedule-absent s view prior_plan absent =
    ap
      (λ f. elim f as (λ _. Option Scheduled × Option (List ℕ)) [
        | none ↦ (none, none)
        | some schedule ↦
            elim (schedule view prior_plan) as (λ _. Option Scheduled × Option (List ℕ)) [
              | none ↦ (none, none)
              | some plan ↦ (some plan, plan.assignment)
            ]
      ])
      absent

-- A view of the stream with its vertices in range.
abbrev InRange : ℕ → View → Type 0
InRange n view =
    (view.num_nodes ≡ n)
    × All (λ v. v < view.num_nodes) view.src
    × All (λ v. v < view.num_nodes) view.dst

add_up : (a b c x y k : ℕ) → a ≤ b + y * k → b ≤ c + x * k → a ≤ c + (x + y) * k
add_up a b c x y k h g = grind arith

module _ (s : Setting) (n : ℕ) (some_device : 0 < s.num_devices)
    (few : s.num_devices ≤ exact_match_max_dev) (absent : s.schedule_fn ≡ none) where
  -- A step returns, keeps the devices in range, and migrates within the budget if it makes the layout
  -- again.
  abbrev Advances : ℕ → OnlineStep → OnlineState → Type 0
  Advances before step state' =
      All (λ c. c < s.num_devices) state'.assignment
      × (state'.total_migrated_bytes
          ≤ before + (if step.rearranged then 1 else 0) * refresh_bytes s n)

  cold-Advances :
      (view : View) (prior_plan : Option Scheduled)
      → InRange n view
      → (step : OnlineStep) × (state' : OnlineState) × (online_step s none view prior_plan
          ≡ some (step, state'))
        × Advances 0 step state'
  unfolding online_step cold_assignment
  cold-Advances view prior_plan ok =
      let (a, done, len, homes) =
        partition_incremental-total s.unique s.argpartition view.src view.dst view.num_nodes
          s.num_devices none 0 (budget_of s.policy view.num_nodes) some_device ok.1 ok.2 tt in
      let (cur, placed, len', below) = placed_all_total a view.num_nodes s.num_devices len homes in
      let r = cold_step view none cur in
      (
        r.0,
        r.1,
        rw (full_schedule-absent s view prior_plan absent, done, placed, first_of) refl,
        (below, omega arith),
      )

  refresh_step-Advances :
      (view : View) (prior_plan : Option Scheduled) (drift : Ratio) (state : OnlineState)
      → InRange n view
      → All (λ c. c < s.num_devices) state.assignment
      → (step : OnlineStep) × (state' : OnlineState) × (refresh_step s drift view prior_plan state
          ≡ some (step, state'))
        × Advances state.total_migrated_bytes step state'
  unfolding refresh_step
  refresh_step-Advances view prior_plan drift state ok below =
      let lo = min state.processed_edges (length view.src) in
      let (plan, done, len, within, counted, few_moved, few_bytes) =
        plan_incremental-within_budget s.unique s.argpartition view.src view.dst view.num_nodes
          s.num_devices state.assignment lo (budget_of s.policy view.num_nodes) s.feat_dim
          some_device few ok.1 ok.2 below in
      let layout : Option Scheduled × List ℕ × ℕ × ℕ =
        (none, plan.assignment, plan.moved_vertices, plan.migrated_bytes) in
      let r = refreshed_step s drift view state layout in
      let fewer : plan.migrated_bytes ≤ refresh_bytes s n =
        subst (λ m. plan.migrated_bytes ≤ refresh_bytes s m) ok.0 few_bytes in
      (
        r.0,
        r.1,
        rw (done, full_schedule-absent s view prior_plan absent) refl,
        (within, omega (arith, fewer)),
      )

  online_step-Advances :
      (view : View) (prior_plan : Option Scheduled) (state : OnlineState)
      → InRange n view
      → All (λ c. c < s.num_devices) state.assignment
      → (step : OnlineStep) × (state' : OnlineState) × (online_step s (some state) view prior_plan
          ≡ some (step, state'))
        × Advances state.total_migrated_bytes step state'
  unfolding online_step
  online_step-Advances view prior_plan state ok below =
      let drift = drift_of state view in
      elim (Bool-cases (over_staleness s.policy state || drift_trigger s.policy drift)) [
        | inl again ↦ rw again (refresh_step-Advances view prior_plan drift state ok below)
        | inr keep ↦
            let r = reuse_step drift view prior_plan state in
            (r.0, r.1, rw keep refl, (below, omega arith))
      ]

  -- The loop returns, with a step for each window.
  run_windows-Advances :
      (view : ℕ → View) (bounds : List ℕ) (state : OnlineState) (prior_plan : Option Scheduled)
      → ((hi : ℕ) → InRange n (view hi))
      → All (λ c. c < s.num_devices) state.assignment
      → (trace : StreamTrace) × (run_windows s view bounds (some state) prior_plan ≡ some trace)
        × (length trace.steps ≡ length bounds)
        × (total_migrated_bytes trace
            ≤ state.total_migrated_bytes + refreshes trace.steps * refresh_bytes s n)
  unfolding run_windows refreshes total_migrated_bytes
  run_windows-Advances view [] state prior_plan ok below =
      (record { steps = []; final_state = some state }, refl, refl, omega arith)
  run_windows-Advances view (hi ∷ bounds) state prior_plan ok below =
      let (step, state', stepped, adv) =
        online_step-Advances (view hi) prior_plan state (ok hi) below in
      let (rest, done, len, total) =
        run_windows-Advances view bounds state' (first_of step.schedule_plan prior_plan) ok adv.0 in
      (
        record rest { steps = step ∷ rest.steps },
        rw (stepped, done) refl,
        ap suc len,
        add_up (total_migrated_bytes rest) state'.total_migrated_bytes state.total_migrated_bytes
            (if step.rearranged then 1 else 0) (refreshes rest.steps) (refresh_bytes s n) total
            adv.1,
      )

-- A view of columns in range is in range.
view_at-InRange :
    (window_stats : WindowStats) (growing : Bool) (w n : ℕ) (src dst t : List ℕ)
    → All (λ v. v < n) src
    → All (λ v. v < n) dst
    → (hi : ℕ) → InRange n (view_at window_stats growing w src dst t n hi)
unfolding view_at
view_at-InRange window_stats growing w n src dst t below below' hi =
    let lo = if growing then 0 else hi - w in
    (
      refl,
      All-slice (λ v. v < n) lo hi src (All-drop (λ v. v < n) lo src below),
      All-slice (λ v. v < n) lo hi dst (All-drop (λ v. v < n) lo dst below'),
    )

-- The loop from the start, with the bytes within the budget of the refreshes that are traced.
run_windows-cold :
    (s : Setting) (n : ℕ) (some_device : 0 < s.num_devices)
    (few : s.num_devices ≤ exact_match_max_dev) (absent : s.schedule_fn ≡ none) (view : ℕ → View)
    (bounds : List ℕ) (prior_plan : Option Scheduled)
    → ((hi : ℕ) → InRange n (view hi))
    → (trace : StreamTrace) × (run_windows s view bounds none prior_plan ≡ some trace)
      × (length trace.steps ≡ length bounds)
      × (total_migrated_bytes trace ≤ refreshes trace.steps * refresh_bytes s n)
unfolding run_windows refreshes total_migrated_bytes
run_windows-cold s n some_device few absent view [] prior_plan ok =
    (record { steps = []; final_state = none }, refl, refl, omega arith)
run_windows-cold s n some_device few absent view (hi ∷ bounds) prior_plan ok =
    let (step, state', stepped, adv) =
      cold-Advances s n some_device few absent (view hi) prior_plan (ok hi) in
    let (rest, done, len, total) =
      run_windows-Advances s n some_device few absent view bounds state'
        (first_of step.schedule_plan prior_plan) ok adv.0 in
    (
      record rest { steps = step ∷ rest.steps },
      rw (stepped, done) refl,
      ap suc len,
      subst (λ m. total_migrated_bytes rest ≤ m) (omega arith)
          (add_up (total_migrated_bytes rest) state'.total_migrated_bytes 0
            (if step.rearranged then 1 else 0) (refreshes rest.steps) (refresh_bytes s n) total
            adv.1),
    )

-- Without the scheduler, with at most six devices, with the vertices of the stream in range and with columns
-- of one length, the driver returns; it makes a step for each window, and the bytes that it counts as
-- migrated are at most those that the budget of one refresh allows, times the number of the refreshes.
pub run_stream-migrated :
    (np : Numpy) (s : Setting) (window_stats : WindowStats) (src dst t : List ℕ)
    (n window_edges num_windows : ℕ) (growing : Bool)
    → 0 < s.num_devices
    → s.num_devices ≤ exact_match_max_dev
    → s.schedule_fn ≡ none
    → length src ≡ length t
    → length dst ≡ length t
    → All (λ v. v < n) src
    → All (λ v. v < n) dst
    → (trace : StreamTrace) × (run_stream np s window_stats src dst t n window_edges num_windows
          growing
        ≡ some trace)
      × (length trace.steps
          ≡ length (window_bounds (window_size window_edges num_windows (length src)) (length src)))
      × (total_migrated_bytes trace
          ≤ refreshes trace.steps * (budget_of s.policy n * s.feat_dim * 4))
unfolding run_stream
run_stream-migrated np s window_stats src dst t n window_edges num_windows growing some_device few
      absent same same' below below' =
    let order = np.argsort t in
    let range : (k : ℕ) → length t ≤ k → All (λ i. i < k) order = λ k h.
      All-Permᴰ (λ i. i < k) (np.argsort_perm t)
        (range_up-bounds 0 (length t) k (omega (arith, h))) in
    let (src', done) = gather_total src order (range (length src) (omega arith)) in
    let (dst', done') = gather_total dst order (range (length dst) (omega arith)) in
    let (t', done'') = gather_total t order (range (length t) (omega arith)) in
    let w = window_size window_edges num_windows (length src) in
    let (trace, ran, len, bytes) =
      run_windows-cold s n some_device few absent (view_at window_stats growing w src' dst' t' n)
        (window_bounds w (length src)) none
        (view_at-InRange window_stats growing w n src' dst' t'
          (gather-All_of (λ v. v < n) src order src' below done)
          (gather-All_of (λ v. v < n) dst order dst' below' done')) in
    (trace, rw (done, done', done'', ran) refl, len, bytes)
