-- ===== src/Schedule/Online/Stream.antt =====
-- src/zord/schedule/dynamic_online.py: the driver of a stream, window by window. The statistics of a
-- window, which sample the graph, are a parameter.
use zord.Base.{
  ℕ, ◌+◌, ◌-◌, ◌/◌, Bool, false, Option, none, some, List, [], ◌∷◌, ◌++◌, ◌==◌, if◌then◌else◌, ltb,
  length, max,
}
use zord.Base.Options.{◌>>=◌}
use zord.Base.Ranges.{range_step}
use zord.Base.Rows.{slice}
use zord.Datasets.Numpy.{Numpy, gather}
use zord.Schedule.Online.{
  GraphStats, OnlineState, OnlineStep, Scheduled, View, Setting, online_step, first_of,
}

-- The figures that the drift is measured by, of a window in its columns.
abbrev pub WindowStats : Type 0
WindowStats = List ℕ → List ℕ → List ℕ → ℕ → Option GraphStats

-- The drifts of the trace, which are those of its steps, are left out.
pub record StreamTrace : Type 0 where
  pub steps : List OnlineStep
  pub final_state : Option OnlineState

unfoldable pub refreshes : List OnlineStep → ℕ
refreshes [] = 0
refreshes (step ∷ steps) = (if step.rearranged then 1 else 0) + refreshes steps

unfoldable pub reuses : List OnlineStep → ℕ
reuses [] = 0
reuses (step ∷ steps) = (if step.rearranged then 0 else 1) + reuses steps

unfoldable pub total_migrated_bytes : StreamTrace → ℕ
total_migrated_bytes tr = elim tr.final_state [ none ↦ 0 | some state ↦ state.total_migrated_bytes ]

-- The loop of `max_staleness`, from a staleness and a maximum on.
unfoldable pub staleness_from : ℕ → ℕ → List OnlineStep → ℕ
staleness_from st mx [] = mx
staleness_from st mx (step ∷ steps) =
    let st' = if step.rearranged then 0 else st + 1 in staleness_from st' (max mx st') steps

unfoldable pub max_staleness : StreamTrace → ℕ
unfolding staleness_from
max_staleness tr = staleness_from 0 0 tr.steps

-- `W`
unfoldable pub window_size : ℕ → ℕ → ℕ → ℕ
window_size window_edges num_windows e =
    if ltb 0 window_edges then window_edges else max 1 (e / max 1 num_windows)

unfoldable pub ends_with : ℕ → List ℕ → Bool
ends_with e [] = false
ends_with e (b ∷ []) = b == e
ends_with e (b ∷ c ∷ bounds) = ends_with e (c ∷ bounds)

-- The ends of the windows.
unfoldable pub window_bounds : ℕ → ℕ → List ℕ
unfolding range_step ends_with
window_bounds w e =
    let bounds = range_step (e + 1) w (e + 1) w in
    if ends_with e bounds then bounds else bounds ++ (e ∷ [])

unfoldable pub view_at : WindowStats → Bool → ℕ → List ℕ → List ℕ → List ℕ → ℕ → ℕ → View
view_at window_stats growing w src dst t n hi =
    let lo = if growing then 0 else hi - w in
    record {
      src = slice lo hi src;
      dst = slice lo hi dst;
      num_nodes = n;
      stats = window_stats (slice lo hi src) (slice lo hi dst) (slice lo hi t) n;
    }

-- The loop over the windows, with the state and the plan so far.
unfoldable pub run_windows :
    Setting → (ℕ → View) → List ℕ → Option OnlineState → Option Scheduled → Option StreamTrace
unfolding online_step first_of
run_windows s view [] state prior_plan = some (record { steps = []; final_state = state })
run_windows s view (hi ∷ bounds) state prior_plan = do
  (step, state') ← online_step s state (view hi) prior_plan
  rest ← run_windows s view bounds (some state') (first_of step.schedule_plan prior_plan)
  some (record rest { steps = step ∷ rest.steps })

unfoldable pub run_stream :
    Numpy → Setting → WindowStats → List ℕ → List ℕ → List ℕ → ℕ → ℕ → ℕ → Bool → Option StreamTrace
unfolding gather window_size window_bounds view_at run_windows
run_stream np s window_stats src dst t n window_edges num_windows growing = do
  let order = np.argsort t
  src' ← gather src order
  dst' ← gather dst order
  t' ← gather t order
  let w = window_size window_edges num_windows (length src)
  run_windows s (view_at window_stats growing w src' dst' t' n) (window_bounds w (length src)) none
      none
