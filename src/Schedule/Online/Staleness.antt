-- ===== src/Schedule/Online/Staleness.antt =====
-- src/zord/schedule/dynamic_online.py: the staleness of a layout is bounded, in a step and in a stream.
use zord.Base.{
  ℕ, ◌+◌, ◌≤◌, ◌≡◌, refl, sym, subst, Bool, true, false, ◌||◌, Option, none, some, some-injective,
  List, [], ◌∷◌, length, arith, inl, inr, ◌⊎◌, Bool-cases, if◌then◌else◌, ltb, max, min,
}
use zord.Base.Options.{bind-some}
use zord.Datasets.Numpy.{Numpy, gather}
use zord.Base.Ratios.{Ratio}
use zord.Schedule.Online.{
  OnlineState, OnlineStep, Scheduled, View, Setting, StalenessPolicy, online_step, refresh_step,
  refresh, reuse_step, drift_of, drift_trigger, over_staleness, full_schedule, cold_assignment,
  first_of,
}
use zord.Schedule.Online.Stream.{
  StreamTrace, WindowStats, staleness_from, max_staleness, run_windows, run_stream, view_at,
  window_size, window_bounds,
}

-- How many windows a layout may serve after the one that it was made for.
abbrev pub limit : StalenessPolicy → ℕ
limit policy = max 1 policy.max_staleness_snapshots

-- The layout is made again, or it is kept as it is within the bound.
abbrev pub Stepped : StalenessPolicy → OnlineState → OnlineStep → OnlineState → Type 0
Stepped policy state step state' =
    ((step.rearranged ≡ true) × (state'.staleness ≡ 0))
    ⊎ ((step.rearranged ≡ false)
        × (step.moved_vertices ≡ 0)
        × (state'.assignment ≡ state.assignment)
        × (state'.total_migrated_bytes ≡ state.total_migrated_bytes)
        × (state'.staleness ≡ state.staleness + 1)
        × (state'.staleness ≤ limit policy))

kept_within :
    (policy : StalenessPolicy) (st : OnlineState) (drift : Ratio)
    → (over_staleness policy st || drift_trigger policy drift) ≡ false
    → st.staleness + 1 ≤ limit policy
unfolding over_staleness
kept_within policy st drift k =
    elim (Bool-cases (ltb (max 1 policy.max_staleness_snapshots) (st.staleness + 1))) [
      | inl over ↦ absurd (let q = rw over at k in cc)
      | inr fine ↦ ground arith
    ]

refresh_step-again :
    (s : Setting) (drift : Ratio) (view : View) (prior_plan : Option Scheduled)
    (state : OnlineState) (step : OnlineStep) (state' : OnlineState)
    → refresh_step s drift view prior_plan state ≡ some (step, state')
    → (step.rearranged ≡ true) × (state'.staleness ≡ 0)
unfolding refresh_step
refresh_step-again s drift view prior_plan state step state' e =
    let (layout, done, q) =
      bind-some
        (refresh s view prior_plan (min state.processed_edges (length view.src)) state.assignment) _
        (step, state') e in
    let r = some-injective _ _ q in
    subst (λ p. (p.0.rearranged ≡ true) × (p.1.staleness ≡ 0)) r (refl, refl)

-- A step on a state makes the layout again, with a staleness of 0, or moves and migrates nothing,
-- keeps the layout, and adds one to the staleness, which stays within the bound of the policy.
pub online_step-Stepped :
    (s : Setting) (state : OnlineState) (view : View) (prior_plan : Option Scheduled)
    (step : OnlineStep) (state' : OnlineState)
    → online_step s (some state) view prior_plan ≡ some (step, state')
    → Stepped s.policy state step state'
unfolding online_step
online_step-Stepped s state view prior_plan step state' e =
    let drift = drift_of state view in
    elim (Bool-cases (over_staleness s.policy state || drift_trigger s.policy drift)) [
      | inl again ↦
          let done : refresh_step s drift view prior_plan state ≡ some (step, state') =
            rw again at e in
          inl (refresh_step-again s drift view prior_plan state step state' done)
      | inr keep ↦
          let same : some (reuse_step drift view prior_plan state) ≡ some (step, state') =
            rw keep at e in
          let q = some-injective _ _ same in
          inr (
            subst
              (λ r.
                (r.0.rearranged ≡ false)
                × (r.0.moved_vertices ≡ 0)
                × (r.1.assignment ≡ state.assignment)
                × (r.1.total_migrated_bytes ≡ state.total_migrated_bytes)
                × (r.1.staleness ≡ state.staleness + 1)
                × (r.1.staleness ≤ limit s.policy))
              q (refl, refl, refl, refl, refl, kept_within s.policy state drift keep))
    ]

-- The first step makes a layout.
cold-rearranged :
    (s : Setting) (view : View) (prior_plan : Option Scheduled) (step : OnlineStep)
    (state' : OnlineState)
    → online_step s none view prior_plan ≡ some (step, state')
    → (step.rearranged ≡ true) × (state'.staleness ≡ 0)
unfolding online_step
cold-rearranged s view prior_plan step state' e =
    let scheduled = (full_schedule s view prior_plan).1 in
    let (a, found, q) =
      bind-some (first_of scheduled (cold_assignment s view)) _ (step, state') e in
    let r = some-injective _ _ q in
    subst (λ p. (p.0.rearranged ≡ true) × (p.1.staleness ≡ 0)) r (refl, refl)

staleness-again :
    (st mx m : ℕ) (step : OnlineStep) (steps : List OnlineStep)
    → step.rearranged ≡ true
    → staleness_from 0 (max mx 0) steps ≤ m
    → staleness_from st mx (step ∷ steps) ≤ m
unfolding staleness_from
staleness-again st mx m step steps again h =
    subst (λ b. (let st' = if b then 0 else st + 1 in staleness_from st' (max mx st') steps ≤ m))
      (sym again) h

staleness-kept :
    (st mx m : ℕ) (step : OnlineStep) (steps : List OnlineStep)
    → step.rearranged ≡ false
    → staleness_from (st + 1) (max mx (st + 1)) steps ≤ m
    → staleness_from st mx (step ∷ steps) ≤ m
unfolding staleness_from
staleness-kept st mx m step steps keep h =
    subst (λ b. (let st' = if b then 0 else st + 1 in staleness_from st' (max mx st') steps ≤ m))
      (sym keep) h

-- From a state on, the staleness of the steps and what has been is the greatest.
run_windows-bounded :
    (s : Setting) (view : ℕ → View) (bounds : List ℕ) (state : OnlineState)
    (prior_plan : Option Scheduled) (trace : StreamTrace) (mx : ℕ)
    → run_windows s view bounds (some state) prior_plan ≡ some trace
    → mx ≤ limit s.policy
    → staleness_from state.staleness mx trace.steps ≤ limit s.policy
unfolding run_windows staleness_from
run_windows-bounded s view [] state prior_plan trace mx e le =
    subst (λ t. staleness_from state.staleness mx t.steps ≤ limit s.policy) (some-injective _ _ e)
      le
run_windows-bounded s view (hi ∷ bounds) state prior_plan trace mx e le =
    let ((step, state'), stepped, e1) =
      bind-some (online_step s (some state) (view hi) prior_plan) _ trace e in
    let (rest, done, e2) =
      bind-some (run_windows s view bounds (some state') (first_of step.schedule_plan prior_plan)) _
        trace e1 in
    subst (λ t. staleness_from state.staleness mx t.steps ≤ limit s.policy) (some-injective _ _ e2)
      (elim (online_step-Stepped s state (view hi) prior_plan step state' stepped) [
        | inl (again, zero_now) ↦
            let ih =
              run_windows-bounded s view bounds state' (first_of step.schedule_plan prior_plan) rest
                (max mx 0) done (omega (arith, le)) in
            staleness-again state.staleness mx (limit s.policy) step rest.steps again
              (subst (λ k. staleness_from k (max mx 0) rest.steps ≤ limit s.policy) zero_now ih)
        | inr (keep, still, same, bytes, one_more, within) ↦
            let ih =
              run_windows-bounded s view bounds state' (first_of step.schedule_plan prior_plan) rest
                (max mx (state.staleness + 1)) done (omega (arith, le, one_more, within)) in
            staleness-kept state.staleness mx (limit s.policy) step rest.steps keep (
              subst
                (λ k. staleness_from k (max mx (state.staleness + 1)) rest.steps ≤ limit s.policy)
                one_more ih)
      ])

from_cold :
    (s : Setting) (view : ℕ → View) (bounds : List ℕ) (prior_plan : Option Scheduled)
    (trace : StreamTrace)
    → run_windows s view bounds none prior_plan ≡ some trace
    → max_staleness trace ≤ limit s.policy
unfolding run_windows max_staleness staleness_from
from_cold s view [] prior_plan trace e =
    subst (λ t. staleness_from 0 0 t.steps ≤ limit s.policy) (some-injective _ _ e) (omega arith)
from_cold s view (hi ∷ bounds) prior_plan trace e =
    let ((step, state'), stepped, e1) =
      bind-some (online_step s none (view hi) prior_plan) _ trace e in
    let (rest, done, e2) =
      bind-some (run_windows s view bounds (some state') (first_of step.schedule_plan prior_plan)) _
        trace e1 in
    let (again, zero_now) = cold-rearranged s (view hi) prior_plan step state' stepped in
    let ih =
      run_windows-bounded s view bounds state' (first_of step.schedule_plan prior_plan) rest
        (max 0 0) done (omega arith) in
    subst (λ t. staleness_from 0 0 t.steps ≤ limit s.policy) (some-injective _ _ e2)
      (staleness-again 0 0 (limit s.policy) step rest.steps again
        (subst (λ k. staleness_from k (max 0 0) rest.steps ≤ limit s.policy) zero_now ih))

-- In a stream that the driver ends without an error, no layout serves more windows after the one that it was made for than the bound of the
-- policy, or one where that is less.
pub run_stream-bounded_staleness :
    (np : Numpy) (s : Setting) (window_stats : WindowStats) (src dst t : List ℕ)
    (n window_edges num_windows : ℕ) (growing : Bool) (trace : StreamTrace)
    → run_stream np s window_stats src dst t n window_edges num_windows growing ≡ some trace
    → max_staleness trace ≤ max 1 s.policy.max_staleness_snapshots
unfolding run_stream
run_stream-bounded_staleness np s window_stats src dst t n window_edges num_windows growing trace
      e =
    let order = np.argsort t in
    let (src', e1, r1) = bind-some (gather src order) _ trace e in
    let (dst', e2, r2) = bind-some (gather dst order) _ trace r1 in
    let (t', e3, r3) = bind-some (gather t order) _ trace r2 in
    let w = window_size window_edges num_windows (length src) in
    from_cold s (view_at window_stats growing w src' dst' t' n) (window_bounds w (length src)) none
      trace r3
