-- ===== src/Runtime/BufferPool/Window.antt =====
-- src/zord/runtime/bufferpool.py: the access order of the window schedule, and the pool of a device.
use zord.Base.{
  ℕ, zero, suc, ◌+◌, ◌-◌, ◌*◌, ◌/◌, ◌≤◌, ◌<◌, ◌≡◌, refl, true, Option, none, some, List, [], ◌∷◌,
  ◌++◌, arith, ltb, leb, if◌then◌else◌, length, max, min, All, All-append, length-append, ap, ◌&&◌,
  ◌∙◌,
}
use native.Mathlib.Nat.{le-div_iff_mul-le, div-mul-le_self}
use zord.Base.Ranges.{
  range_step, range_up, range_up-bounds, length-range_up, starts-bounds, range_step-first,
}
use zord.Schedule.Memory.{Workload, MemoryPlan}
use zord.Runtime.BufferPool.Plan.{
  Policy, belady, BufferPool, init, Binary, absent, BufferPoolPlan, plan_schedule,
}

unfoldable pub stride_of : Option ℕ → ℕ → ℕ
stride_of none w = w
stride_of (some zero) w = w
stride_of (some (suc n)) w = suc n

unfoldable pub starts : ℕ → ℕ → ℕ → List ℕ
unfolding range_step
starts s w stride = let stop = max 1 (s + 1 - w) in range_step stop 0 stop (max 1 stride)

-- The loop over `starts`: `one_epoch.extend(range(s, min(s + w, S)))`
unfoldable pub epoch : ℕ → ℕ → List ℕ → List ℕ
unfolding range_up
epoch s w [] = []
epoch s w (i ∷ is') = range_up i (min (i + w) s - i) ++ epoch s w is'

unfoldable pub or_all : ℕ → List ℕ → List ℕ
or_all s [] = range_up 0 s
or_all s (u ∷ us) = u ∷ us

unfoldable pub repeat : ℕ → List ℕ → List ℕ
repeat zero us = []
repeat (suc n) us = us ++ repeat n us

unfoldable pub window_access_sequence : ℕ → ℕ → Option ℕ → ℕ → List ℕ
unfolding stride_of starts epoch or_all repeat range_up
window_access_sequence num_snapshots window stride num_epochs =
    let s = max 1 num_snapshots in
    let w = max 1 window in
    repeat (max 1 num_epochs) (or_all s (epoch s w (starts s w (stride_of stride w))))

epoch-bounds : (s w : ℕ) (is' : List ℕ) → All (λ i. i < s) is' → All (λ u. u < s) (epoch s w is')
unfolding epoch
epoch-bounds s w [] h = tt
epoch-bounds s w (i ∷ is') h =
    All-append (λ u. u < s) _ _ (range_up-bounds i (min (i + w) s - i) s (omega (arith, h.0)))
      (epoch-bounds s w is' h.1)

or_all-bounds : (s : ℕ) (us : List ℕ) → All (λ u. u < s) us → All (λ u. u < s) (or_all s us)
unfolding or_all
or_all-bounds s [] h = range_up-bounds 0 s s (omega arith)
or_all-bounds s (u ∷ us) h = h

repeat-bounds : (n s : ℕ) (us : List ℕ) → All (λ u. u < s) us → All (λ u. u < s) (repeat n us)
unfolding repeat
repeat-bounds zero s us h = tt
repeat-bounds (suc n) s us h = All-append (λ u. u < s) us _ h (repeat-bounds n s us h)

All-weaken : (a b : ℕ) (us : List ℕ) → a ≤ b → All (λ u. u < a) us → All (λ u. u < b) us
All-weaken a b [] h p = tt
All-weaken a b (u ∷ us) h p = (omega (arith, p.0), All-weaken a b us h p.1)

-- Every accessed id is a snapshot, so a per-snapshot array of bytes covers the sequence.
pub window_access_sequence-bounds :
    (num_snapshots window : ℕ) (stride : Option ℕ) (num_epochs : ℕ)
    → All
        (λ u. u < max 1 num_snapshots)
        (window_access_sequence num_snapshots window stride num_epochs)
unfolding window_access_sequence
window_access_sequence-bounds num_snapshots window stride num_epochs =
    let s = max 1 num_snapshots in
    let w = max 1 window in
    let step = stride_of stride w in
    repeat-bounds (max 1 num_epochs) s _ (
      or_all-bounds s _ (
        epoch-bounds s w _ (
          All-weaken (max 1 (s + 1 - w)) s _ (omega arith)
            (starts-bounds (max 1 (s + 1 - w)) 0 (max 1 (s + 1 - w)) (max 1 step)))))

length-epoch :
    (s w : ℕ) (is' : List ℕ)
    → w ≤ s
    → All (λ i. i < s + 1 - w) is'
    → length (epoch s w is') ≡ length is' * w
unfolding epoch
length-epoch s w [] le h = omega arith
length-epoch s w (i ∷ is') le h = ground (
  arith,
  length-append (range_up i (min (i + w) s - i)) (epoch s w is'),
  length-range_up i (min (i + w) s - i),
  length-epoch s w is' le h.1,
  h.0,
)

length-repeat : (n : ℕ) (us : List ℕ) → length (repeat n us) ≡ n * length us
unfolding repeat
length-repeat zero us = omega arith
length-repeat (suc n) us = grind (arith, length-append us (repeat n us), length-repeat n us)

or_all_same : (s : ℕ) (us : List ℕ) → 0 < length us → or_all s us ≡ us
unfolding or_all
or_all_same s [] h = elim h [ ]
or_all_same s (u ∷ us) h = refl

-- A window that fits the snapshots is read whole at each of its starts, once in every epoch.
pub length-window_access_sequence :
    (num_snapshots window : ℕ) (stride : Option ℕ) (num_epochs : ℕ)
    → 0 < window
    → window ≤ num_snapshots
    → length (window_access_sequence num_snapshots window stride num_epochs)
      ≡ max 1 num_epochs * (length (starts num_snapshots window (stride_of stride window)) * window)
unfolding window_access_sequence
length-window_access_sequence num_snapshots window stride num_epochs pos le =
    let s : max 1 num_snapshots ≡ num_snapshots = omega arith in
    let w : max 1 window ≡ window = omega arith in
    rw (s, w)
      (length-repeat (max 1 num_epochs) _
        ∙ ap (λ n. max 1 num_epochs * n) (ap length (or_all_same num_snapshots _ full) ∙ whole))
  where
    is' : List ℕ
    is' = starts num_snapshots window (stride_of stride window)

    stop : max 1 (num_snapshots + 1 - window) ≡ num_snapshots + 1 - window
    stop = omega arith

    whole : length (epoch num_snapshots window is') ≡ length is' * window
    whole = length-epoch num_snapshots window is' le (
        unfold starts in
        All-weaken (max 1 (num_snapshots + 1 - window)) (num_snapshots + 1 - window) _ (omega arith)
          (starts-bounds (max 1 (num_snapshots + 1 - window)) 0 (max 1 (num_snapshots + 1 - window))
            (max 1 (stride_of stride window))))

    some_start : 0 < length is'
    some_start =
        unfold starts in
        range_step-first (max 1 (num_snapshots + 1 - window)) (max 1 (num_snapshots + 1 - window))
          (max 1 (stride_of stride window)) (omega arith) (omega arith)

    full : 0 < length (epoch num_snapshots window is')
    full = grind (arith, whole, some_start)

-- The pool of a device: its planned peak is the capacity, and a unit is the peak's share of one
-- snapshot of the window, or the bytes of one snapshot's state where there is no peak.
unfoldable pub unit_bytes_of : MemoryPlan → Workload → ℕ → ℕ
unit_bytes_of p w win =
    if ltb 0 p.peak_hbm_bytes && leb 1 win
    then max 1 (p.peak_hbm_bytes / max 1 win)
    else max 1 (
        max 1 p.work_nodes * w.feat_dim * w.bytes_per_feat * (1 + w.layers)
        + p.work_edges * w.bytes_per_edge)

unfoldable pub or_else {ℓ} : {A : Type ℓ} → Option A → A → A
or_else none d = d
or_else (some a) d = a

-- `int(window) if window is not None else int(getattr(w, "window", 1) or 1)`
unfoldable pub window_of : Option ℕ → ℕ → ℕ
window_of (some win) own = win
window_of none zero = 1
window_of none (suc n) = suc n

unfoldable pub pool_of : MemoryPlan → Workload → Option ℕ → Option Policy → BufferPool
unfolding unit_bytes_of or_else window_of init
pool_of p w window policy =
    init (if ltb 0 p.peak_hbm_bytes then p.peak_hbm_bytes else p.capacity_bytes)
      (unit_bytes_of p w (window_of window w.window)) (or_else policy belady)

unfoldable pub pool_from_plan :
    MemoryPlan
    → Workload
    → Binary
    → ℕ
    → Option ℕ
    → Option ℕ
    → ℕ
    → Option Policy
    → Option BufferPoolPlan
unfolding pool_of window_access_sequence
pool_from_plan p w binary num_snapshots window stride num_epochs policy =
    plan_schedule (pool_of p w window policy) binary
      (window_access_sequence num_snapshots (window_of window w.window) stride num_epochs) absent

share-fits : (p n : ℕ) → n ≤ p → 0 < n → n ≤ p / max 1 (max 1 (p / max 1 n))
share-fits p n le pos =
    let q : max 1 n ≡ n = omega arith in
    let one : 0 < p / n = (le-div_iff_mul-le pos).1 (omega arith) in
    let r : max 1 (max 1 (p / n)) ≡ p / n = omega arith in
    rw (q, r) ((le-div_iff_mul-le one).1 (grind (arith, div-mul-le_self p n)))

-- The pool of a device whose planned peak has a byte for each snapshot of the window has a slot for
-- each of them.
pub window-le-num_slots :
    (p : MemoryPlan) (w : Workload) (window : Option ℕ) (policy : Option Policy)
    → 0 < window_of window w.window
    → window_of window w.window ≤ p.peak_hbm_bytes
    → window_of window w.window ≤ (pool_of p w window policy).num_slots
unfolding pool_of unit_bytes_of init
window-le-num_slots p w window policy pos le =
    let a : ltb 0 p.peak_hbm_bytes ≡ true = ground arith in
    let b : leb 1 (window_of window w.window) ≡ true = ground arith in
    rw (a, b) (omega (arith, share-fits p.peak_hbm_bytes (window_of window w.window) le pos))
