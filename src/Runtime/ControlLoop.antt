-- ===== src/Runtime/ControlLoop.antt =====
-- src/zord/runtime/control_loop.py. The floats are scaled integers: an amount of memory is in
-- hundredths of a byte, a fraction in percent, a bandwidth in tenths of a GB/s, the control period in
-- milliseconds, so every product of the loop is exact. A difference is taken on the naturals where
-- the code keeps it nonnegative, which for the eviction target asks that low_frac ≤ high_frac.
pub mod Safety
pub mod Drain
pub mod Tests
use zord.Base.{
  ℕ, zero, suc, ◌+◌, ◌-◌, ◌*◌, Bool, true, false, ◌&&◌, ◌||◌, Option, none, some, List, [], ◌∷◌,
  ◌++◌, min, max, ltb, leb, ◌==◌, not, if◌then◌else◌, get_elem?, sum, map,
}
use zord.Base.Int.{ℤ, sub_ℕ}

pub record LoopConfig : Type 0 where
  pub cap_bytes : ℕ
  pub high_frac : ℕ
  pub low_frac : ℕ
  pub headroom_frac : ℕ
  pub tick_ms : ℕ
  pub fill_bw : ℕ
  pub host_evict_bw : ℕ
  pub buffer_gpu_bw : Option ℕ
  pub host_cap_bytes : ℕ

abbrev pub capacity : LoopConfig → ℕ
capacity cfg = 100 * cfg.cap_bytes

abbrev pub high : LoopConfig → ℕ
high cfg = cfg.high_frac * cfg.cap_bytes

abbrev pub low : LoopConfig → ℕ
low cfg = cfg.low_frac * cfg.cap_bytes

-- `(1.0 - headroom_frac) * cap_bytes`; nothing above a headroom of 100%.
abbrev pub usable : LoopConfig → ℕ
usable cfg = (100 - cfg.headroom_frac) * cfg.cap_bytes

pub data SpillTier : Type 0 where
  no_spill host buffer_gpu : SpillTier

pub record TickResult : Type 0 where
  pub step : ℕ
  pub admitted : ℕ
  pub deferred : ℕ
  pub evicted : ℕ
  pub spill_tier : SpillTier
  pub resident_after : ℕ
  pub backpressure : Bool
  pub oom : Bool
  pub headroom_after : ℤ

-- `self.resident`, `self.host`, `self.step`; `self.pinned` is never read.
pub record MemoryControlLoop : Type 0 where
  pub resident : ℕ
  pub host_bytes : ℕ
  pub step : ℕ

abbrev pub init : MemoryControlLoop
init = record { resident = 0; host_bytes = 0; step = 0 }

-- The buffer GPU, if there is one and it is faster than the host.
unfoldable pub evict_bw : LoopConfig → ℕ × SpillTier
evict_bw cfg = elim cfg.buffer_gpu_bw [
  | none ↦ (cfg.host_evict_bw, host)
  | some g ↦
      if ltb 0 g && ltb cfg.host_evict_bw g then (g, buffer_gpu) else (cfg.host_evict_bw, host)
]

-- `bw * 1e9 * tick_s`
unfoldable pub evict_budget : LoopConfig → ℕ × SpillTier
unfolding evict_bw
evict_budget cfg = let (bw, tier) = evict_bw cfg in (bw * cfg.tick_ms * 10000000, tier)

-- The eviction before the admission, from the resident bytes.
unfoldable pub first_evict : LoopConfig → ℕ → ℕ → ℕ → ℕ
first_evict cfg budget hot resident =
    if ltb (high cfg) resident then min (min (resident - low cfg) (resident - hot)) budget else 0

-- The eviction after a deferral; `evicted` is what has been evicted in this tick.
unfoldable pub second_evict : LoopConfig → ℕ → ℕ → ℕ → ℕ → ℕ → ℕ
second_evict cfg budget hot evicted deferred resident =
    if ltb 0 deferred && ltb evicted budget
    then min (min (budget - evicted) (resident - hot)) (resident - low cfg)
    else 0

unfoldable pub hot_of : LoopConfig → Option ℕ → ℕ → ℕ
hot_of cfg none resident = min resident (low cfg)
hot_of cfg (some hot) resident = hot

unfoldable pub tick : LoopConfig → ℕ → Option ℕ → MemoryControlLoop → MemoryControlLoop × TickResult
unfolding evict_budget first_evict second_evict hot_of
tick cfg incoming hot_bytes s =
    let (budget, tier) = evict_budget cfg in
    let hot = hot_of cfg hot_bytes s.resident in
    let ev = first_evict cfg budget hot s.resident in
    let made = s.resident - ev in
    let admit = min incoming (usable cfg - made) in
    let deferred = incoming - admit in
    let filled = made + admit in
    let ev2 = second_evict cfg budget hot ev deferred filled in
    let left = filled - ev2 in
    let spilled = s.host_bytes + ev + ev2 in
    (
      record { resident = left; host_bytes = spilled; step = s.step + 1 },
      record {
        step = s.step + 1;
        admitted = admit;
        deferred = deferred;
        evicted = ev + ev2;
        spill_tier = if ltb 0 (ev + ev2) then tier else no_spill;
        resident_after = left;
        backpressure = ltb 0 deferred;
        oom = ltb (capacity cfg) left || ltb (100 * cfg.host_cap_bytes) spilled;
        headroom_after = sub_ℕ (capacity cfg) left;
      },
    )

-- `hot_stream[i] if hot_stream is not None else None`; the outer `none` is the IndexError.
unfoldable pub hot_at : Option (List ℕ) → ℕ → Option (Option ℕ)
hot_at none i = some none
hot_at (some hots) i = elim (get_elem? hots i) [ none ↦ none | some h ↦ some (some h) ]

-- The state of the loops of `run`: the object, the carry, and the ticks so far.
pub record Running : Type 0 where
  pub loop : MemoryControlLoop
  pub carry : ℕ
  pub ticks : List TickResult

unfoldable pub run_tick : LoopConfig → ℕ → Option ℕ → Running → Running
run_tick cfg incoming hot r =
    let (s, res) = tick cfg incoming hot r.loop in
    record { loop = s; carry = res.deferred; ticks = r.ticks ++ res ∷ [] }

unfoldable pub run_stream : LoopConfig → Option (List ℕ) → ℕ → List ℕ → Running → Option Running
unfolding hot_at run_tick
run_stream cfg hots i [] r = some r
run_stream cfg hots i (inc ∷ incoming) r = elim (hot_at hots i) [
  | none ↦ none
  | some hot ↦ run_stream cfg hots (i + 1) incoming (run_tick cfg (inc + r.carry) hot r)
]

-- `while carry > 1.0 and guard < 100000`: the fuel is the rounds that the guard leaves.
unfoldable pub drain : LoopConfig → ℕ → Running → Running
drain cfg zero r = r
drain cfg (suc guard) r = elim (ltb 100 r.carry) [
  | true ↦ drain cfg guard (run_tick cfg r.carry none r)
  | false ↦ r
]

unfoldable pub run : LoopConfig → List ℕ → Option (List ℕ) → MemoryControlLoop → Option Running
unfolding run_stream drain
run cfg incoming hots s =
    elim (run_stream cfg hots 0 incoming (record { loop = s; carry = 0; ticks = [] })) [
      | none ↦ none
      | some r ↦ some (drain cfg 100000 r)
    ]

-- The properties of `LoopTrace`.
unfoldable pub any_oom : List TickResult → Bool
any_oom [] = false
any_oom (t ∷ ticks) = t.oom || any_oom ticks

unfoldable pub peak_resident : List TickResult → ℕ
peak_resident [] = 0
peak_resident (t ∷ ticks) = max t.resident_after (peak_resident ticks)

unfoldable pub total_evicted : List TickResult → ℕ
total_evicted [] = 0
total_evicted (t ∷ ticks) = t.evicted + total_evicted ticks

unfoldable pub total_deferred : List TickResult → ℕ
total_deferred [] = 0
total_deferred (t ∷ ticks) = t.deferred + total_deferred ticks

unfoldable pub backpressure_ticks : List TickResult → ℕ
backpressure_ticks [] = 0
backpressure_ticks (t ∷ ticks) = (if t.backpressure then 1 else 0) + backpressure_ticks ticks
