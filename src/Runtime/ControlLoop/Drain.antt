-- ===== src/Runtime/ControlLoop/Drain.antt =====
-- src/zord/runtime/control_loop.py: the drain at the end of `run` makes progress, and its guard is
-- enough.
use zord.Base.{
  ℕ, zero, suc, ◌+◌, ◌-◌, ◌*◌, ◌≤◌, ◌≡◌, true, false, none, arith, min, ltb, inl, inr, Bool-cases,
  subst, sym,
}
use zord.Runtime.ControlLoop.{
  LoopConfig, MemoryControlLoop, Running, high, low, usable, evict_budget, first_evict, hot_of,
  tick, run_tick, drain,
}

-- What a tick admits at least, when nothing is said of hot bytes.
abbrev pub rate : LoopConfig → ℕ
rate cfg = min (min (evict_budget cfg).0 (high cfg - low cfg)) (usable cfg - high cfg)

module _ (cfg : LoopConfig) where
  pub tick_progress :
      (incoming : ℕ) (s : MemoryControlLoop)
      → s.resident ≤ usable cfg
      → low cfg ≤ high cfg
      → (tick cfg incoming none s).1.deferred ≤ incoming - rate cfg
  unfolding tick first_evict hot_of
  tick_progress incoming s fits order = ground arith

  tick-ceiling :
      (incoming : ℕ) (s : MemoryControlLoop)
      → s.resident ≤ usable cfg
      → (tick cfg incoming none s).0.resident ≤ usable cfg
  unfolding tick
  tick-ceiling incoming s fits = ground arith

  module _ (guard : ℕ) (r : Running) where
    drain-more :
        ltb 100 r.carry ≡ true
        → drain cfg (suc guard) r ≡ drain cfg guard (run_tick cfg r.carry none r)
    unfolding drain
    drain-more e = rw (e, drain)

    drain-done : ltb 100 r.carry ≡ false → drain cfg (suc guard) r ≡ r
    unfolding drain
    drain-done e = rw (e, drain)

  -- With the low watermark at most the high one, each round of the drain admits the rate at least,
  -- so a guard that covers the carry at that rate leaves at most one byte deferred.
  pub drain_ends :
      (guard : ℕ) (r : Running)
      → low cfg ≤ high cfg
      → r.loop.resident ≤ usable cfg
      → r.carry ≤ guard * rate cfg + 100
      → (drain cfg guard r).carry ≤ 100
  unfolding run_tick tick drain
  drain_ends zero r order fits enough = omega arith
  drain_ends (suc guard) r order fits enough = elim (Bool-cases (ltb 100 r.carry)) [
    | inl more ↦
        subst (λ q. q.carry ≤ 100) (sym (drain-more guard r more))
          (drain_ends guard (run_tick cfg r.carry none r) order (tick-ceiling r.carry r.loop fits)
            (omega (arith, tick_progress r.carry r.loop fits order, enough)))
    | inr less ↦ subst (λ q. q.carry ≤ 100) (sym (drain-done guard r less)) (ground arith)
  ]
