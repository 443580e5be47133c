-- ===== src/Runtime/ControlLoop/Safety.antt =====
-- src/zord/runtime/control_loop.py: what a tick and a run keep.
use zord.Base.{
  ℕ, zero, suc, ◌+◌, ◌-◌, ◌*◌, ◌≤◌, ◌<◌, ◌≡◌, ◌↔◌, refl, true, false, Option, none, some, List, [],
  ◌||◌, subst, some-injective, scale-le, ◌∷◌, ◌++◌, arith, min, max, ltb, sum, Option-cases, inl,
  inr,
}
use zord.Runtime.ControlLoop.{
  LoopConfig, MemoryControlLoop, TickResult, Running, capacity, high, low, usable, evict_budget,
  first_evict, second_evict, hot_of, tick, run_tick, run_stream, drain, run, hot_at, any_oom,
  peak_resident, init,
}

-- What a tick promises.
pub record Ticked (cfg : LoopConfig) (incoming : ℕ) (hot : Option ℕ) (s t : MemoryControlLoop)
    (r : TickResult) : Type 0 where
  pub admission : r.admitted + r.deferred ≡ incoming
  pub resident_bytes : t.resident + r.evicted ≡ s.resident + r.admitted
  pub host_bytes : t.host_bytes ≡ s.host_bytes + r.evicted
  pub bandwidth : r.evicted ≤ (evict_budget cfg).0
  pub hot_stays : min (hot_of cfg hot s.resident) s.resident ≤ t.resident
  pub ceiling : t.resident ≤ max s.resident (usable cfg)
  pub pressed : (r.backpressure ≡ true) ↔ (0 < r.deferred)
  pub reported : r.resident_after ≡ t.resident

module _ (cfg : LoopConfig) (incoming : ℕ) (hot : Option ℕ) (s : MemoryControlLoop)
    (order : low cfg ≤ high cfg) where
  -- With the low watermark at most the high one, a tick splits the incoming bytes into admitted and deferred ones, moves exactly the evicted bytes
  -- to the host within the bandwidth budget, leaves the resident hot bytes, keeps the resident bytes
  -- under the larger of what they were and the usable ceiling, and reports backpressure exactly when
  -- it defers.
  pub tick-Ticked :
      Ticked cfg incoming hot s (tick cfg incoming hot s).0 (tick cfg incoming hot s).1
  unfolding tick first_evict second_evict
  tick-Ticked = record {
    admission = ground arith;
    resident_bytes = ground arith;
    host_bytes = ground arith;
    bandwidth = ground arith;
    hot_stays = ground arith;
    ceiling = ground arith;
    pressed = ground arith;
    reported = ground arith;
  }

any_oom-append :
    (xs : List TickResult) (t : TickResult) → any_oom (xs ++ t ∷ []) ≡ any_oom xs || t.oom
unfolding any_oom
any_oom-append [] t = ground arith
any_oom-append (x ∷ xs) t = ground (arith, any_oom-append xs t)

peak_resident-append :
    (xs : List TickResult) (t : TickResult)
    → peak_resident (xs ++ t ∷ []) ≡ max (peak_resident xs) t.resident_after
unfolding peak_resident
peak_resident-append [] t = omega arith
peak_resident-append (x ∷ xs) t = omega (arith, peak_resident-append xs t)

-- After `total` bytes have come in: every byte is in HBM, in the host or in the carry, and no tick
-- was above the usable ceiling.
pub record Balanced (cfg : LoopConfig) (total : ℕ) (r : Running) : Type 0 where
  pub bytes : r.loop.resident + r.loop.host_bytes + r.carry ≡ total
  pub ceiling : r.loop.resident ≤ usable cfg
  pub peak : peak_resident r.ticks ≤ usable cfg

module _ (cfg : LoopConfig) (order : low cfg ≤ high cfg) where
  pub run_tick-Balanced :
      (demand total total' : ℕ) (hot : Option ℕ) (r : Running)
      → total' + r.carry ≡ total + demand
      → Balanced cfg total r
      → Balanced cfg total' (run_tick cfg demand hot r)
  unfolding run_tick
  run_tick-Balanced demand total total' hot r e b =
      let k = tick-Ticked cfg demand hot r.loop order in
      record {
        bytes = omega (arith, k.admission, k.resident_bytes, k.host_bytes, b.bytes);
        ceiling = omega (arith, k.ceiling, b.ceiling);
        peak = omega (
          arith,
          peak_resident-append r.ticks (tick cfg demand hot r.loop).1,
          k.reported,
          k.ceiling,
          b.ceiling,
          b.peak,
        );
      }

  -- The rules for the loops of `run`: what every tick keeps, the whole run keeps.
  module _ {ℓ} (P : ℕ → Running → Type ℓ)
      (keeps : (demand total total' : ℕ) (hot : Option ℕ) (r : Running)
        → total' + r.carry ≡ total + demand
        → P total r
        → P total' (run_tick cfg demand hot r)) where
    pub drain_inv : (guard total : ℕ) (r : Running) → P total r → P total (drain cfg guard r)
    unfolding drain
    drain_inv zero total r b = b
    drain_inv (suc guard) total r b =
        (elim (ltb 100 r.carry)
          as (λ c.
            P total (elim c [ true ↦ drain cfg guard (run_tick cfg r.carry none r) | false ↦ r ])) [
              | true ↦ drain_inv guard total _ (keeps r.carry total total none r refl b)
              | false ↦ b
            ])

    pub run_stream_inv :
        (hots : Option (List ℕ)) (i : ℕ) (incoming : List ℕ) (total : ℕ) (r q : Running)
        → P total r
        → run_stream cfg hots i incoming r ≡ some q
        → P (total + sum incoming) q
    unfolding run_stream
    run_stream_inv hots i [] total r q b e =
        let e' : total ≡ total + 0 = omega arith in
        subst (λ t. P t q) e' (subst (P total) (some-injective _ _ e) b)
    run_stream_inv hots i (inc ∷ incoming) total r q b e = elim (Option-cases (hot_at hots i)) [
      | inl gone ↦ absurd (ground arith)
      | inr (hot, found) ↦
          let e' : total + inc + sum incoming ≡ total + (inc + sum incoming) = omega arith in
          subst (λ t. P t q) e'
            (run_stream_inv hots (i + 1) incoming (total + inc) (run_tick cfg (inc + r.carry) hot r)
              q (keeps (inc + r.carry) total (total + inc) hot r (omega arith) b) (ground arith))
    ]

    pub run_inv :
        (incoming : List ℕ) (hots : Option (List ℕ)) (s : MemoryControlLoop) (r : Running)
        → P 0 (record { loop = s; carry = 0; ticks = [] })
        → run cfg incoming hots s ≡ some r
        → P (sum incoming) r
    unfolding run
    run_inv incoming hots s r b e =
        elim (Option-cases
          (run_stream cfg hots 0 incoming (record { loop = s; carry = 0; ticks = [] }))) [
            | inl gone ↦ absurd (ground arith)
            | inr (q, found) ↦
                let e' : drain cfg 100000 q ≡ r = some-injective _ _ (rw (found, run) at e) in
                let t : 0 + sum incoming ≡ sum incoming = omega arith in
                subst (λ n. P n r) t
                  (subst (P (0 + sum incoming)) e' (
                    drain_inv 100000 (0 + sum incoming) q
                      (run_stream_inv hots 0 incoming 0 _ q b found)))
          ]

  start-Balanced : Balanced cfg 0 (record { loop = init; carry = 0; ticks = [] })
  start-Balanced = record {
    bytes = omega arith;
    ceiling = omega arith;
    peak = unfold peak_resident in omega arith;
  }

  -- With the low watermark at most the high one, a run from the empty loop that ends without an index
  -- error loses no byte: what came in is resident, in the host or still deferred; and no tick is above the
  -- usable ceiling.
  pub run-Balanced :
      (incoming : List ℕ) (hots : Option (List ℕ)) (r : Running)
      → run cfg incoming hots init ≡ some r
      → Balanced cfg (sum incoming) r
  run-Balanced incoming hots r e =
      run_inv (Balanced cfg) run_tick-Balanced incoming hots init r start-Balanced e

  usable-le_capacity : usable cfg ≤ capacity cfg
  usable-le_capacity = scale-le (100 - cfg.headroom_frac) 100 cfg.cap_bytes (omega arith)

  tick-oom :
      (incoming : ℕ) (hot : Option ℕ) (s : MemoryControlLoop)
      → (tick cfg incoming hot s).1.oom
        ≡ ltb (capacity cfg) (tick cfg incoming hot s).0.resident
          || ltb (100 * cfg.host_cap_bytes) (tick cfg incoming hot s).0.host_bytes
  unfolding tick
  tick-oom incoming hot s = refl

  -- The ticks report an OOM exactly if the host has more than it holds.
  abbrev Reported : ℕ → Running → Type 0
  Reported total r =
      (any_oom r.ticks ≡ ltb (100 * cfg.host_cap_bytes) r.loop.host_bytes) × Balanced cfg total r

  run_tick-Reported :
      (demand total total' : ℕ) (hot : Option ℕ) (r : Running)
      → total' + r.carry ≡ total + demand
      → Reported total r
      → Reported total' (run_tick cfg demand hot r)
  run_tick-Reported demand total total' hot r e (o, b) = (
    unfold run_tick in
        (let k = tick-Ticked cfg demand hot r.loop order in
          ground (
            arith,
            any_oom-append r.ticks (tick cfg demand hot r.loop).1,
            tick-oom demand hot r.loop,
            k.host_bytes,
            k.ceiling,
            b.ceiling,
            usable-le_capacity,
            o,
          )),
    run_tick-Balanced demand total total' hot r e b,
  )

  -- With the low watermark at most the high one, a run from the empty loop that ends without an index
  -- error reports an OOM in some tick exactly if the host bank has overflowed in the end.
  pub run-oom :
      (incoming : List ℕ) (hots : Option (List ℕ)) (r : Running)
      → run cfg incoming hots init ≡ some r
      → any_oom r.ticks ≡ ltb (100 * cfg.host_cap_bytes) r.loop.host_bytes
  run-oom incoming hots r e =
      (run_inv Reported run_tick-Reported incoming hots init r
        (unfold any_oom in ground arith, start-Balanced) e).0
