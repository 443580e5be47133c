-- ===== src/Runtime/ControlLoop/Tests.antt =====
-- Tests and examples of the memory control loop.
use zord.Base.{ℕ, ◌*◌, ◌≤◌, ◌≡◌, refl, true, false, List, [], ◌∷◌, none, some, arith, ltb, sum}
use zord.Runtime.ControlLoop.{
  LoopConfig, Running, host, no_spill, init, evict_budget, tick, drain, run, any_oom,
}
use zord.Base.Int.{pos}
use zord.Runtime.ControlLoop.Safety.{Ticked, tick-Ticked, Balanced, run-Balanced, run-oom}
use zord.Runtime.ControlLoop.Drain.{drain_ends}

-- A device of 1000 bytes, and 1 GB/s to the host at a period of 1 ms: 1,000,000 bytes a tick.
abbrev cfg : LoopConfig
cfg = record {
  cap_bytes = 1000;
  high_frac = 90;
  low_frac = 70;
  headroom_frac = 8;
  tick_ms = 1;
  fill_bw = 477;
  host_evict_bw = 10;
  buffer_gpu_bw = none;
  host_cap_bytes = 5000;
}

-- 950 bytes come in at once: 30 wait for the next tick, and 220 go to the host.
abbrev spike : List ℕ
spike = 95000 ∷ []

abbrev ended : Running
ended = record {
  loop = record { resident = 73000; host_bytes = 22000; step = 2 };
  carry = 0;
  ticks =
      record {
        step = 1;
        admitted = 92000;
        deferred = 3000;
        evicted = 22000;
        spill_tier = host;
        resident_after = 70000;
        backpressure = true;
        oom = false;
        headroom_after = pos 30000;
      }
      ∷ record {
        step = 2;
        admitted = 3000;
        deferred = 0;
        evicted = 0;
        spill_tier = no_spill;
        resident_after = 73000;
        backpressure = false;
        oom = false;
        headroom_after = pos 27000;
      }
      ∷ [];
}

spike_runs : run cfg spike none init ≡ some ended
unfolding run tick
spike_runs = refl

tick-Ticked_example :
    Ticked cfg 95000 none init (tick cfg 95000 none init).0 (tick cfg 95000 none init).1
tick-Ticked_example = tick-Ticked cfg 95000 none init (omega arith)

run-Balanced_example : Balanced cfg (sum spike) ended
run-Balanced_example = run-Balanced cfg (omega arith) spike none ended spike_runs

run-oom_example : any_oom ended.ticks ≡ ltb (100 * cfg.host_cap_bytes) ended.loop.host_bytes
run-oom_example = run-oom cfg (omega arith) spike none ended spike_runs

abbrev waiting : Running
waiting = record {
  loop = record { resident = 92000; host_bytes = 0; step = 1 };
  carry = 9000;
  ticks = [];
}

drain_ends_example : (drain cfg 5 waiting).carry ≤ 100
unfolding evict_budget
drain_ends_example = drain_ends cfg 5 waiting (omega arith) (omega arith) (omega arith)
