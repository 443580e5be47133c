-- ===== src/Runtime/BufferPool/Accounting.antt =====
-- src/zord/runtime/bufferpool.py: the counters, the occupancy trace and the staged bytes of both
-- policies in terms of the accesses that miss, and the plan of the native kernel.
use zord.Base.{
  ℕ, suc, ◌+◌, ◌-◌, ◌<◌, ◌≡◌, refl, ap, sym, ◌∙◌, List, [], ◌∷◌, Option, none, some, arith, min,
  max, length, sum, ==_refl, inl, inr, subst, ◌*◌, Option-cases,
}
use zord.Base.Dict.{put}
use zord.Runtime.BufferPool.{
  Schedule, start, next_use_from, next_use_array, schedule_of, belady_schedule, mrd_schedule,
  reuse_estimate,
}
use zord.Runtime.BufferPool.Plan.{
  Policy, belady, mrd, BufferPool, Binary, UnitBytes, KernelOut, occupancy, dot, stage_unit,
  staged_belady, staged_mrd, staged_bytes_for_policy, schedule_for, hit_ratio, simulate_cpp, counts,
  simulate, resolve, report, staged_bytes_naive, plan_schedule,
}
use zord.Runtime.BufferPool.Runs.{
  run, zip, reuse_pairs, flag, flags, after, run-Ran, belady_loop-run, mrd_loop-run,
}

-- The priorities that a policy gives to the accesses.
unfoldable pub pairs_of : Policy → List ℕ → List (ℕ × ℕ)
pairs_of belady access = zip access (next_use_array access)
pairs_of mrd access = reuse_pairs (length access) 0 [] access

-- For each access 1 where the policy misses, 0 where it hits.
unfoldable pub miss_flags : Policy → List ℕ → ℕ → List ℕ
unfolding pairs_of
miss_flags policy access slots = flags slots (pairs_of policy access) []

pub length-next_use_from : (i : ℕ) (us : List ℕ) → length (next_use_from i us).0 ≡ length us
unfolding next_use_from
length-next_use_from i [] = refl
length-next_use_from i (u ∷ us) = ap suc (length-next_use_from (i + 1) us)

length-zip : (us ps : List ℕ) → length ps ≡ length us → length (zip us ps) ≡ length us
unfolding zip
length-zip [] ps h = refl
length-zip (u ∷ us) [] h = absurd (omega arith)
length-zip (u ∷ us) (p ∷ ps) h = ap suc (length-zip us ps (omega arith))

length-reuse_pairs :
    (big i : ℕ) (last : List (ℕ × ℕ)) (us : List ℕ) → length (reuse_pairs big i last us) ≡ length us
unfolding reuse_pairs
length-reuse_pairs big i last [] = refl
length-reuse_pairs big i last (u ∷ us) = ap suc (length-reuse_pairs big (i + 1) (put u i last) us)

length-pairs_of : (policy : Policy) (us : List ℕ) → length (pairs_of policy us) ≡ length us
unfolding pairs_of next_use_array
length-pairs_of belady us = length-zip us _ (length-next_use_from 0 us)
length-pairs_of mrd us = length-reuse_pairs (length us) 0 [] us

length-flags : (cap : ℕ) (xs d : List (ℕ × ℕ)) → length (flags cap xs d) ≡ length xs
unfolding flags
length-flags cap [] d = refl
length-flags cap ((u, p) ∷ xs) d = ap suc (length-flags cap xs (after cap u p d))

-- What a schedule reports, in terms of the misses.
pub record Accounted (slots : ℕ) (access fl : List ℕ) (s : Schedule) : Type 0 where
  pub admissions : s.admissions ≡ sum fl
  pub evictions : s.evictions ≡ sum fl - min (sum fl) slots
  pub hit_rate : s.hit_rate ≡ hit_ratio (length access - sum fl) (length access)
  pub per_step : s.per_step_resident ≡ occupancy slots 0 fl

Accounted-run :
    (slots : ℕ) (access : List ℕ) (xs : List (ℕ × ℕ))
    → 0 < slots
    → length xs ≡ length access
    → Accounted slots access (flags slots xs []) (schedule_of (length access) (run slots xs start))
unfolding schedule_of hit_ratio
Accounted-run slots [] [] pos e =
    unfold flags occupancy in
    record { admissions = refl; evictions = omega arith; hit_rate = refl; per_step = refl }
Accounted-run slots [] (x ∷ xs) pos e = absurd (omega arith)
Accounted-run slots (u ∷ us) xs pos e =
    let r = run-Ran slots xs start pos tt (omega arith) in
    record {
      admissions = r.admissions ∙ (omega arith);
      evictions = omega (arith, r.evictions, r.fits);
      hit_rate = ap (λ h. record { num = h; den = length (u ∷ us) }) (omega (arith, r.hits, e));
      per_step = r.per_step;
    }

-- Both policies report exactly their misses as admissions, the misses beyond the capacity as
-- evictions, the other accesses as hits, and the misses so far up to the capacity as occupancy.
pub schedule_for-Accounted :
    (policy : Policy) (access : List ℕ) (slots : ℕ)
    → Accounted
        (max 1 slots)
        access
        (miss_flags policy access (max 1 slots))
        (schedule_for policy access slots)
unfolding schedule_for belady_schedule mrd_schedule miss_flags
schedule_for-Accounted belady access slots =
    subst
      (λ s.
        Accounted (max 1 slots) access (flags (max 1 slots) (zip access (next_use_array access)) [])
          (schedule_of (length access) s))
      (sym (belady_loop-run (max 1 slots) access (next_use_array access) start))
      (Accounted-run (max 1 slots) access _ (omega arith) (length-pairs_of belady access))
schedule_for-Accounted mrd access slots =
    subst
      (λ s.
        Accounted (max 1 slots) access
          (flags (max 1 slots) (reuse_pairs (length access) 0 [] access) [])
          (schedule_of (length access) s))
      (sym (mrd_loop-run (max 1 slots) (length access) 0 [] access start))
      (Accounted-run (max 1 slots) access _ (omega arith) (length-pairs_of mrd access))

stage_unit-after :
    (cap u p b : ℕ) (s : List (ℕ × ℕ) × ℕ)
    → stage_unit cap u p b s ≡ (after cap u p s.0, s.1 + flag u s.0 * b)
unfolding stage_unit after flag
stage_unit-after cap u p b (d, t) = ground arith

staged_belady-dot :
    (cap : ℕ) (us ps bs : List ℕ) (s : List (ℕ × ℕ) × ℕ)
    → (staged_belady cap us ps bs s).1 ≡ s.1 + dot (flags cap (zip us ps) s.0) bs
unfolding staged_belady zip flags dot
staged_belady-dot cap [] ps bs s = omega arith
staged_belady-dot cap (u ∷ us) [] bs s = omega arith
staged_belady-dot cap (u ∷ us) (p ∷ ps) [] s = omega arith
staged_belady-dot cap (u ∷ us) (p ∷ ps) (b ∷ bs) s =
    ap (λ t. (staged_belady cap us ps bs t).1) (stage_unit-after cap u p b s)
    ∙ (omega (arith, staged_belady-dot cap us ps bs (after cap u p s.0, s.1 + flag u s.0 * b)))

staged_mrd-dot :
    (cap big i : ℕ) (last : List (ℕ × ℕ)) (us bs : List ℕ) (s : List (ℕ × ℕ) × ℕ)
    → (staged_mrd cap big i last us bs s).1
      ≡ s.1 + dot (flags cap (reuse_pairs big i last us) s.0) bs
unfolding staged_mrd reuse_pairs flags dot
staged_mrd-dot cap big i last [] bs s = omega arith
staged_mrd-dot cap big i last (u ∷ us) [] s = omega arith
staged_mrd-dot cap big i last (u ∷ us) (b ∷ bs) s =
    let p = reuse_estimate big i u last in
    ap (λ t. (staged_mrd cap big (i + 1) (put u i last) us bs t).1) (stage_unit-after cap u p b s)
    ∙ (omega (
      arith,
      staged_mrd-dot cap big (i + 1) (put u i last) us bs (after cap u p s.0, s.1 + flag u s.0 * b),
    ))

-- The second pass over the accesses charges exactly the bytes of the misses of the first.
pub staged-dot :
    (p : BufferPool) (access ubytes : List ℕ)
    → staged_bytes_for_policy p access ubytes ≡ dot (miss_flags p.policy access p.num_slots) ubytes
unfolding staged_bytes_for_policy miss_flags
staged-dot p access ubytes = go p.policy
  where
    go :
        (q : Policy)
        → (elim q [
          | belady ↦ (staged_belady p.num_slots access (next_use_array access) ubytes ([], 0)).1
          | mrd ↦ (staged_mrd p.num_slots (length access) 0 [] access ubytes ([], 0)).1
        ])
          ≡ dot (flags p.num_slots (pairs_of q access) []) ubytes
    go belady =
        staged_belady-dot p.num_slots access (next_use_array access) ubytes ([], 0) ∙ (omega arith)
    go mrd = staged_mrd-dot p.num_slots (length access) 0 [] access ubytes ([], 0) ∙ (omega arith)

-- The output of a kernel that reports the misses of the policy.
abbrev pub agreeing : BufferPool → List ℕ → KernelOut
agreeing p access = record {
  n = length access;
  is_miss = miss_flags p.policy access p.num_slots;
  admissions = sum (miss_flags p.policy access p.num_slots);
  evictions =
      sum (miss_flags p.policy access p.num_slots)
      - min (sum (miss_flags p.policy access p.num_slots)) p.num_slots;
}

Schedule-ext :
    (s t : Schedule)
    → s.admissions ≡ t.admissions
    → s.evictions ≡ t.evictions
    → s.hit_rate ≡ t.hit_rate
    → s.per_step_resident ≡ t.per_step_resident
    → s ≡ t
Schedule-ext s t a e h p i = record {
  admissions = a i;
  evictions = e i;
  hit_rate = h i;
  per_step_resident = p i;
}

simulate-counts :
    (p : BufferPool) (binary : Binary) (access ubytes : List ℕ)
    → simulate p binary access ubytes
      ≡ counts (simulate_cpp binary access p.num_slots p.policy) p access ubytes
unfolding simulate
simulate-counts p binary access ubytes = refl

module _ (p : BufferPool) (bin : List ℕ → ℕ → Policy → Option KernelOut) (pos : 0 < p.num_slots)
    (u : ℕ) (us : List ℕ)
    (agrees : bin (u ∷ us) (max 1 p.num_slots) p.policy ≡ some (agreeing p (u ∷ us))) where
  kernel_answer :
      simulate_cpp (some bin) (u ∷ us) p.num_slots p.policy
      ≡ some (
        (agreeing p (u ∷ us)).is_miss,
        (agreeing p (u ∷ us)).admissions,
        (agreeing p (u ∷ us)).evictions,
      )
  unfolding simulate_cpp
  kernel_answer =
      let len =
        length-flags p.num_slots (pairs_of p.policy (u ∷ us)) []
        ∙ length-pairs_of p.policy (u ∷ us) in
      unfold miss_flags in rw agrees (rw len (simp ==_refl))

  kernel_counts :
      (ubytes : List ℕ)
      → counts
          (some (
            (agreeing p (u ∷ us)).is_miss,
            (agreeing p (u ∷ us)).admissions,
            (agreeing p (u ∷ us)).evictions,
          ))
          p
          (u ∷ us)
          ubytes
        ≡ counts none p (u ∷ us) ubytes
  unfolding counts
  kernel_counts ubytes =
      let m : max 1 p.num_slots ≡ p.num_slots = omega arith in
      let acc =
        subst
          (λ n.
            Accounted n (u ∷ us) (miss_flags p.policy (u ∷ us) n)
              (schedule_for p.policy (u ∷ us) p.num_slots))
          m (schedule_for-Accounted p.policy (u ∷ us) p.num_slots) in
      let sched =
        Schedule-ext _ (schedule_for p.policy (u ∷ us) p.num_slots) (sym acc.admissions)
          (sym acc.evictions) (sym acc.hit_rate) (sym acc.per_step) in
      λ i. (sched i, sym (staged-dot p (u ∷ us) ubytes) i)

  kernel_simulate :
      (ubytes : List ℕ) → simulate p (some bin) (u ∷ us) ubytes ≡ simulate p none (u ∷ us) ubytes
  unfolding simulate simulate_cpp
  kernel_simulate ubytes =
      simulate-counts p (some bin) (u ∷ us) ubytes
      ∙ ap (λ o. counts o p (u ∷ us) ubytes) kernel_answer
      ∙ kernel_counts ubytes

  -- A native kernel that answers with the misses of the policy gives the plan of the Python loops.
  pub kernel_plan :
      (unit_bytes : UnitBytes)
      → plan_schedule p (some bin) (u ∷ us) unit_bytes ≡ plan_schedule p none (u ∷ us) unit_bytes
  unfolding plan_schedule
  kernel_plan unit_bytes = elim (Option-cases (resolve p (u ∷ us) unit_bytes)) [
    | inl e ↦ rw (e, plan_schedule)
    | inr (ubytes, e) ↦
        rw (e, plan_schedule)
          (ap (λ s. some (report p s (staged_bytes_naive p (u ∷ us) ubytes)))
            (kernel_simulate ubytes))
  ]
