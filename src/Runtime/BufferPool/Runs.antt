-- ===== src/Runtime/BufferPool/Runs.antt =====
-- src/zord/runtime/bufferpool.py: a loop of a policy is a run over (unit, priority) pairs. The miss
-- flags of a run, and what the loop's counters are in terms of them.
use mathlib.Core.List.{append_assoc, append-nil}
use zord.Base.{
  ℕ, ◌+◌, ◌≤◌, ◌<◌, ◌≡◌, ◌∙◌, ap, refl, sym, inl, inr, List, [], ◌∷◌, ◌++◌, arith, min, leb,
  if◌then◌else◌, length, sum, Bool-cases, subst,
}
use zord.Base.Dict.{has, put, length-put}
use zord.Runtime.BufferPool.{Sim, evict_max, access_unit, belady_loop, mrd_loop, reuse_estimate}
use zord.Runtime.BufferPool.Plan.{occupancy}
use zord.Runtime.BufferPool.Evict.{
  Distinct, length-evict_max, put-Distinct, evict_max-Distinct, has-evict_max,
}

unfoldable pub run : ℕ → List (ℕ × ℕ) → Sim → Sim
run cap [] s = s
run cap ((u, p) ∷ xs) s = run cap xs (access_unit cap u p s)

unfoldable pub zip : List ℕ → List ℕ → List (ℕ × ℕ)
zip (u ∷ us) (p ∷ ps) = (u, p) ∷ zip us ps
zip _ _ = []

unfoldable pub reuse_pairs : ℕ → ℕ → List (ℕ × ℕ) → List ℕ → List (ℕ × ℕ)
reuse_pairs big i last [] = []
reuse_pairs big i last (u ∷ us) =
    (u, reuse_estimate big i u last) ∷ reuse_pairs big (i + 1) (put u i last) us

pub belady_loop-run :
    (cap : ℕ) (us ps : List ℕ) (s : Sim) → belady_loop cap us ps s ≡ run cap (zip us ps) s
unfolding belady_loop run zip
belady_loop-run cap [] ps s = refl
belady_loop-run cap (u ∷ us) [] s = refl
belady_loop-run cap (u ∷ us) (p ∷ ps) s = belady_loop-run cap us ps (access_unit cap u p s)

pub mrd_loop-run :
    (cap big i : ℕ) (last : List (ℕ × ℕ)) (us : List ℕ) (s : Sim)
    → mrd_loop cap big i last us s ≡ run cap (reuse_pairs big i last us) s
unfolding mrd_loop run reuse_pairs
mrd_loop-run cap big i last [] s = refl
mrd_loop-run cap big i last (u ∷ us) s =
    mrd_loop-run cap big (i + 1) (put u i last) us
      (access_unit cap u (reuse_estimate big i u last) s)

-- The dict after an access.
unfoldable pub after : ℕ → ℕ → ℕ → List (ℕ × ℕ) → List (ℕ × ℕ)
after cap u p d = put u p (if has u d then d else if leb cap (length d) then evict_max d else d)

-- 1 where the access misses.
unfoldable pub flag : ℕ → List (ℕ × ℕ) → ℕ
flag u d = if has u d then 0 else 1

unfoldable pub flags : ℕ → List (ℕ × ℕ) → List (ℕ × ℕ) → List ℕ
unfolding flag
flags cap [] d = []
flags cap ((u, p) ∷ xs) d = flag u d ∷ flags cap xs (after cap u p d)

unfoldable pub afters : ℕ → List (ℕ × ℕ) → List (ℕ × ℕ) → List (ℕ × ℕ)
afters cap [] d = d
afters cap ((u, p) ∷ xs) d = afters cap xs (after cap u p d)

pub record Stepped (cap u p : ℕ) (s t : Sim) : Type 0 where
  pub resident : t.resident ≡ after cap u p s.resident
  pub admissions : t.admissions ≡ s.admissions + flag u s.resident
  pub hits : t.hits + flag u s.resident ≡ s.hits + 1
  pub evictions :
      t.evictions
      ≡ s.evictions + (if has u s.resident then 0 else if leb cap (length s.resident) then 1 else 0)
  pub per_step : t.per_step ≡ s.per_step ++ length (after cap u p s.resident) ∷ []

pub access_unit-Stepped : (cap u p : ℕ) (s : Sim) → Stepped cap u p s (access_unit cap u p s)
unfolding access_unit after flag
access_unit-Stepped cap u p s = record {
  resident = ground arith;
  admissions = ground arith;
  hits = ground arith;
  evictions = ground arith;
  per_step = ground arith;
}

module _ (cap u p : ℕ) (d : List (ℕ × ℕ)) (distinct : Distinct d) where
  pub after-Distinct : Distinct (after cap u p d)
  unfolding after
  after-Distinct = elim (Bool-cases (has u d)) [
    | inl h ↦ rw h (put-Distinct u p d distinct)
    | inr n ↦ elim (Bool-cases (leb cap (length d))) [
      | inl f ↦ rw (n, f) (put-Distinct u p _ (evict_max-Distinct d distinct))
      | inr r ↦ rw (n, r) (put-Distinct u p d distinct)
    ]
  ]

  -- A hit keeps the size, a miss makes one more up to the capacity.
  pub length-after :
      0 < cap → length d ≤ cap → length (after cap u p d) ≡ min (length d + flag u d) cap
  unfolding after flag
  length-after pos fits = elim (Bool-cases (has u d)) [
    | inl h ↦ ground (arith, length-put u p d)
    | inr n ↦ elim (Bool-cases (leb cap (length d))) [
      | inl f ↦ ground (
        arith,
        length-put u p (evict_max d),
        has-evict_max u d n,
        length-evict_max d distinct (ground arith),
      )
      | inr r ↦ ground (arith, length-put u p d)
    ]
  ]

  -- What is evicted and what stays makes up what was there and what came in.
  pub evictions-after :
      0 < cap
      → length (after cap u p d) + (if has u d then 0 else if leb cap (length d) then 1 else 0)
        ≡ length d + flag u d
  unfolding after flag
  evictions-after pos = elim (Bool-cases (has u d)) [
    | inl h ↦ ground (arith, length-put u p d)
    | inr n ↦ elim (Bool-cases (leb cap (length d))) [
      | inl f ↦ ground (
        arith,
        length-put u p (evict_max d),
        has-evict_max u d n,
        length-evict_max d distinct (ground arith),
      )
      | inr r ↦ ground (arith, length-put u p d)
    ]
  ]

pub record Ran (cap : ℕ) (xs : List (ℕ × ℕ)) (s t : Sim) : Type 0 where
  pub resident : t.resident ≡ afters cap xs s.resident
  pub admissions : t.admissions ≡ s.admissions + sum (flags cap xs s.resident)
  pub hits : t.hits + sum (flags cap xs s.resident) ≡ s.hits + length xs
  pub evictions :
      t.evictions + length t.resident
      ≡ s.evictions + length s.resident + sum (flags cap xs s.resident)
  pub per_step :
      t.per_step ≡ s.per_step ++ occupancy cap (length s.resident) (flags cap xs s.resident)
  pub distinct : Distinct t.resident
  pub fits : length t.resident ≡ min (length s.resident + sum (flags cap xs s.resident)) cap

-- A run keeps the trace from a state whose dict has distinct keys and fits. The occupancy is the
-- number of misses so far, up to the capacity.
occupancy-min :
    (cap a b : ℕ) (fs : List ℕ) → min a cap ≡ b → b ≤ cap → occupancy cap a fs ≡ occupancy cap b fs
unfolding occupancy
occupancy-min cap a b [] e h = refl
occupancy-min cap a b (f ∷ fs) e h = ground (
  arith,
  occupancy-min cap (a + f) (min (b + f) cap) fs,
  occupancy-min cap (b + f) (min (b + f) cap) fs,
)

module _ (cap u p : ℕ) (xs : List (ℕ × ℕ)) (s t r : Sim) (st : Stepped cap u p s t)
    (ih : Ran cap xs t r) (pos : 0 < cap) (d : Distinct s.resident)
    (fits : length s.resident ≤ cap) where
  trace-cons :
      t.per_step ++ occupancy cap (length t.resident) (flags cap xs t.resident)
      ≡ s.per_step
        ++ occupancy cap
            (length s.resident)
            (flag u s.resident ∷ flags cap xs (after cap u p s.resident))
  unfolding occupancy
  trace-cons =
      simp (st.per_step, st.resident, append_assoc, length-after cap u p s.resident d pos fits)
        (ap (λ l. s.per_step ++ min (length s.resident + flag u s.resident) cap ∷ l)
          (sym (occupancy-min cap (length s.resident + flag u s.resident) _ _ refl (omega arith))))

  Ran-cons : Ran cap ((u, p) ∷ xs) s r
  unfolding flags afters
  Ran-cons = record {
    resident = ih.resident ∙ ap (afters cap xs) st.resident;
    admissions = ground (arith, ih.admissions, st.admissions, st.resident);
    hits = ground (arith, ih.hits, st.hits, st.resident);
    evictions =
        ground (
          arith,
          ih.evictions,
          st.evictions,
          st.resident,
          evictions-after cap u p s.resident d pos,
        );
    per_step = ih.per_step ∙ trace-cons;
    distinct = ih.distinct;
    fits = ground (arith, ih.fits, st.resident, length-after cap u p s.resident d pos fits);
  }

pub run-Ran :
    (cap : ℕ) (xs : List (ℕ × ℕ)) (s : Sim)
    → 0 < cap
    → Distinct s.resident
    → length s.resident ≤ cap
    → Ran cap xs s (run cap xs s)
unfolding run flags afters occupancy
run-Ran cap [] s pos d fits = record {
  resident = refl;
  admissions = omega arith;
  hits = omega arith;
  evictions = omega arith;
  per_step = sym (append-nil s.per_step);
  distinct = d;
  fits = omega arith;
}
run-Ran cap ((u, p) ∷ xs) s pos d fits =
    let st = access_unit-Stepped cap u p s in
    let dis = after-Distinct cap u p s.resident d in
    let len = length-after cap u p s.resident d pos fits in
    Ran-cons cap u p xs s (access_unit cap u p s) (run cap xs (access_unit cap u p s)) st
      (run-Ran cap xs (access_unit cap u p s) pos (subst Distinct (sym st.resident) dis)
        (omega (arith, ap length st.resident, len)))
      pos d fits
