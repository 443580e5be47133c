-- ===== src/Schedule/Memory/Capacity.antt =====
-- src/zord/schedule/planner.py: whether the planned peak of a feasible device fits its capacity.
use native.Mathlib.Nat.{div-mul-le_self, lt-div-mul-add}
use zord.Base.{
  ℕ, ◌+◌, ◌-◌, ◌*◌, ◌≤◌, ◌<◌, ◌≡◌, ◌⊎◌, ◌↔◌, refl, inl, inr, true, arith, ltb, leb, if◌then◌else◌,
  Bool-cases, max, min, scale-le,
}
use zord.Schedule.Memory.{
  Workload, snapshot_state_bytes, fit, resident_of, peak_of, tier_with, overhead_of, tier,
}

-- `fit` snapshots and the overhead, with the margin, are within the capacity,
fit-fits : (c o s : ℕ) → 0 < fit c o s → 5 * (fit c o s * s + o) ≤ 4 * c
unfolding fit
fit-fits c o s h = grind (arith, div-mul-le_self (4 * c - 5 * o) (5 * max 1 s))

-- and one more is not.
fit-max : (c o s : ℕ) → 4 * c < 5 * ((fit c o s + 1) * max 1 s + o)
unfolding fit
fit-max c o s = grind (arith, lt-div-mul-add {a = 4 * c - 5 * o} {b = 5 * max 1 s} (omega arith))

module _ (w : Workload) (r c n e : ℕ) where
  -- The snapshots of a device that fit beside the reserved overhead, in `tier`.
  abbrev pub fits_of : ℕ
  fits_of = fit c (overhead_of w c n e) (snapshot_state_bytes n e w)

  resident_bounds :
      (f : ℕ)
      → 0 < w.window
      → (0 < resident_of w.window f r) × (resident_of w.window f r ≤ w.window)
  unfolding resident_of
  resident_bounds f pos = ground arith

  peak-le :
      (s o : ℕ)
      → 0 < fit c o s
      → ((w.window ≤ fit c o s) ⊎ (r < fit c o s))
      → peak_of w.window (resident_of w.window (fit c o s) r) r s o ≤ c
  unfolding peak_of resident_of
  peak-le s o pos why =
      let f = fit c o s in
      let res = if ltb f w.window then min w.window (max 1 (f - r)) else w.window in
      let held =
        min (min res w.window + (if ltb 0 (w.window - min res w.window) then r else 0)) w.window in
      let few : held ≤ f = ground arith in omega (arith, scale-le held f s few, fit-fits c o s pos)

  -- A device is feasible exactly when one snapshot fits.
  pub tier-feasible_iff : ((tier w r c n e).feasible ≡ true) ↔ (0 < fits_of)
  unfolding tier tier_with
  tier-feasible_iff = elim (Bool-cases (leb 1 fits_of)) [
    | inl some_fit ↦ rw some_fit (λ _. ground arith, λ _. refl)
    | inr none_fit ↦ rw none_fit (λ q. absurd (cc), λ q. absurd (ground arith))
  ]

  -- On a feasible device the resident and the streamed snapshots make up the window and one at least
  -- is resident; if the window fits whole, or if more snapshots fit than buffers are reserved, the
  -- planned peak is within the capacity.
  pub tier_no_oom :
      0 < w.window
      → (tier w r c n e).feasible ≡ true
      → ((w.window ≤ fits_of) ⊎ (r < fits_of))
      → (0 < (tier w r c n e).resident_snapshots)
        × ((tier w r c n e).resident_snapshots + (tier w r c n e).streamed_snapshots ≡ w.window)
        × ((tier w r c n e).peak_hbm_bytes ≤ c)
  tier_no_oom pos feas why =
      let some_fit : 0 < fits_of = tier-feasible_iff.0 feas in
      let (lo, hi) = resident_bounds fits_of pos in
      let passed : leb 1 fits_of ≡ true = ground arith in
      unfold tier tier_with in
      rw passed
        (lo, omega arith, peak-le (snapshot_state_bytes n e w) (overhead_of w c n e) some_fit why)

  -- With a window that does not fit and no more snapshots fitting than buffers are reserved, the
  -- device is planned as feasible although its planned peak passes the capacity, whenever one more
  -- snapshot than fits needs at least a byte more than there is.
  pub tier_over_capacity :
      0 < fits_of
      → fits_of ≤ r
      → fits_of < w.window
      → 4 * c + 4 ≤ 5 * ((fits_of + 1) * snapshot_state_bytes n e w + overhead_of w c n e)
      → ((tier w r c n e).feasible ≡ true) × (c < (tier w r c n e).peak_hbm_bytes)
  unfolding tier tier_with peak_of resident_of
  tier_over_capacity pos le lt over =
      let res = if ltb fits_of w.window then min w.window (max 1 (fits_of - r)) else w.window in
      let held =
        min (min res w.window + (if ltb 0 (w.window - min res w.window) then r else 0)) w.window in
      let many : fits_of + 1 ≤ held = ground arith in
      let passed : leb 1 fits_of ≡ true = ground arith in
      rw passed (refl, omega (arith, scale-le (fits_of + 1) held (snapshot_state_bytes n e w) many))
