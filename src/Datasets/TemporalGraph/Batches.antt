-- ===== src/Datasets/TemporalGraph/Batches.antt =====
-- src/zord/datasets/temporal_graph.py: the training windows of `batches`.
use zord.Base.{
  ℕ, zero, suc, ◌+◌, ◌-◌, ◌≤◌, ◌<◌, ◌≡◌, refl, ap, List, [], ◌∷◌, Option, none, some, length, All,
  arith, max,
}
use zord.Base.Ranges.{range_step, starts-bounds, range_step-first}
use zord.Base.Rows.{take, drop, slice, length-take}
use zord.Datasets.TemporalGraph.{Snapshot, step_of, windows_at, batches}

length-drop {ℓ} : {A : Type ℓ} (n : ℕ) (xs : List A) → length (drop n xs) ≡ length xs - n
length-drop zero xs = omega arith
length-drop (suc n) [] = omega arith
length-drop (suc n) (x ∷ xs) = omega (arith, length-drop n xs)

length-slice {ℓ} :
    {A : Type ℓ} (lo hi : ℕ) (xs : List A) → hi ≤ length xs → length (slice lo hi xs) ≡ hi - lo
length-slice lo hi xs h = omega (arith, length-drop lo (take hi xs), length-take hi xs h)

module _ (snapshots : List Snapshot) (window : ℕ) (fits : window ≤ length snapshots) where
  windows-whole :
      (starts : List ℕ)
      → All (λ s. s < length snapshots + 1 - window) starts
      → All (λ b. length b ≡ window) (windows_at snapshots window starts)
  unfolding windows_at
  windows-whole [] h = tt
  windows-whole (s ∷ starts) h = (
    omega (arith, length-slice s (s + window) snapshots (omega (arith, h.0)), h.0),
    windows-whole starts h.1,
  )

  length-windows_at :
      (starts : List ℕ) → length (windows_at snapshots window starts) ≡ length starts
  unfolding windows_at
  length-windows_at [] = refl
  length-windows_at (s ∷ starts) = ap suc (length-windows_at starts)

  step_of-some : (stride : Option ℕ) → 0 < window → (step : ℕ) × (step_of stride window ≡ some step)
  unfolding step_of
  step_of-some (some (suc n)) pos = (suc n, refl)
  step_of-some (some zero) pos = (window, go window pos)
    where
      go : (w : ℕ) → 0 < w → step_of (some zero) w ≡ some w
      go zero p = absurd (omega (arith, p))
      go (suc n) p = refl
  step_of-some none pos = (window, go window pos)
    where
      go : (w : ℕ) → 0 < w → step_of none w ≡ some w
      go zero p = absurd (omega (arith, p))
      go (suc n) p = refl

  -- A window of one snapshot at least that fits the snapshots is cut without an error: there is a
  -- batch, and every batch is a whole window.
  pub batches-whole :
      (stride : Option ℕ)
      → 0 < window
      → (bs : List (List Snapshot)) × (batches snapshots window stride ≡ some bs)
        × (0 < length bs)
        × All (λ b. length b ≡ window) bs
  unfolding batches
  batches-whole stride pos =
      let (step, e) = step_of-some stride pos in
      let stop = length snapshots + 1 - window in
      let same : max 1 stop ≡ stop = omega arith in
      let starts = range_step (max 1 stop) 0 (max 1 stop) step in
      (
        windows_at snapshots window starts,
        rw (e, batches) refl,
        omega (
          arith,
          length-windows_at starts,
          range_step-first (max 1 stop) (max 1 stop) step (omega arith) (omega arith),
        ),
        windows-whole starts (rw same (starts-bounds stop 0 stop step)),
      )
