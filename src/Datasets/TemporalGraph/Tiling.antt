-- ===== src/Datasets/TemporalGraph/Tiling.antt =====
-- src/zord/datasets/temporal_graph.py: the snapshots of `to_snapshots` tile the edges.
use zord.Base.{
  ℕ, zero, suc, ◌+◌, ◌-◌, ◌≤◌, ◌<◌, ◌≡◌, refl, subst, List, [], ◌∷◌, Option, none, some, length,
  All, arith, inl, inr, true, leb, ltb, Bool-cases,
}
use zord.Base.Ranges.{range_step}
use zord.Base.Rows.{take, drop, slice, All-drop, All-slice}
use zord.Datasets.Numpy.{Numpy, Sorted}
use zord.Datasets.TemporalGraph.{
  Snapshot, TemporalGraph, edges, tmin, tmax, interval_of, boundaries_of, cut, cut_all,
  snapshots_of, to_snapshots,
}
use zord.Datasets.TemporalGraph.Sorting.{IsValid, sort_by_time-SortedFrom}
use mathlib.Core.List.{Permᴰ}
use mathlib.Core.List.Permᴰ

-- The snapshots are numbered from `idx`, none is empty, and they are next to each other from the
-- edge `lo` to the edge `hi`.
abbrev pub Tiles : ℕ → ℕ → List Snapshot → ℕ → Type 0
Tiles lo idx [] hi = lo ≡ hi
Tiles lo idx (s ∷ snaps) hi =
    (s.index ≡ idx) × (s.lo ≡ lo) × (s.lo < s.hi) × Tiles s.hi (idx + 1) snaps hi

-- The edges of a snapshot are of its time window.
abbrev pub Covers : List ℕ → Snapshot → Type 0
Covers t s =
    All (λ x. s.t_start ≤ x) (slice s.lo s.hi t) × All (λ x. x < s.t_end) (slice s.lo s.hi t)

abbrev Increasing : ℕ → List ℕ → Type 0
Increasing b [] = Unit
Increasing b (x ∷ xs) = (b < x) × Increasing x xs

abbrev last : ℕ → List ℕ → ℕ
last b [] = b
last b (x ∷ xs) = last x xs

prefix-le :
    (b b' k k' : ℕ) (t : List ℕ)
    → b ≤ b'
    → k ≤ length t
    → All (λ x. x < b) (take k t)
    → All (λ x. b' ≤ x) (drop k' t)
    → k ≤ k'
prefix-le b b' zero k' t le h below rest = omega arith
prefix-le b b' (suc k) k' [] le h below rest = absurd (omega arith)
prefix-le b b' (suc k) zero (x ∷ t) le h below rest = omega (arith, below.0, rest.0)
prefix-le b b' (suc k) (suc k') (x ∷ t) le h below rest =
    omega (arith, prefix-le b b' k k' t le (omega arith) below.1 rest)

All-take_length {ℓ κ} :
    {A : Type ℓ} (P : A → Type κ) (t : List A) → All P t → All P (take (length t) t)
All-take_length P [] h = tt
All-take_length P (x ∷ t) h = (h.0, All-take_length P t h.1)

tmax-bound : (t : List ℕ) (m : ℕ) → tmax t < m → All (λ x. x < m) t
unfolding tmax
tmax-bound [] m h = tt
tmax-bound (x ∷ t) m h = (omega arith, tmax-bound t m (omega arith))

tmin-bound : (t : List ℕ) (m : ℕ) → m ≤ tmin t → All (λ x. m ≤ x) t
unfolding tmin
tmin-bound [] m h = tt
tmin-bound (x ∷ []) m h = (h, tt)
tmin-bound (x ∷ y ∷ t) m h = (omega arith, tmin-bound (y ∷ t) m (omega arith))

module _ (stop step : ℕ) (pos : 0 < step) where
  range-Increasing : (n i : ℕ) → Increasing i (range_step n (i + step) stop step)
  unfolding range_step
  range-Increasing zero i = tt
  range-Increasing (suc n) i = elim (Bool-cases (ltb (i + step) stop)) [
    | inl more ↦ rw more (omega arith, range-Increasing n (i + step))
    | inr done ↦ rw done tt
  ]

  range-last :
      (n i : ℕ) → stop ≤ i + step + n → stop ≤ last i (range_step n (i + step) stop step) + step
  unfolding range_step
  range-last zero i enough = omega arith
  range-last (suc n) i enough = elim (Bool-cases (ltb (i + step) stop)) [
    | inl more ↦ rw more (range-last n (i + step) (omega arith))
    | inr done ↦ rw done (ground arith)
  ]

module _ (np : Numpy) (t : List ℕ) (sorted : Sorted t) where
  abbrev at : ℕ → ℕ
  at b = np.searchsorted t b

  at_mono : (b b' : ℕ) → b ≤ b' → at b ≤ at b'
  at_mono b b' le =
      prefix-le b b' (at b) (at b') t le (np.searchsorted_length t b)
        (np.searchsorted_below t b sorted) (np.searchsorted_rest t b' sorted)

  cut-Tiles :
      (idx b : ℕ) (bs : List ℕ)
      → Increasing b bs
      → Tiles (at b) idx (cut np t idx b bs) (at (last b bs))
  unfolding cut
  cut-Tiles idx b [] inc = refl
  cut-Tiles idx b (b' ∷ bs) inc = elim (Bool-cases (leb (at b') (at b))) [
    | inl none_there ↦
        let same : at b' ≡ at b = ground (arith, at_mono b b' (omega (arith, inc.0))) in
        rw none_there (
          subst (λ k. Tiles k idx (cut np t idx b' bs) (at (last b' bs))) same
            (cut-Tiles idx b' bs inc.1))
    | inr some_there ↦ rw some_there (refl, refl, ground arith, cut-Tiles (idx + 1) b' bs inc.1)
  ]

  cut-Covers : (idx b : ℕ) (bs : List ℕ) → All (Covers t) (cut np t idx b bs)
  unfolding cut
  cut-Covers idx b [] = tt
  cut-Covers idx b (b' ∷ bs) = elim (Bool-cases (leb (at b') (at b))) [
    | inl none_there ↦ rw none_there (cut-Covers idx b' bs)
    | inr some_there ↦ rw some_there (
      (
        All-slice (λ x. b ≤ x) (at b) (at b') t (np.searchsorted_rest t b sorted),
        All-drop (λ x. x < b') (at b) (take (at b') t) (np.searchsorted_below t b' sorted),
      ),
      cut-Covers (idx + 1) b' bs,
    )
  ]

  at-first : at (tmin t) ≡ 0
  at-first =
      let le : at (tmin t) ≤ 0 =
        prefix-le (tmin t) (tmin t) (at (tmin t)) 0 t (omega arith)
          (np.searchsorted_length t (tmin t)) (np.searchsorted_below t (tmin t) sorted)
          (tmin-bound t (tmin t) (omega arith)) in
      omega arith

  at-last : (b : ℕ) → tmax t < b → at b ≡ length t
  at-last b lt =
      let ge : length t ≤ at b =
        prefix-le b b (length t) (at b) t (omega arith) (omega arith)
          (All-take_length (λ x. x < b) t (tmax-bound t b lt)) (np.searchsorted_rest t b sorted) in
      omega (arith, np.searchsorted_length t b)

  cut_all-Tiles :
      (step : ℕ)
      → 0 < step
      → tmin t ≤ tmax t
      → Tiles 0 0 (cut_all np t (boundaries_of (tmin t) (tmax t + 1) step)) (length t)
        × All (Covers t) (cut_all np t (boundaries_of (tmin t) (tmax t + 1) step))
  unfolding cut_all boundaries_of
  cut_all-Tiles step pos order =
      let n = tmax t + 1 + step - tmin t - 1 in
      let stop = tmax t + 1 + step in
      let bs = range_step n (tmin t + step) stop step in
      let eq : range_step (tmax t + 1 + step - tmin t) (tmin t) stop step ≡ tmin t ∷ bs =
        first_boundary in
      let end = range-last stop step pos n (tmin t) (omega arith) in
      rw eq (
        subst (λ k. Tiles k 0 (cut np t 0 (tmin t) bs) (length t)) at-first
            (subst (Tiles (at (tmin t)) 0 (cut np t 0 (tmin t) bs))
              (at-last (last (tmin t) bs) (omega (arith, end)))
              (cut-Tiles 0 (tmin t) bs (range-Increasing stop step pos n (tmin t)))),
        cut-Covers 0 (tmin t) bs,
      )
    where
      unfold_range :
          (k : ℕ)
          → k ≡ suc (tmax t + 1 + step - tmin t - 1)
          → range_step k (tmin t) (tmax t + 1 + step) step
            ≡ tmin t
              ∷ range_step (tmax t + 1 + step - tmin t - 1) (tmin t + step) (tmax t + 1 + step) step
      unfold_range k e =
          let in_range : ltb (tmin t) (tmax t + 1 + step) ≡ true = ground arith in
          rw (e, in_range, range_step) refl

      first_boundary :
          range_step (tmax t + 1 + step - tmin t) (tmin t) (tmax t + 1 + step) step
          ≡ tmin t
            ∷ range_step (tmax t + 1 + step - tmin t - 1) (tmin t + step) (tmax t + 1 + step) step
      first_boundary = unfold_range (tmax t + 1 + step - tmin t) (omega arith)

-- The settings that `to_snapshots` takes without an error.
abbrev pub Admissible : Option ℕ → Option ℕ → Type 0
Admissible num_snapshots (some interval) = 0 < interval
Admissible (some n) none = 0 < n
Admissible none none = Unit

interval_of-some :
    (num_snapshots interval : Option ℕ) (width : ℕ)
    → Admissible num_snapshots interval
    → (step : ℕ) × (interval_of num_snapshots interval width ≡ some step) × (0 < step)
unfolding interval_of
interval_of-some num_snapshots (some zero) width h = absurd (omega (arith, h))
interval_of-some num_snapshots (some (suc n)) width h = (suc n, refl, omega arith)
interval_of-some (some zero) none width h = absurd (omega (arith, h))
interval_of-some (some (suc n)) none width h = (_, refl, omega arith)
interval_of-some none none width h = (_, refl, omega arith)

tmin-le_tmax : (t : List ℕ) → tmin t ≤ tmax t
unfolding tmin tmax
tmin-le_tmax [] = omega arith
tmin-le_tmax (x ∷ []) = omega arith
tmin-le_tmax (x ∷ y ∷ t) = omega (arith, tmin-le_tmax (y ∷ t))

module _ (np : Numpy) (num_snapshots interval : Option ℕ)
    (ok : Admissible num_snapshots interval) where
  sorted-Tiles :
      (g : TemporalGraph)
      → IsValid g
      → g.is_sorted ≡ true
      → (snaps : List Snapshot) × (snapshots_of np num_snapshots interval g ≡ some snaps)
        × Tiles 0 0 snaps (length g.src)
        × All (Covers g.t) snaps
  unfolding snapshots_of
  sorted-Tiles g v marked =
      let (step, e, pos) = interval_of-some num_snapshots interval (tmax g.t + 1 - tmin g.t) ok in
      let (tiles, covers) = cut_all-Tiles np g.t (v.in_order marked) step pos (tmin-le_tmax g.t) in
      (
        cut_all np g.t (boundaries_of (tmin g.t) (tmax g.t + 1) step),
        rw (e, snapshots_of) refl,
        subst (Tiles 0 0 _) v.t_length tiles,
        covers,
      )

  -- With admissible settings `to_snapshots` succeeds on columns of the same length: the graph keeps
  -- its edges, up to order; the snapshots are numbered from 0, none is empty, and one after the
  -- other they make up all the edges; and the times of a snapshot's edges are in its window.
  pub to_snapshots-Tiles :
      (g : TemporalGraph)
      → IsValid g
      → (g' : TemporalGraph) × (snaps : List Snapshot) × (to_snapshots np num_snapshots interval g
          ≡ some (g', snaps))
        × Permᴰ (edges g) (edges g')
        × Tiles 0 0 snaps (length g'.src)
        × All (Covers g'.t) snaps
  unfolding to_snapshots
  to_snapshots-Tiles g v = elim (Bool-cases (leb (length g.src) 0)) [
    | inl empty ↦ (g, [], rw (empty, to_snapshots) refl, Permᴰ.refl (edges g), ground arith, tt)
    | inr some_edge ↦
        let (g', sorts, s) = sort_by_time-SortedFrom np g v in
        let (snaps, e, tiles, covers) = sorted-Tiles g' s.valid s.marked in
        (g', snaps, rw (some_edge, sorts, e, to_snapshots) refl, s.same_edges, tiles, covers)
  ]
