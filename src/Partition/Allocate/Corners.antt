-- ===== src/Partition/Allocate/Corners.antt =====
-- src/zord/partition/allocate.py: whole snapshots on a device cut no edge, whole timelines no vertex,
-- and the solver is at most as costly as either.
use zord.Base.{
  ◌/◌, if◌then◌else◌, ℕ, ◌+◌, ◌*◌, ◌%◌, ◌≤◌, ◌<◌, ◌≡◌, refl, sym, ap, ◌∙◌, subst, List, ◌++◌, some,
  some-injective, length, get_elem?, All, arith, inl, inr, Bool-cases, false, ◌==◌, ltb,
}
use zord.Base.Options.{bind-some}
use zord.Datasets.Numpy.{Numpy}
use zord.Datasets.Unique.{Unique}
use zord.Partition.Allocate.{
  keys_of, Cells, build_supra_cells, cut, count_cuts, block, block_of, cost_of, numpy_supra_solve,
}
use zord.Partition.Allocate.Alike.{
  Alike, cut-each, cut-total, consecutive-Alike, unlike-Alike, Memᴰ-append,
}

-- A device for each whole block is one of the devices.
pub block_of-lt : (np : Numpy) (d : ℕ) (uniq : List ℕ) (c : ℕ) → 0 < d → block_of np d uniq c < d
unfolding block_of
block_of-lt np d uniq c pos = omega arith

cost_of-parts :
    (w_s w_t : ℕ) (cells : Cells) (dev : List ℕ) (c : ℕ)
    → cost_of w_s w_t cells dev ≡ some c
    → (sc : ℕ) × (tc : ℕ) × (cut dev cells.sp ≡ some sc)
      × (cut dev cells.tp ≡ some tc)
      × (c ≡ w_s * sc + w_t * tc)
unfolding cost_of count_cuts
cost_of-parts w_s w_t cells dev c e =
    let (both, counted, e1) = bind-some (count_cuts dev cells) _ c e in
    let (sc, spatial, e2) = bind-some (cut dev cells.sp) _ both counted in
    let (tc, temporal, e3) = bind-some (cut dev cells.tp) _ both e2 in
    let q = some-injective _ _ e3 in
    (
      sc,
      tc,
      spatial,
      temporal,
      sym (some-injective _ _ e1) ∙ ap (λ p. w_s * p.0 + w_t * p.1) (sym q),
    )

-- The solution is one of the corners, the cheaper one.
solve-corner :
    (np : Numpy) (un : Unique) (cells : Cells) (d w_s w_t : ℕ) (dev : List ℕ)
    → 0 < length cells.cell_v
    → numpy_supra_solve np un cells d w_s w_t ≡ some dev
    → (cp : ℕ) × (ct : ℕ) × (c : ℕ) × (cost_of w_s w_t cells (block np un d cells.cell_t) ≡ some cp)
      × (cost_of w_s w_t cells (block np un d cells.cell_v) ≡ some ct)
      × (cost_of w_s w_t cells dev ≡ some c)
      × (c ≤ cp)
      × (c ≤ ct)
unfolding numpy_supra_solve
solve-corner np un cells d w_s w_t dev some_cell solved =
    let pss = block np un d cells.cell_t in
    let pts = block np un d cells.cell_v in
    let some_one : (length cells.cell_v == 0) ≡ false = ground arith in
    let chain = rw (some_one, numpy_supra_solve) at solved in
    let (cp, cp_done, e1) = bind-some (cost_of w_s w_t cells pss) _ dev chain in
    let (ct, ct_done, e2) = bind-some (cost_of w_s w_t cells pts) _ dev e1 in
    elim (Bool-cases (ltb ct cp)) [
      | inl lt ↦
          let q : pts ≡ dev = some-injective _ _ (rw lt at e2) in
          (
            cp,
            ct,
            ct,
            cp_done,
            ct_done,
            subst (λ l. cost_of w_s w_t cells l ≡ some ct) q ct_done,
            ground arith,
            omega arith,
          )
      | inr ge ↦
          let q : pss ≡ dev = some-injective _ _ (rw ge at e2) in
          (
            cp,
            ct,
            cp,
            cp_done,
            ct_done,
            subst (λ l. cost_of w_s w_t cells l ≡ some cp) q cp_done,
            omega arith,
            ground arith,
          )
    ]

-- The corner solver succeeds where both corners have their cuts.
solve-total :
    (np : Numpy) (un : Unique) (cells : Cells) (d w_s w_t : ℕ)
    → 0 < length cells.cell_v
    → (cp ct : ℕ) → cost_of w_s w_t cells (block np un d cells.cell_t) ≡ some cp
    → cost_of w_s w_t cells (block np un d cells.cell_v) ≡ some ct
    → (dev : List ℕ) × (numpy_supra_solve np un cells d w_s w_t ≡ some dev)
unfolding numpy_supra_solve
solve-total np un cells d w_s w_t some_cell cp ct p_is t_is =
    let some_one : (length cells.cell_v == 0) ≡ false = ground arith in
    (
      (if ltb ct cp then block np un d cells.cell_v else block np un d cells.cell_t),
      rw (some_one, p_is, t_is) refl,
    )

cost_of-total :
    (w_s w_t : ℕ) (cells : Cells) (dev : List ℕ) (sc tc : ℕ)
    → cut dev cells.sp ≡ some sc
    → cut dev cells.tp ≡ some tc
    → cost_of w_s w_t cells dev ≡ some (w_s * sc + w_t * tc)
unfolding cost_of count_cuts
cost_of-total w_s w_t cells dev sc tc s_is t_is = rw (s_is, t_is) refl

module _ (np : Numpy) (un : Unique) (src dst snap : List ℕ) (s d : ℕ) where
  abbrev cells : Cells
  cells = build_supra_cells np un src dst snap s

  edges-Alike : All (λ t. t < s) snap → All (Alike cells.cell_t) cells.sp
  unfolding build_supra_cells
  edges-Alike inside =
      unlike-Alike np un s (keys_of s src snap ++ keys_of s dst snap) src dst snap inside
        (λ k m. Memᴰ-append k (keys_of s src snap) (keys_of s dst snap) m)

  timelines-Alike : All (Alike cells.cell_v) cells.tp
  unfolding build_supra_cells
  timelines-Alike = consecutive-Alike cells.cell_v 0 cells.cell_v (λ k x e.
      (let z : k ≡ 0 + k = omega arith in subst (λ j. get_elem? cells.cell_v j ≡ some x) z e))

  -- Where every edge is in one of the `s` snapshots, putting whole snapshots on devices cuts no edge.
  pub spatial_cut-zero : All (λ t. t < s) snap → cut (block np un d cells.cell_t) cells.sp ≡ some 0
  unfolding build_supra_cells block
  spatial_cut-zero inside =
      cut-each (block_of np d (un.unique cells.cell_t)) cells.cell_t cells.sp (edges-Alike inside)

  -- Putting whole timelines on devices cuts no vertex.
  pub temporal_cut-zero : cut (block np un d cells.cell_v) cells.tp ≡ some 0
  unfolding build_supra_cells block
  temporal_cut-zero =
      cut-each (block_of np d (un.unique cells.cell_v)) cells.cell_v cells.tp timelines-Alike

  -- The solver returns a device for each cell.
  numpy_supra_solve-total :
      (w_s w_t : ℕ)
      → All (λ t. t < s) snap
      → 0 < length cells.cell_v
      → (dev : List ℕ) × (numpy_supra_solve np un cells d w_s w_t ≡ some dev)
  unfolding build_supra_cells block
  numpy_supra_solve-total w_s w_t inside some_cell =
      let all = keys_of s src snap ++ keys_of s dst snap in
      let (tp, tp_is) =
        cut-total (λ k. k / s) (λ k. k % s) (block_of np d (un.unique cells.cell_t)) (un.unique all)
          cells.tp timelines-Alike in
      let (sp, sp_is) =
        cut-total (λ k. k % s) (λ k. k / s) (block_of np d (un.unique cells.cell_v)) (un.unique all)
          cells.sp (edges-Alike inside) in
      solve-total np un cells d w_s w_t some_cell _ _
        (cost_of-total w_s w_t cells (block np un d cells.cell_t) 0 tp (spatial_cut-zero inside)
          tp_is)
        (cost_of-total w_s w_t cells (block np un d cells.cell_v) sp 0 sp_is temporal_cut-zero)

  -- Where every edge is in one of the `s` snapshots and there is a cell, the corner solver has a
  -- solution, which costs no more than the weighted temporal cut of whole snapshots, and no more than
  -- the weighted spatial cut of whole timelines.
  pub numpy_supra_solve-cost :
      (w_s w_t : ℕ)
      → All (λ t. t < s) snap
      → 0 < length cells.cell_v
      → (dev : List ℕ) × (cost : ℕ) × (tc : ℕ) × (sc : ℕ) × (numpy_supra_solve np un cells d w_s w_t
          ≡ some dev)
        × (cost_of w_s w_t cells dev ≡ some cost)
        × (cut (block np un d cells.cell_t) cells.tp ≡ some tc)
        × (cut (block np un d cells.cell_v) cells.sp ≡ some sc)
        × (cost ≤ w_t * tc)
        × (cost ≤ w_s * sc)
  numpy_supra_solve-cost w_s w_t inside some_cell =
      let (dev, solved) = numpy_supra_solve-total w_s w_t inside some_cell in
      let (cp, ct, c, p_done, t_done, dev_done, le_p, le_t) =
        solve-corner np un cells d w_s w_t dev some_cell solved in
      let (sp, tp, sp_cut, tp_cut, p_is) =
        cost_of-parts w_s w_t cells (block np un d cells.cell_t) cp p_done in
      let (st, tt', st_cut, tt_cut, t_is) =
        cost_of-parts w_s w_t cells (block np un d cells.cell_v) ct t_done in
      let no_edge : 0 ≡ sp = some-injective _ _ (sym (spatial_cut-zero inside) ∙ sp_cut) in
      let no_vertex : 0 ≡ tt' = some-injective _ _ (sym temporal_cut-zero ∙ tt_cut) in
      let p_left : w_s * sp ≡ w_s * 0 = ap (λ k. w_s * k) (sym no_edge) in
      let t_left : w_t * tt' ≡ w_t * 0 = ap (λ k. w_t * k) (sym no_vertex) in
      (
        dev,
        c,
        tp,
        st,
        solved,
        dev_done,
        tp_cut,
        st_cut,
        omega (arith, le_p, p_is, p_left),
        omega (arith, le_t, t_is, t_left),
      )
