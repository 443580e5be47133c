-- ===== src/Datasets/TemporalGraph/Store.antt =====
-- src/zord/storage/backend.py: the range query and the ingestion of the store in memory.
use zord.Base.{
  ℕ, zero, suc, ◌≤◌, ◌<◌, ◌≡◌, refl, sym, ap, ◌∙◌, subst, List, [], ◌∷◌, ◌++◌, Option, none, some,
  length, length-append, All, arith, Bool, true, false, ◌&&◌, leb, ltb,
}
use zord.Base.Rows.{zip, take, drop, slice, filter, zip-take, zip-drop, All-zip, length-zip}
use zord.Datasets.Numpy.{Numpy, Sorted}
use zord.Datasets.TemporalGraph.{
  TemporalGraph, gather_optional, reorder, sort_by_time, edges, ingest, range, make,
}
use zord.Datasets.TemporalGraph.Sorting.{
  IsValid, Fits, sort_by_time-SortedFrom, column, column_short,
}
use mathlib.Core.List.{Permᴰ}

-- An edge is in the window [t0, t1).
unfoldable pub in_window : ℕ → ℕ → ℕ × (ℕ × ℕ) → Bool
in_window t0 t1 (_, (_, t)) = leb t0 t && ltb t t1

filter_late :
    (t0 t1 : ℕ) (rows : List (ℕ × (ℕ × ℕ)))
    → All (λ r. t1 ≤ r.1.1) rows
    → filter (in_window t0 t1) rows ≡ []
unfolding in_window
filter_late t0 t1 [] h = refl
filter_late t0 t1 (r ∷ rows) h = ground (arith, h.0, filter_late t0 t1 rows h.1)

-- Where the rows below `t0` and below `t1` are two prefixes, the rows of the window are a slice.
filter-slice :
    (t0 t1 lo hi : ℕ) (rows : List (ℕ × (ℕ × ℕ)))
    → All (λ r. r.1.1 < t0) (take lo rows)
    → All (λ r. t0 ≤ r.1.1) (drop lo rows)
    → All (λ r. r.1.1 < t1) (take hi rows)
    → All (λ r. t1 ≤ r.1.1) (drop hi rows)
    → filter (in_window t0 t1) rows ≡ slice lo hi rows
unfolding in_window
filter-slice t0 t1 zero zero [] a b c d = refl
filter-slice t0 t1 zero (suc hi) [] a b c d = refl
filter-slice t0 t1 (suc lo) zero [] a b c d = refl
filter-slice t0 t1 (suc lo) (suc hi) [] a b c d = refl
filter-slice t0 t1 zero zero (r ∷ rows) a b c d = filter_late t0 t1 (r ∷ rows) d
filter-slice t0 t1 zero (suc hi) (r ∷ rows) a b c d =
    let ih = filter-slice t0 t1 zero hi rows tt b.1 c.1 d in ground (arith, ih, b.0, c.0)
filter-slice t0 t1 (suc lo) zero (r ∷ rows) a b c d = filter_late t0 t1 (r ∷ rows) d
filter-slice t0 t1 (suc lo) (suc hi) (r ∷ rows) a b c d =
    let ih = filter-slice t0 t1 lo hi rows a.1 b c.1 d in ground (arith, ih, a.0)

module _ (np : Numpy) (g : TemporalGraph) where
  rows-slice :
      (lo hi : ℕ)
      → zip (slice lo hi g.src) (zip (slice lo hi g.dst) (slice lo hi g.t)) ≡ slice lo hi (edges g)
  rows-slice lo hi =
      ap (zip (slice lo hi g.src))
        (zip-drop lo (take hi g.dst) (take hi g.t) ∙ ap (drop lo) (zip-take hi g.dst g.t))
      ∙ zip-drop lo (take hi g.src) (take hi (zip g.dst g.t))
      ∙ ap (drop lo) (zip-take hi g.src (zip g.dst g.t))

  below : (v : ℕ) → Sorted g.t → All (λ r. r.1.1 < v) (take (np.searchsorted g.t v) (edges g))
  below v s =
      let k = np.searchsorted g.t v in
      subst (All (λ r. r.1.1 < v))
        (ap (zip (take k g.src)) (zip-take k g.dst g.t) ∙ zip-take k g.src (zip g.dst g.t))
        (All-zip (λ q. q.1 < v) (take k g.src) _
          (All-zip (λ t. t < v) (take k g.dst) (take k g.t) (np.searchsorted_below g.t v s)))

  rest : (v : ℕ) → Sorted g.t → All (λ r. v ≤ r.1.1) (drop (np.searchsorted g.t v) (edges g))
  rest v s =
      let k = np.searchsorted g.t v in
      subst (All (λ r. v ≤ r.1.1))
        (ap (zip (drop k g.src)) (zip-drop k g.dst g.t) ∙ zip-drop k g.src (zip g.dst g.t))
        (All-zip (λ q. v ≤ q.1) (drop k g.src) _
          (All-zip (λ t. v ≤ t) (drop k g.dst) (drop k g.t) (np.searchsorted_rest g.t v s)))

  -- On a sorted graph the range query returns exactly the edges of the time window, in order.
  pub range-filter :
      (t0 t1 : ℕ) → Sorted g.t → edges (range np g t0 t1) ≡ filter (in_window t0 t1) (edges g)
  unfolding range make
  range-filter t0 t1 s =
      rows-slice (np.searchsorted g.t t0) (np.searchsorted g.t t1)
      ∙ sym (filter-slice t0 t1 _ _ (edges g) (below t0 s) (rest t0 s) (below t1 s) (rest t1 s))

zip-append {ℓ κ} :
    {A : Type ℓ} {B : Type κ} (xs xs' : List A) (ys ys' : List B)
    → length ys ≡ length xs
    → zip (xs ++ xs') (ys ++ ys') ≡ zip xs ys ++ zip xs' ys'
zip-append [] xs' [] ys' h = refl
zip-append [] xs' (y ∷ ys) ys' h = absurd (omega arith)
zip-append (x ∷ xs) xs' [] ys' h = absurd (omega arith)
zip-append (x ∷ xs) xs' (y ∷ ys) ys' h =
    ap (λ l. (x, y) ∷ l) (zip-append xs xs' ys ys' (omega arith))

module _ (np : Numpy) (g : TemporalGraph) (v : IsValid g) (src dst t : List ℕ)
    (w : Option (List ℕ)) where
  abbrev extended : TemporalGraph
  extended = record g { src = g.src ++ src; dst = g.dst ++ dst; t = g.t ++ t; is_sorted = false }

  module _ (same_dst : length dst ≡ length src) (same_t : length t ≡ length src) where
    -- Without weights and edge features, an ingestion of columns of the same length succeeds: the
    -- store is again valid and sorted, holds its edges and the new ones, and keeps the number of
    -- nodes, whatever nodes the new edges name.
    pub ingest-edges :
        g.w ≡ none
        → g.efeat ≡ none
        → (g' : TemporalGraph) × (ingest np g src dst t w ≡ some g')
          × IsValid g'
          × (g'.is_sorted ≡ true)
          × Permᴰ (edges g ++ zip src (zip dst t)) (edges g')
          × (g'.num_nodes ≡ g.num_nodes)
    unfolding ingest
    ingest-edges no_w no_ef =
        let valid : IsValid extended = record {
          dst_length =
              grind (arith, length-append g.src src, length-append g.dst dst, v.dst_length);
          t_length = grind (arith, length-append g.src src, length-append g.t t, v.t_length);
          w_length = rw no_w tt;
          efeat_length = rw no_ef tt;
          in_order = λ e. absurd (cc);
        } in
        let (g', done, s) = sort_by_time-SortedFrom np extended valid in
        let rows : edges extended ≡ edges g ++ zip src (zip dst t) =
          ap (zip (g.src ++ src)) (zip-append g.dst dst g.t t (v.t_length ∙ sym v.dst_length))
          ∙ zip-append g.src src (zip g.dst g.t) (zip dst t)
              (length-zip g.dst g.t (v.t_length ∙ sym v.dst_length) ∙ v.dst_length) in
        (
          g',
          done,
          s.valid,
          s.marked,
          subst (λ l. Permᴰ l (edges g')) rows s.same_edges,
          s.same_nodes,
        )

    -- With weights, an ingestion of one edge at least is an error, also if weights are passed: the
    -- old weights are reordered by an order of all the edges.
    pub ingest-weighted_fails :
        (ws : List ℕ) → g.w ≡ some ws → 0 < length src → ingest np g src dst t w ≡ none
    unfolding ingest sort_by_time
    ingest-weighted_fails ws weighted more =
        let n = length (g.t ++ t) in
        let order = np.argsort (g.t ++ t) in
        let p = np.argsort_perm (g.t ++ t) in
        let fits : length ws ≡ length g.src = subst (Fits (length g.src)) weighted v.w_length in
        let (srcs, src_done, _, _) =
          column n order p (g.src ++ src)
            (grind (arith, length-append g.src src, length-append g.t t, v.t_length)) in
        let (dsts, dst_done, _, _) =
          column n order p (g.dst ++ dst) (
            grind
              (arith, length-append g.dst dst, length-append g.t t, v.t_length, v.dst_length)) in
        let (ts, t_done, _, _) = column n order p (g.t ++ t) refl in
        let short =
          column_short n order p ws (grind (arith, length-append g.t t, v.t_length, fits)) in
        rw (src_done, dst_done, t_done, weighted, short, reorder, gather_optional) refl
