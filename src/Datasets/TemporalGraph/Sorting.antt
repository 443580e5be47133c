-- ===== src/Datasets/TemporalGraph/Sorting.antt =====
-- src/zord/datasets/temporal_graph.py, src/zord/storage/backend.py: sorting by time and ingesting.
use zord.Base.{
  ℕ, zero, suc, ◌+◌, ◌≤◌, ◌<◌, ◌≡◌, refl, sym, ◌∙◌, subst, List, Option, none, some, some-injective,
  length, All, arith, inl, inr, Option-cases, true, Bool-cases,
}
use zord.Base.Ranges.{range_up, length-range_up}
use zord.Base.Rows.{zip, length-zip}
use zord.Datasets.Numpy.{Numpy, Sorted, gather}
use zord.Datasets.Numpy.Gather.{
  length-Permᴰ, gather-Perm, gather_all, gather-zip, gather-All, length-gather, All-Permᴰ,
}
use zord.Datasets.TemporalGraph.{TemporalGraph, gather_optional, reorder, sort_by_time, edges}
use mathlib.Core.List.{Permᴰ}
use mathlib.Core.List.Permᴰ

-- A column that may be absent has `n` items if it is there.
abbrev pub Fits {ℓ} : {A : Type ℓ} → ℕ → Option (List A) → Type 0
Fits n none = Unit
Fits n (some xs) = length xs ≡ n

-- The columns are of the same length, and a graph marked as sorted is.
pub record IsValid (g : TemporalGraph) : Type 0 where
  pub dst_length : length g.dst ≡ length g.src
  pub t_length : length g.t ≡ length g.src
  pub w_length : Fits (length g.src) g.w
  pub efeat_length : Fits (length g.src) g.efeat
  pub in_order : g.is_sorted ≡ true → Sorted g.t

module _ (n : ℕ) (order : List ℕ) (p : Permᴰ (range_up 0 n) order) where
  length-order : length order ≡ n
  length-order = sym (length-Permᴰ p) ∙ length-range_up 0 n

  -- A column of `n` items can be reordered.
  pub column {ℓ} :
      {A : Type ℓ} (xs : List A)
      → length xs ≡ n
      → (ys : List A) × (gather xs order ≡ some ys) × (length ys ≡ n) × Permᴰ xs ys
  column xs e =
      let full = subst (λ k. gather xs (range_up 0 k) ≡ some xs) e (gather_all xs) in
      let (ys, done, q) = gather-Perm xs p xs full in
      (ys, done, length-gather xs order ys done ∙ length-order, q)

  optional_column {ℓ} :
      {A : Type ℓ} (o : Option (List A))
      → Fits n o
      → (o' : Option (List A)) × (gather_optional o order ≡ some o') × Fits n o'
  unfolding gather_optional
  optional_column none h = (none, refl, tt)
  optional_column (some xs) h =
      let (ys, done, len, _) = column xs h in (some ys, rw (done, gather_optional) refl, len)

  -- A column that is shorter than the order cannot.
  pub column_short {ℓ} : {A : Type ℓ} (xs : List A) → length xs < n → gather xs order ≡ none
  unfolding range_up
  column_short xs short = elim (Option-cases (gather xs order)) [
    | inl gone ↦ gone
    | inr (ys, done) ↦ absurd (
        omega (
          arith,
          beyond n 0 (All-Permᴰ (λ j. j < length xs) (Permᴰ.symm p) (gather-All xs order ys done))
              (omega arith) (omega arith),
        ))
  ]
    where
      beyond :
          (k i : ℕ)
          → All (λ j. j < length xs) (range_up i k)
          → length xs < i + k
          → i ≤ length xs
          → 1 ≤ 0
      beyond zero i h lt le = omega arith
      beyond (suc k) i h lt le = beyond k (i + 1) h.1 (omega arith) (omega (arith, h.0))

-- What sorting does.
pub record SortedFrom (g g' : TemporalGraph) : Type 0 where
  pub valid : IsValid g'
  pub marked : g'.is_sorted ≡ true
  pub same_edges : Permᴰ (edges g) (edges g')
  pub same_nodes : g'.num_nodes ≡ g.num_nodes

module _ (np : Numpy) (g : TemporalGraph) (v : IsValid g) where
  abbrev order : List ℕ
  order = np.argsort g.t

  order_perm : Permᴰ (range_up 0 (length g.src)) order
  order_perm = subst (λ k. Permᴰ (range_up 0 k) order) v.t_length (np.argsort_perm g.t)

  reorder-SortedFrom : (g' : TemporalGraph) × (reorder g order ≡ some g') × SortedFrom g g'
  unfolding reorder
  reorder-SortedFrom =
      let n = length g.src in
      let (src, src_done, src_len, _) = column n order order_perm g.src refl in
      let (dst, dst_done, dst_len, _) = column n order order_perm g.dst v.dst_length in
      let (t, t_done, t_len, _) = column n order order_perm g.t v.t_length in
      let (w, w_done, w_fits) = optional_column n order order_perm g.w v.w_length in
      let (ef, ef_done, ef_fits) = optional_column n order order_perm g.efeat v.efeat_length in
      let rows =
        gather-zip g.src (zip g.dst g.t) order src (zip dst t) src_done
          (gather-zip g.dst g.t order dst t dst_done t_done) in
      let row_count : length (edges g) ≡ n =
        length-zip g.src (zip g.dst g.t)
          (length-zip g.dst g.t (v.t_length ∙ sym v.dst_length) ∙ v.dst_length) in
      let (moved, moved_done, _, q) = column n order order_perm (edges g) row_count in
      (
        record {
          src = src;
          dst = dst;
          t = t;
          w = w;
          efeat = ef;
          num_nodes = g.num_nodes;
          is_sorted = true;
        },
        rw (src_done, dst_done, t_done, w_done, ef_done, reorder) refl,
        record {
          valid = record {
            dst_length = dst_len ∙ sym src_len;
            t_length = t_len ∙ sym src_len;
            w_length = subst (λ k. Fits k w) (sym src_len) w_fits;
            efeat_length = subst (λ k. Fits k ef) (sym src_len) ef_fits;
            in_order = λ _. np.argsort_sorts g.t t t_done;
          };
          marked = refl;
          same_edges = subst (Permᴰ (edges g)) (some-injective _ _ (sym moved_done ∙ rows)) q;
          same_nodes = refl;
        },
      )

  -- On columns of the same length `sort_by_time` succeeds: the graph is then sorted by time, and its
  -- edges are those it had.
  pub sort_by_time-SortedFrom :
      (g' : TemporalGraph) × (sort_by_time np g ≡ some g') × SortedFrom g g'
  unfolding sort_by_time
  sort_by_time-SortedFrom = elim (Bool-cases g.is_sorted) [
    | inl done ↦ (
      g,
      rw (done, sort_by_time) refl,
      record { valid = v; marked = done; same_edges = Permᴰ.refl _; same_nodes = refl },
    )
    | inr not_yet ↦ let (g', e, s) = reorder-SortedFrom in (g', rw (not_yet, sort_by_time) e, s)
  ]
