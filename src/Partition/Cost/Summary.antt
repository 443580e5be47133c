-- ===== src/Partition/Cost/Summary.antt =====
-- src/zord/partition/base.py: the counts of `_summarize` add up.
use zord.Base.{
  ℕ, zero, suc, ◌+◌, ◌≤◌, ◌<◌, ◌≡◌, refl, ◌∙◌, subst, List, [], ◌∷◌, some, some-injective, length,
  All, arith, inl, inr, Bool, Bool-cases, true, false, ◌==◌, ltb, sum,
}
use zord.Base.Options.{bind-some}
use zord.Datasets.Numpy.{gather}
use zord.Datasets.Numpy.Gather.{length-gather}
use zord.Partition.Cost.{
  Partition, count_of, count_pair, bins, counts_from, row_from, rows_from, below, summarize,
}

counts-before :
    (d n e : ℕ) (es : List ℕ) → e < d → sum (counts_from d n (e ∷ es)) ≡ sum (counts_from d n es)
unfolding counts_from count_of
counts-before d zero e es lt = refl
counts-before d (suc n) e es lt =
    let ih = counts-before (d + 1) n e es (omega arith) in ground (arith, ih)

counts-one :
    (d n e : ℕ) (es : List ℕ)
    → d ≤ e
    → e < d + n
    → sum (counts_from d n (e ∷ es)) ≡ suc (sum (counts_from d n es))
unfolding counts_from count_of
counts-one d zero e es le lt = absurd (omega arith)
counts-one d (suc n) e es le lt = elim (Bool-cases (e == d)) [
  | inl here ↦ let rest = counts-before (d + 1) n e es (ground arith) in ground (arith, rest)
  | inr later ↦
      let ih = counts-one (d + 1) n e es (ground arith) (omega arith) in ground (arith, ih)
]

counts_none : (d n : ℕ) → sum (counts_from d n []) ≡ 0
unfolding counts_from count_of
counts_none d zero = refl
counts_none d (suc n) = omega (arith, counts_none (d + 1) n)

counts-sum : (n : ℕ) (es : List ℕ) → All (λ e. e < n) es → sum (counts_from 0 n es) ≡ length es
counts-sum n [] h = counts_none 0 n
counts-sum n (e ∷ es) h =
    omega (arith, counts-one 0 n e es (omega arith) (omega (arith, h.0)), counts-sum n es h.1)

bins-All : (n k : ℕ) (es : List ℕ) → bins n es ≤ k → All (λ e. e < k) es
unfolding bins
bins-All n k [] le = tt
bins-All n k (e ∷ es) le = (omega arith, bins-All n k es (omega arith))

-- A row counts the pairs whose first is `i` and whose second is in its columns,
row-other :
    (i j n a b : ℕ) (as' bs : List ℕ)
    → (a == i) ≡ false
    → sum (row_from i j n (a ∷ as') (b ∷ bs)) ≡ sum (row_from i j n as' bs)
unfolding row_from count_pair
row-other i j zero a b as' bs ne = refl
row-other i j (suc n) a b as' bs ne =
    let ih = row-other i (j + 1) n a b as' bs ne in ground (arith, ih)

row-before :
    (i j n a b : ℕ) (as' bs : List ℕ)
    → b < j
    → sum (row_from i j n (a ∷ as') (b ∷ bs)) ≡ sum (row_from i j n as' bs)
unfolding row_from count_pair
row-before i j zero a b as' bs lt = refl
row-before i j (suc n) a b as' bs lt =
    let ih = row-before i (j + 1) n a b as' bs (omega arith) in ground (arith, ih)

row-one :
    (i j n a b : ℕ) (as' bs : List ℕ)
    → (a == i) ≡ true
    → j ≤ b
    → b < j + n
    → sum (row_from i j n (a ∷ as') (b ∷ bs)) ≡ suc (sum (row_from i j n as' bs))
unfolding row_from count_pair
row-one i j zero a b as' bs same le lt = absurd (omega arith)
row-one i j (suc n) a b as' bs same le lt = elim (Bool-cases (b == j)) [
  | inl here ↦ let rest = row-before i (j + 1) n a b as' bs (ground arith) in ground (arith, rest)
  | inr later ↦
      let ih = row-one i (j + 1) n a b as' bs same (ground arith) (omega arith) in
      ground (arith, ih)
]

-- The entries of all the rows.
abbrev pub total : List (List ℕ) → ℕ
total [] = 0
total (r ∷ rows) = sum r + total rows

-- and the rows count each pair once.
rows-before :
    (i n p a b : ℕ) (as' bs : List ℕ)
    → a < i
    → total (rows_from i n p (a ∷ as') (b ∷ bs)) ≡ total (rows_from i n p as' bs)
unfolding rows_from
rows-before i zero p a b as' bs lt = refl
rows-before i (suc n) p a b as' bs lt = omega (
  arith,
  row-other i 0 p a b as' bs (ground arith),
  rows-before (i + 1) n p a b as' bs (omega arith),
)

rows-one :
    (i n p a b : ℕ) (as' bs : List ℕ)
    → i ≤ a
    → a < i + n
    → b < p
    → total (rows_from i n p (a ∷ as') (b ∷ bs)) ≡ suc (total (rows_from i n p as' bs))
unfolding rows_from
rows-one i zero p a b as' bs le lt inside = absurd (omega arith)
rows-one i (suc n) p a b as' bs le lt inside = elim (Bool-cases (a == i)) [
  | inl here ↦ omega (
    arith,
    row-one i 0 p a b as' bs here (omega arith) (omega arith),
    rows-before (i + 1) n p a b as' bs (ground arith),
  )
  | inr later ↦ omega (
    arith,
    row-other i 0 p a b as' bs later,
    rows-one (i + 1) n p a b as' bs (ground arith) (omega arith) inside,
  )
]

row_none : (i j n : ℕ) → sum (row_from i j n [] []) ≡ 0
unfolding row_from count_pair
row_none i j zero = refl
row_none i j (suc n) = omega (arith, row_none i (j + 1) n)

rows_none : (i n p : ℕ) → total (rows_from i n p [] []) ≡ 0
unfolding rows_from
rows_none i zero p = refl
rows_none i (suc n) p = omega (arith, row_none i 0 p, rows_none (i + 1) n p)

rows-total :
    (p : ℕ) (as' bs : List ℕ)
    → length bs ≡ length as'
    → All (λ a. a < p) as'
    → All (λ b. b < p) bs
    → total (rows_from 0 p p as' bs) ≡ length as'
rows-total p [] [] len h k = rows_none 0 p p
rows-total p [] (b ∷ bs) len h k = absurd (omega (arith, len))
rows-total p (a ∷ as') [] len h k = absurd (omega (arith, len))
rows-total p (a ∷ as') (b ∷ bs) len h k = omega (
  arith,
  rows-one 0 p p a b as' bs (omega arith) (omega (arith, h.0)) k.0,
  rows-total p as' bs (omega (arith, len)) h.1 k.1,
)

below-All : (p : ℕ) (ds : List ℕ) (b : Bool) → below p ds ≡ some b → All (λ d. d < p) ds
unfolding below
below-All p [] b e = tt
below-All p (d ∷ ds) b e = elim (Bool-cases (ltb d p)) [
  | inl lt ↦ (ground arith, below-All p ds b (rw (lt, below) at e))
  | inr ge ↦ absurd (let q = rw (ge, below) at e in cc)
]

-- A summary of columns of the same length counts every node once over the devices, and every edge
-- once over the pairs of devices.
pub summarize-totals :
    (assignment src dst : List ℕ) (num_devices : ℕ) (p : Partition)
    → length dst ≡ length src
    → summarize assignment src dst num_devices ≡ some p
    → (sum p.nodes_per_device ≡ length assignment) × (total p.cross_edges ≡ length src)
unfolding summarize
summarize-totals assignment src dst num_devices p same e =
    let (a_src, src_done, e1) = bind-some (gather assignment src) _ p e in
    let (a_dst, dst_done, e2) = bind-some (gather assignment dst) _ p e1 in
    let (b1, src_in, e3) = bind-some (below num_devices a_src) _ p e2 in
    let (b2, dst_in, e4) = bind-some (below num_devices a_dst) _ p e3 in
    let len_src = length-gather assignment src a_src src_done in
    let len_dst = length-gather assignment dst a_dst dst_done in
    subst (λ q. (sum q.nodes_per_device ≡ length assignment) × (total q.cross_edges ≡ length src))
      (some-injective _ _ e4)
      (
        counts-sum (bins num_devices assignment) assignment
            (bins-All num_devices (bins num_devices assignment) assignment (omega arith)),
        rows-total num_devices a_src a_dst (omega (arith, len_src, len_dst, same))
              (below-All num_devices a_src b1 src_in) (below-All num_devices a_dst b2 dst_in)
            ∙ len_src,
      )
