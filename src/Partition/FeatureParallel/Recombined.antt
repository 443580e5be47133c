-- ===== src/Partition/FeatureParallel/Recombined.antt =====
-- src/zord/partition/feature_parallel.py: aggregating slices of columns and putting them side by side is
-- aggregating all columns.
use zord.Base.{
  ℕ, zero, suc, ◌+◌, ◌-◌, ◌≤◌, ◌≡◌, refl, sym, ap, ◌∙◌, subst, List, [], ◌∷◌, ◌++◌, some,
  some-injective, length, get_elem?, All, Option-cases, inl, inr, arith, map, min, sum, ◌==◌, true,
}
use zord.Base.Options.{◌>>=◌, bind-some}
use zord.Base.Rows.{take, drop, slice}
use zord.Partition.FeatureParallel.{
  Matrix, repeat, add_row, add_to, add_at, aggregate, columns, parts, beside, concatenate,
  fp_aggregate_consistency,
}

module _ {ℓ} {A : Type ℓ} (plus : A → A → A) where
  take-add_row :
      (n : ℕ) (xs ys : List A) → take n (add_row plus xs ys) ≡ add_row plus (take n xs) (take n ys)
  unfolding add_row
  take-add_row zero xs ys = refl
  take-add_row (suc n) [] ys = refl
  take-add_row (suc n) (x ∷ xs) [] = refl
  take-add_row (suc n) (x ∷ xs) (y ∷ ys) = ap (◌∷◌ (plus x y)) (take-add_row n xs ys)

  add_row-nil : (xs : List A) → add_row plus xs [] ≡ []
  unfolding add_row
  add_row-nil [] = refl
  add_row-nil (x ∷ xs) = refl

  drop-add_row :
      (n : ℕ) (xs ys : List A) → drop n (add_row plus xs ys) ≡ add_row plus (drop n xs) (drop n ys)
  unfolding add_row
  drop-add_row zero xs ys = refl
  drop-add_row (suc n) [] ys = refl
  drop-add_row (suc n) (x ∷ xs) [] = sym (add_row-nil (drop n xs))
  drop-add_row (suc n) (x ∷ xs) (y ∷ ys) = drop-add_row n xs ys

  slice-add_row :
      (c e : ℕ) (xs ys : List A)
      → slice c e (add_row plus xs ys) ≡ add_row plus (slice c e xs) (slice c e ys)
  slice-add_row c e xs ys =
      ap (drop c) (take-add_row e xs ys) ∙ drop-add_row c (take e xs) (take e ys)

  get-map :
      (g : List A → List A) (x : List (List A)) (i : ℕ) (r : List A)
      → get_elem? x i ≡ some r
      → get_elem? (map g x) i ≡ some (g r)
  get-map g [] i r e = absurd (cc)
  get-map g (s ∷ x) zero r e = ap some (ap g (some-injective _ _ e))
  get-map g (s ∷ x) (suc i) r e = get-map g x i r e

  -- Slicing the columns commutes with the additions.
  module _ (c e : ℕ) where
    add_to-slice :
        (h : List (List A)) (i : ℕ) (row : List A) (h' : List (List A))
        → add_to plus h i row ≡ some h'
        → add_to plus (map (slice c e) h) i (slice c e row) ≡ some (map (slice c e) h')
    unfolding add_to
    add_to-slice [] i row h' q = absurd (cc)
    add_to-slice (r ∷ h) zero row h' q =
        ap some (ap (λ s. s ∷ map (slice c e) h) (sym (slice-add_row c e r row)))
        ∙ ap (λ s. some (map (slice c e) s)) (some-injective _ _ q)
    add_to-slice (r ∷ h) (suc i) row h' q =
        let (rest, done, is_h') = bind-some (add_to plus h i row) _ h' q in
        rw (add_to-slice h i row rest done)
          (ap (λ s. some (map (slice c e) s)) (some-injective _ _ is_h'))

    add_at-slice :
        (h : List (List A)) (to from : List ℕ) (x h' : List (List A))
        → add_at plus h to from x ≡ some h'
        → add_at plus (map (slice c e) h) to from (map (slice c e) x) ≡ some (map (slice c e) h')
    unfolding add_at
    add_at-slice h [] from x h' q = ap (λ s. some (map (slice c e) s)) (some-injective _ _ q)
    add_at-slice h (t ∷ to) [] x h' q = ap (λ s. some (map (slice c e) s)) (some-injective _ _ q)
    add_at-slice h (t ∷ to) (f ∷ from) x h' q =
        let (row, at_f, q1) = bind-some (get_elem? x f) _ h' q in
        let (added, add_done, q2) = bind-some (add_to plus h t row) _ h' q1 in
        rw (get-map (slice c e) x f row at_f, add_to-slice h t row added add_done)
          (add_at-slice added to from x h' q2)

take-repeat {ℓ} : {A : Type ℓ} (z : A) (e n : ℕ) → take e (repeat n z) ≡ repeat (min e n) z
unfolding repeat
take-repeat z zero n = let none_left : 0 ≡ min 0 n = omega arith in ap (λ k. repeat k z) none_left
take-repeat z (suc e) zero =
    let none_left : 0 ≡ min (suc e) 0 = omega arith in ap (λ k. repeat k z) none_left
take-repeat z (suc e) (suc n) =
    let same : suc (min e n) ≡ min (suc e) (suc n) = omega arith in
    ap (◌∷◌ z) (take-repeat z e n) ∙ ap (λ k. repeat k z) same

drop-repeat {ℓ} : {A : Type ℓ} (z : A) (c n : ℕ) → drop c (repeat n z) ≡ repeat (n - c) z
unfolding repeat
drop-repeat z zero n = let same : n ≡ n - 0 = omega arith in ap (λ k. repeat k z) same
drop-repeat z (suc c) zero =
    let none_left : 0 ≡ 0 - suc c = omega arith in ap (λ k. repeat k z) none_left
drop-repeat z (suc c) (suc n) =
    let same : n - c ≡ suc n - suc c = omega arith in drop-repeat z c n ∙ ap (λ k. repeat k z) same

slice-repeat {ℓ} :
    {A : Type ℓ} (z : A) (c e n : ℕ) → slice c e (repeat n z) ≡ repeat (min e n - min c n) z
slice-repeat z c e n =
    let same : min e n - c ≡ min e n - min c n = omega arith in
    ap (drop c) (take-repeat z e n) ∙ drop-repeat z c (min e n) ∙ ap (λ k. repeat k z) same

map-repeat {ℓ} : {A : Type ℓ} (g : A → A) (n : ℕ) (x : A) → map g (repeat n x) ≡ repeat n (g x)
unfolding repeat
map-repeat g zero x = refl
map-repeat g (suc n) x = ap (◌∷◌ (g x)) (map-repeat g n x)

-- Two slices next to each other are one.
pub slice-join {ℓ} :
    {A : Type ℓ} (c a e : ℕ) (xs : List A)
    → c ≤ a
    → a ≤ e
    → slice c a xs ++ slice a e xs ≡ slice c e xs
slice-join zero zero e xs h k = refl
slice-join zero (suc a) zero xs h k = absurd (omega arith)
slice-join zero (suc a) (suc e) [] h k = refl
slice-join zero (suc a) (suc e) (x ∷ xs) h k =
    ap (◌∷◌ x) (slice-join zero a e xs (omega arith) (omega arith))
slice-join (suc c) zero e xs h k = absurd (omega arith)
slice-join (suc c) (suc a) zero xs h k = absurd (omega arith)
slice-join (suc c) (suc a) (suc e) [] h k = refl
slice-join (suc c) (suc a) (suc e) (x ∷ xs) h k = slice-join c a e xs (omega arith) (omega arith)

beside-slice {ℓ} :
    {A : Type ℓ} (c a e : ℕ) (h : List (List A))
    → c ≤ a
    → a ≤ e
    → beside (map (slice c a) h) (map (slice a e) h) ≡ map (slice c e) h
unfolding beside
beside-slice c a e [] lo hi = refl
beside-slice c a e (r ∷ h) lo hi =
    ap (λ q. q ∷ beside (map (slice c a) h) (map (slice a e) h)) (slice-join c a e r lo hi)
    ∙ ap (◌∷◌ (slice c e r)) (beside-slice c a e h lo hi)

module _ {ℓ} {A : Type ℓ} (plus : A → A → A) (z : A) (n : ℕ) (src dst : List ℕ) where
  -- Aggregating a slice of the columns is slicing the aggregate.
  pub aggregate-columns :
      (c e : ℕ) (x : Matrix A) (h : List (List A))
      → aggregate plus z n src dst x ≡ some h
      → aggregate plus z n src dst (columns c e x) ≡ some (map (slice c e) h)
  unfolding aggregate columns
  aggregate-columns c e x h q =
      let start = repeat n (repeat x.cols z) in
      let (h1, first, second) = bind-some (add_at plus start dst src x.rows) _ h q in
      let sliced =
        map-repeat (slice c e) n (repeat x.cols z) ∙ ap (repeat n) (slice-repeat z c e x.cols) in
      let first' =
        subst (λ s. add_at plus s dst src (map (slice c e) x.rows) ≡ some (map (slice c e) h1))
          sliced (add_at-slice plus c e start dst src x.rows h1 first) in
      rw first' (add_at-slice plus c e h1 src dst x.rows h second)

  -- The slices from the column `c` on, side by side.
  pub parts-join :
      (x : Matrix A) (h : List (List A))
      → aggregate plus z n src dst x ≡ some h
      → (c w : ℕ) (splits : List ℕ)
      → (m : List (List A)) × (ms : List (List (List A))) × (parts plus z n src dst x c (w ∷ splits)
          ≡ some (m ∷ ms))
        × (concatenate (m ∷ ms) ≡ some (map (slice c (c + sum (w ∷ splits))) h))
  unfolding parts concatenate
  parts-join x h q c w [] =
      let same : c + w ≡ c + (w + 0) = omega arith in
      (
        map (slice c (c + w)) h,
        [],
        rw (aggregate-columns c (c + w) x h q) refl,
        ap (λ e. some (map (slice c e) h)) same,
      )
  parts-join x h q c w (v ∷ splits) =
      let (m, ms, done, joined) = parts-join x h q (c + w) v splits in
      let rest = sum (v ∷ splits) in
      let same : c + w + rest ≡ c + (w + rest) = omega arith in
      (
        map (slice c (c + w)) h,
        m ∷ ms,
        rw (aggregate-columns c (c + w) x h q, done) refl,
        rw joined (
            ap some (beside-slice c (c + w) (c + w + rest) h (omega arith) (omega arith))
            ∙ ap (λ e. some (map (slice c e) h)) same),
      )

-- All the columns of rows of that many columns.
pub slice-all {ℓ} : {A : Type ℓ} (n : ℕ) (xs : List A) → length xs ≡ n → slice 0 n xs ≡ xs
slice-all zero [] e = refl
slice-all zero (x ∷ xs) e = absurd (omega arith)
slice-all (suc n) [] e = refl
slice-all (suc n) (x ∷ xs) e = ap (◌∷◌ x) (slice-all n xs (omega arith))

pub slice-all-rows {ℓ} :
    {A : Type ℓ} (n : ℕ) (rows : List (List A))
    → All (λ r. length r ≡ n) rows
    → map (slice 0 n) rows ≡ rows
slice-all-rows n [] h = refl
slice-all-rows n (r ∷ rows) h =
    ap (λ q. q ∷ map (slice 0 n) rows) (slice-all n r h.0) ∙ ap (◌∷◌ r) (slice-all-rows n rows h.1)

-- The rows of the aggregate have no more entries than the matrix has columns.
pub all-rows {ℓ} :
    {A : Type ℓ} (plus : A → A → A) (z : A) (n : ℕ) (src dst : List ℕ) (x : Matrix A)
    (h : List (List A))
    → All (λ r. length r ≡ x.cols) x.rows
    → aggregate plus z n src dst x ≡ some h
    → map (slice 0 x.cols) h ≡ h
unfolding aggregate columns
all-rows plus z n src dst x h wide q =
    let sliced = aggregate-columns plus z n src dst 0 x.cols x h q in
    let k : min x.cols x.cols - min 0 x.cols ≡ x.cols = omega arith in
    let rows = slice-all-rows x.cols x.rows wide in
    let same : aggregate plus z n src dst (columns 0 x.cols x) ≡ aggregate plus z n src dst x =
      rw (k, rows) refl in
    some-injective _ _ (sym sliced ∙ same ∙ q)

-- For any addition, on a matrix whose rows have as many entries as it has columns and on one or more
-- slices that make up the columns, the column slices side by side are the result on a single device,
-- entry by entry, or both fail.
pub fp_aggregate_consistency-same {ℓ} :
    {A : Type ℓ} (plus : A → A → A) (z : A) (src dst : List ℕ) (x : Matrix A) (w : ℕ)
    (splits : List ℕ)
    → All (λ r. length r ≡ x.cols) x.rows
    → sum (w ∷ splits) ≡ x.cols
    → fp_aggregate_consistency plus z src dst x (w ∷ splits)
      ≡ (aggregate plus z (length x.rows) src dst x >>= (λ h. some (h, h)))
unfolding fp_aggregate_consistency
fp_aggregate_consistency-same plus z src dst x w splits wide covered =
    let n = length x.rows in
    let asserted : (sum (w ∷ splits) == x.cols) ≡ true = ground arith in
    rw asserted (elim (Option-cases (aggregate plus z n src dst x)) [
      | inl failed ↦ rw failed refl
      | inr (h, q) ↦
          let (m, ms, done, joined) = parts-join plus z n src dst x h q 0 w splits in
          let covers : 0 + sum (w ∷ splits) ≡ x.cols = omega arith in
          let whole : concatenate (m ∷ ms) ≡ some (map (slice 0 x.cols) h) =
            joined ∙ ap (λ e. some (map (slice 0 e) h)) covers in
          rw (q, done, whole) (ap some (ap (λ k. (h, k)) (all-rows plus z n src dst x h wide q)))
    ])
