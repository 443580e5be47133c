-- ===== src/Runtime/FeatureRecombine/Mixing.antt =====
-- src/zord/runtime/feature_recombine.py: the products of the column shards with the row shards of the weights
-- add up to the product of the whole.
use zord.Base.{
  length-map, ℕ, zero, suc, ◌+◌, ◌≤◌, ◌≡◌, refl, sym, ap, ◌∙◌, List, [], ◌∷◌, ◌++◌, map, length,
  sum, All, arith,
}
use zord.Base.Rows.{slice, All-drop, All-slice}
use zord.Partition.FeatureParallel.Recombined.{slice-join}
use zord.Partition.FeatureParallel.{Matrix, repeat, add_row}
use zord.Runtime.FeatureRecombine.{Arithmetic, row_times, mat_mul, add_all, weight_rows, reduce}

module _ {ℓ} {A : Type ℓ} (ar : Arithmetic A) where
  add_row_assoc :
      (a b c : List A)
      → add_row ar.plus (add_row ar.plus a b) c ≡ add_row ar.plus a (add_row ar.plus b c)
  unfolding add_row
  add_row_assoc [] b c = refl
  add_row_assoc (x ∷ a) [] c = refl
  add_row_assoc (x ∷ a) (y ∷ b) [] = refl
  add_row_assoc (x ∷ a) (y ∷ b) (w ∷ c) =
      ap (λ v. v ∷ add_row ar.plus (add_row ar.plus a b) c) (ar.plus_assoc x y w)
      ∙ ap (◌∷◌ (ar.plus x (ar.plus y w))) (add_row_assoc a b c)

  -- A row of noughts as long as the other adds nothing.
  nought-add_row : (n : ℕ) (a : List A) → length a ≡ n → add_row ar.plus (repeat n ar.nought) a ≡ a
  unfolding add_row repeat
  nought-add_row zero [] e = refl
  nought-add_row zero (x ∷ a) e = absurd (omega (arith, e))
  nought-add_row (suc n) [] e = refl
  nought-add_row (suc n) (x ∷ a) e =
      ap (λ v. v ∷ add_row ar.plus (repeat n ar.nought) a) (ar.nought_left x)
      ∙ ap (◌∷◌ x) (nought-add_row n a (omega (arith, e)))

  add_row-nought : (n : ℕ) (a : List A) → length a ≡ n → add_row ar.plus a (repeat n ar.nought) ≡ a
  unfolding add_row repeat
  add_row-nought zero [] e = refl
  add_row-nought zero (x ∷ a) e = absurd (omega (arith, e))
  add_row-nought (suc n) [] e = refl
  add_row-nought (suc n) (x ∷ a) e =
      ap (λ v. v ∷ add_row ar.plus a (repeat n ar.nought)) (ar.nought_right x)
      ∙ ap (◌∷◌ x) (add_row-nought n a (omega (arith, e)))

  pub length-add_row :
      (n : ℕ) (a b : List A) → length a ≡ n → length b ≡ n → length (add_row ar.plus a b) ≡ n
  unfolding add_row
  length-add_row zero [] b e f = e
  length-add_row zero (x ∷ a) b e f = absurd (omega (arith, e))
  length-add_row (suc n) [] b e f = absurd (omega (arith, e))
  length-add_row (suc n) (x ∷ a) [] e f = absurd (omega (arith, f))
  length-add_row (suc n) (x ∷ a) (y ∷ b) e f =
      ap suc (length-add_row n a b (omega (arith, e)) (omega (arith, f)))

  pub length-repeat : (n : ℕ) (x : A) → length (repeat n x) ≡ n
  unfolding repeat
  length-repeat zero x = refl
  length-repeat (suc n) x = ap suc (length-repeat n x)

  -- What the products are added to can be added afterwards.
  row_times-add :
      (n : ℕ) (acc r : List A) (w : List (List A))
      → length acc ≡ n
      → All (λ v. length v ≡ n) w
      → row_times ar acc r w ≡ add_row ar.plus acc (row_times ar (repeat n ar.nought) r w)
  unfolding row_times
  row_times-add n acc [] w e h = sym (add_row-nought n acc e)
  row_times-add n acc (a ∷ r) [] e h = sym (add_row-nought n acc e)
  row_times-add n acc (a ∷ r) (v ∷ w) e h =
      let p = map (ar.times a) v in
      let len = length-map (ar.times a) v ∙ h.0 in
      row_times-add n (add_row ar.plus acc p) r w (length-add_row n acc p e len) h.1
      ∙ add_row_assoc acc p (row_times ar (repeat n ar.nought) r w)
      ∙ ap (add_row ar.plus acc) (sym (row_times-add n p r w len h.1))
      ∙ ap (λ q. add_row ar.plus acc (row_times ar q r w)) (sym (nought-add_row n p len))

  -- The products of a row that is cut, each part with as many rows of the weights.
  row_times-append :
      (acc r s : List A) (w u : List (List A))
      → length r ≡ length w
      → row_times ar acc (r ++ s) (w ++ u) ≡ row_times ar (row_times ar acc r w) s u
  unfolding row_times
  row_times-append acc [] s [] u e = refl
  row_times-append acc [] s (v ∷ w) u e = absurd (omega (arith, e))
  row_times-append acc (a ∷ r) s [] u e = absurd (omega (arith, e))
  row_times-append acc (a ∷ r) s (v ∷ w) u e =
      row_times-append (add_row ar.plus acc (map (ar.times a) v)) r s w u (omega (arith, e))

  pub length-row_times :
      (n : ℕ) (acc r : List A) (w : List (List A))
      → length acc ≡ n
      → All (λ v. length v ≡ n) w
      → length (row_times ar acc r w) ≡ n
  unfolding row_times
  length-row_times n acc [] w e h = e
  length-row_times n acc (a ∷ r) [] e h = e
  length-row_times n acc (a ∷ r) (v ∷ w) e h =
      let p = map (ar.times a) v in
      let len = length-map (ar.times a) v ∙ h.0 in
      length-row_times n (add_row ar.plus acc p) r w (length-add_row n acc p e len) h.1

-- Slices of the same columns of as many entries are of the same length.
slice-alike {ℓ κ} :
    {A : Type ℓ} {B : Type κ} (c e : ℕ) (xs : List A) (ys : List B)
    → length xs ≡ length ys
    → length (slice c e xs) ≡ length (slice c e ys)
slice-alike zero zero xs ys h = refl
slice-alike zero (suc e) [] [] h = refl
slice-alike zero (suc e) [] (y ∷ ys) h = absurd (omega (arith, h))
slice-alike zero (suc e) (x ∷ xs) [] h = absurd (omega (arith, h))
slice-alike zero (suc e) (x ∷ xs) (y ∷ ys) h = ap suc (slice-alike zero e xs ys (omega (arith, h)))
slice-alike (suc c) zero xs ys h = refl
slice-alike (suc c) (suc e) [] [] h = refl
slice-alike (suc c) (suc e) [] (y ∷ ys) h = absurd (omega (arith, h))
slice-alike (suc c) (suc e) (x ∷ xs) [] h = absurd (omega (arith, h))
slice-alike (suc c) (suc e) (x ∷ xs) (y ∷ ys) h = slice-alike c e xs ys (omega (arith, h))

-- Some rows of a matrix.
abbrev pub row_shard {ℓ} : {A : Type ℓ} → ℕ → ℕ → Matrix A → Matrix A
row_shard c e w = record { cols = w.cols; rows = slice c e w.rows }

-- The shards of the columns from `c` on.
unfoldable pub column_shards {ℓ} : {A : Type ℓ} → List (List A) → ℕ → List ℕ → List (List (List A))
column_shards h c [] = []
column_shards h c (k ∷ splits) = map (slice c (c + k)) h ∷ column_shards h (c + k) splits

module _ {ℓ} {A : Type ℓ} (ar : Arithmetic A) (w : Matrix A)
    (wide : All (λ v. length v ≡ w.cols) w.rows) where
  row_join :
      (c a e : ℕ) (r : List A)
      → c ≤ a
      → a ≤ e
      → length r ≡ length w.rows
      → add_row ar.plus
          (row_times ar (repeat w.cols ar.nought) (slice c a r) (slice c a w.rows))
          (row_times ar (repeat w.cols ar.nought) (slice a e r) (slice a e w.rows))
        ≡ row_times ar (repeat w.cols ar.nought) (slice c e r) (slice c e w.rows)
  row_join c a e r lo hi len =
      let none_yet = repeat w.cols ar.nought in
      let first = row_times ar none_yet (slice c a r) (slice c a w.rows) in
      let slice_wide : (lo hi : ℕ) → All (λ v. length v ≡ w.cols) (slice lo hi w.rows) = λ lo hi.
        All-slice (λ v. length v ≡ w.cols) lo hi w.rows
          (All-drop (λ v. length v ≡ w.cols) lo w.rows wide) in
      let first_wide =
        length-row_times ar w.cols none_yet (slice c a r) (slice c a w.rows)
          (length-repeat ar w.cols ar.nought) (slice_wide c a) in
      sym
        (row_times-add ar w.cols first (slice a e r) (slice a e w.rows) first_wide (slice_wide a e))
      ∙ sym (
          row_times-append ar none_yet (slice c a r) (slice a e r) (slice c a w.rows)
            (slice a e w.rows) (slice-alike c a r w.rows len))
      ∙ ap (λ s. row_times ar none_yet s (slice c a w.rows ++ slice a e w.rows))
          (slice-join c a e r lo hi)
      ∙ ap (row_times ar none_yet (slice c e r)) (slice-join c a e w.rows lo hi)

  -- The products of two shards next to each other, added, are the product of the two together.
  mat_mul-join :
      (c a e : ℕ) (h : List (List A))
      → c ≤ a
      → a ≤ e
      → All (λ r. length r ≡ length w.rows) h
      → add_all ar
          (mat_mul ar (map (slice c a) h) (row_shard c a w))
          (mat_mul ar (map (slice a e) h) (row_shard a e w))
        ≡ mat_mul ar (map (slice c e) h) (row_shard c e w)
  unfolding add_all mat_mul
  mat_mul-join c a e [] lo hi len = refl
  mat_mul-join c a e (r ∷ h) lo hi len =
      ap
        (λ s.
          s
          ∷ add_all ar (mat_mul ar (map (slice c a) h) (row_shard c a w))
              (mat_mul ar (map (slice a e) h) (row_shard a e w)))
        (row_join c a e r lo hi len.0)
      ∙ ap (◌∷◌ (row_times ar (repeat w.cols ar.nought) (slice c e r) (slice c e w.rows)))
          (mat_mul-join c a e h lo hi len.1)

  -- The sum of the products of the shards from the column `a` on, added to that of the columns before.
  pub reduce-shards :
      (c a : ℕ) (h : List (List A)) (splits : List ℕ)
      → c ≤ a
      → All (λ r. length r ≡ length w.rows) h
      → reduce ar
          (mat_mul ar (map (slice c a) h) (row_shard c a w))
          (column_shards h a splits)
          (weight_rows ar w a splits)
        ≡ mat_mul ar (map (slice c (a + sum splits)) h) (row_shard c (a + sum splits) w)
  unfolding reduce column_shards weight_rows
  reduce-shards c a h [] lo len =
      let same : a ≡ a + 0 = omega arith in
      ap (λ e. mat_mul ar (map (slice c e) h) (row_shard c e w)) same
  reduce-shards c a h (k ∷ splits) lo len =
      let same : a + k + sum splits ≡ a + (k + sum splits) = omega arith in
      ap (λ z. reduce ar z (column_shards h (a + k) splits) (weight_rows ar w (a + k) splits))
        (mat_mul-join c a (a + k) h lo (omega arith) len)
      ∙ reduce-shards c (a + k) h splits (omega arith) len
      ∙ ap (λ e. mat_mul ar (map (slice c e) h) (row_shard c e w)) same
