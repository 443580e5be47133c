-- ===== src/Runtime/FeatureRecombine/Shapes.antt =====
-- src/zord/runtime/feature_recombine.py: the shapes of the aggregate and of the products.
use zord.Base.{
  length-map, ℕ, zero, suc, ◌≡◌, sym, ap, subst, ◌∙◌, List, [], ◌∷◌, map, length, All, some,
  some-injective, get_elem?,
}
use zord.Base.Options.{bind-some}
use zord.Partition.FeatureParallel.{Matrix, repeat, add_to, add_at, aggregate}
use zord.Runtime.FeatureRecombine.{Arithmetic, mat_mul}
use zord.Runtime.FeatureRecombine.Mixing.{length-add_row, length-repeat, length-row_times}

-- Rows of that many entries.
abbrev pub Wide {ℓ} : {A : Type ℓ} → ℕ → List (List A) → Type 0
Wide n rows = All (λ r. length r ≡ n) rows

Wide-repeat {ℓ} : {A : Type ℓ} (n k : ℕ) (r : List A) → length r ≡ n → Wide n (repeat k r)
unfolding repeat
Wide-repeat n zero r e = tt
Wide-repeat n (suc k) r e = (e, Wide-repeat n k r e)

get_elem?-Wide {ℓ} :
    {A : Type ℓ} (n : ℕ) (x : List (List A)) (i : ℕ) (r : List A)
    → Wide n x
    → get_elem? x i ≡ some r
    → length r ≡ n
get_elem?-Wide n [] i r wide e = absurd (cc)
get_elem?-Wide n (s ∷ x) zero r wide e = ap length (sym (some-injective _ _ e)) ∙ wide.0
get_elem?-Wide n (s ∷ x) (suc i) r wide e = get_elem?-Wide n x i r wide.1 e

module _ {ℓ} {A : Type ℓ} (ar : Arithmetic A) where
  pub Wide-map_row : (n : ℕ) (phi : A → A) (h : List (List A)) → Wide n h → Wide n (map (map phi) h)
  Wide-map_row n phi [] wide = tt
  Wide-map_row n phi (r ∷ h) wide = (length-map phi r ∙ wide.0, Wide-map_row n phi h wide.1)

  add_to-Wide :
      (n : ℕ) (h : List (List A)) (i : ℕ) (row : List A) (h' : List (List A))
      → Wide n h
      → length row ≡ n
      → add_to ar.plus h i row ≡ some h'
      → Wide n h'
  unfolding add_to
  add_to-Wide n [] i row h' wide e q = absurd (cc)
  add_to-Wide n (r ∷ h) zero row h' wide e q =
      subst (Wide n) (some-injective _ _ q) (length-add_row ar n r row wide.0 e, wide.1)
  add_to-Wide n (r ∷ h) (suc i) row h' wide e q =
      let (rest, done, is_h') = bind-some (add_to ar.plus h i row) _ h' q in
      subst (Wide n) (some-injective _ _ is_h') (wide.0, add_to-Wide n h i row rest wide.1 e done)

  add_at-Wide :
      (n : ℕ) (h : List (List A)) (to from : List ℕ) (x h' : List (List A))
      → Wide n h
      → Wide n x
      → add_at ar.plus h to from x ≡ some h'
      → Wide n h'
  unfolding add_at
  add_at-Wide n h [] from x h' wide rows q = subst (Wide n) (some-injective _ _ q) wide
  add_at-Wide n h (t ∷ to) [] x h' wide rows q = subst (Wide n) (some-injective _ _ q) wide
  add_at-Wide n h (t ∷ to) (f ∷ from) x h' wide rows q =
      let (row, at_f, q1) = bind-some (get_elem? x f) _ h' q in
      let (added, add_done, q2) = bind-some (add_to ar.plus h t row) _ h' q1 in
      let len = get_elem?-Wide n x f row rows at_f in
      add_at-Wide n added to from x h' (add_to-Wide n h t row added wide len add_done) rows q2

  pub aggregate-Wide :
      (k : ℕ) (src dst : List ℕ) (x : Matrix A) (h : List (List A))
      → Wide x.cols x.rows
      → aggregate ar.plus ar.nought k src dst x ≡ some h
      → Wide x.cols h
  unfolding aggregate
  aggregate-Wide k src dst x h wide q =
      let n = x.cols in
      let start = repeat k (repeat n ar.nought) in
      let (h1, first, second) = bind-some (add_at ar.plus start dst src x.rows) _ h q in
      let started = Wide-repeat n k (repeat n ar.nought) (length-repeat ar n ar.nought) in
      add_at-Wide n h1 src dst x.rows h (add_at-Wide n start dst src x.rows h1 started wide first)
        wide second

  pub mat_mul-Wide :
      (h : List (List A)) (w : Matrix A) → Wide w.cols w.rows → Wide w.cols (mat_mul ar h w)
  unfolding mat_mul
  mat_mul-Wide [] w wide = tt
  mat_mul-Wide (r ∷ h) w wide =
      let none_yet = repeat w.cols ar.nought in
      (
        length-row_times ar w.cols none_yet r w.rows (length-repeat ar w.cols ar.nought) wide,
        mat_mul-Wide h w wide,
      )
