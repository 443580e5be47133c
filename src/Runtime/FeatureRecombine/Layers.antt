-- ===== src/Runtime/FeatureRecombine/Layers.antt =====
-- src/zord/runtime/feature_recombine.py: the layers on the column shards, recombined, are those of one device.
use zord.Base.{
  ℕ, ◌+◌, ◌≡◌, refl, sym, ap, subst, ◌∙◌, Option, List, ◌∷◌, length, sum, some, none, ◌==◌, true,
  Option-cases, inl, inr, ==_refl,
}
use zord.Base.Options.{◌>>=◌}
use zord.Partition.FeatureParallel.{Matrix}
use zord.Runtime.FeatureRecombine.{
  Arithmetic, weight_rows, split_weight_rows, reference_llayer, sharded_layers, sharded_llayer,
  rows_match, verify_recombine,
}
use zord.Runtime.FeatureRecombine.Shapes.{Wide}
use zord.Runtime.FeatureRecombine.Steps.{layers-plain, layers-mixed}

-- No weights, or as many rows and columns of them as that.
abbrev pub Square {ℓ} : {A : Type ℓ} → ℕ → Option (Matrix A) → Type 0
Square f none = Unit
Square f (some w) = (w.cols ≡ f) × (length w.rows ≡ f) × Wide f w.rows

sharded_llayer-same {ℓ} :
    {A : Type ℓ} (ar : Arithmetic A) (phi : A → A) (src dst : List ℕ) (layers f k : ℕ)
    (splits : List ℕ) (w : Option (Matrix A)) (rows : List (List A)) (ref : Matrix A)
    → k + sum splits ≡ f
    → Square f w
    → Wide f rows
    → reference_llayer ar layers phi src dst w (record { cols = f; rows = rows }) ≡ some ref
    → sharded_llayer ar layers phi src dst (k ∷ splits) w (record { cols = f; rows = rows })
      ≡ some ref
unfolding sharded_llayer split_weight_rows
sharded_llayer-same ar phi src dst layers f k splits none rows ref covered square wide q =
    layers-plain ar phi src dst f k splits covered layers rows ref wide q
sharded_llayer-same ar phi src dst layers f k splits (some w) rows ref covered (cols, tall, square)
      wide q =
    let counted : (k + sum splits == length w.rows) ≡ true =
      ap (λ m. m == length w.rows) (covered ∙ sym tall) ∙ ==_refl (length w.rows) in
    let same : w ≡ record { cols = f; rows = w.rows } =
      ap (λ m. record { cols = m; rows = w.rows }) cols in
    let q' =
      subst
        (λ m.
          reference_llayer ar layers phi src dst (some m) (record { cols = f; rows = rows })
          ≡ some ref)
        same q in
    rw counted (
      subst
        (λ m.
          sharded_layers ar layers phi src dst (k ∷ splits)
            (some (m.cols, weight_rows ar m 0 (k ∷ splits))) (record { cols = f; rows = rows })
          ≡ some ref)
        (sym same)
        (layers-mixed ar phi src dst f k splits covered w.rows layers rows ref square tall wide q'))

rows_match-Square {ℓ} :
    {A : Type ℓ} (ar : Arithmetic A) (f : ℕ) (w : Option (Matrix A))
    → Square f w
    → rows_match ar f w ≡ true
unfolding rows_match
rows_match-Square ar f none s = refl
rows_match-Square ar f (some w) s = ap (λ m. m == f) s.1 ∙ ==_refl f

-- For exact arithmetic, on a matrix whose rows have as many entries as it has columns, on one or more
-- slices that make up the columns, and with no weights or a square matrix of them of that many rows, the
-- layers on the shards have the result of one device, entry by entry, whatever the number of layers and the
-- nonlinearity, or both fail.
pub verify_recombine-same {ℓ} :
    {A : Type ℓ} (ar : Arithmetic A) (phi : A → A) (src dst : List ℕ) (layers k : ℕ)
    (splits : List ℕ) (w : Option (Matrix A)) (x : Matrix A)
    → k + sum splits ≡ x.cols
    → Square x.cols w
    → Wide x.cols x.rows
    → verify_recombine ar layers phi src dst (k ∷ splits) w x
      ≡ (reference_llayer ar layers phi src dst w x >>= (λ ref. some (ref, ref)))
unfolding verify_recombine
verify_recombine-same ar phi src dst layers k splits w x covered square wide =
    let asserted : (k + sum splits == x.cols) ≡ true =
      ap (λ m. m == x.cols) covered ∙ ==_refl x.cols in
    rw (asserted, rows_match-Square ar x.cols w square)
      (elim (Option-cases (reference_llayer ar layers phi src dst w x)) [
        | inl failed ↦ rw failed refl
        | inr (ref, q) ↦
            rw
              (
                q,
                sharded_llayer-same ar phi src dst layers x.cols k splits w x.rows ref covered
                    square wide q,
              )
              refl
      ])
