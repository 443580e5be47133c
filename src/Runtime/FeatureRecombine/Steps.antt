-- ===== src/Runtime/FeatureRecombine/Steps.antt =====
-- src/zord/runtime/feature_recombine.py: a layer on the column shards, recombined, is that of one device.
use zord.Base.{
  ℕ, zero, suc, ◌+◌, ◌-◌, ◌≤◌, ◌≡◌, refl, sym, ap, subst, ◌∙◌, List, [], ◌∷◌, map, length, sum,
  arith, some, none, some-injective, min, ◌==◌, true, if◌then◌else◌, ==_refl,
}
use zord.Base.Options.{bind-some}
use zord.Base.Rows.{slice}
use zord.Partition.FeatureParallel.{Matrix, aggregate, parts}
use zord.Partition.FeatureParallel.Recombined.{
  aggregate-columns, parts-join, all-rows, slice-all, slice-all-rows,
}
use zord.Runtime.FeatureRecombine.{
  Arithmetic, mat_mul, weight_rows, widths_match, recombine_full_layer, reference_layer,
  reference_llayer, sharded_layer, sharded_layers,
}
use zord.Runtime.FeatureRecombine.Mixing.{column_shards, reduce-shards, row_shard}
use zord.Runtime.FeatureRecombine.Shapes.{Wide, Wide-map_row, aggregate-Wide, mat_mul-Wide}

module _ {ℓ} {A : Type ℓ} (ar : Arithmetic A) where
  -- The shards of the aggregate.
  parts-shards :
      (src dst : List ℕ) (x : Matrix A) (k : ℕ) (h : List (List A))
      → aggregate ar.plus ar.nought k src dst x ≡ some h
      → (c : ℕ) (splits : List ℕ)
      → parts ar.plus ar.nought k src dst x c splits ≡ some (column_shards h c splits)
  unfolding parts column_shards
  parts-shards src dst x k h q c [] = refl
  parts-shards src dst x k h q c (v ∷ splits) =
      rw
        (
          aggregate-columns ar.plus ar.nought k src dst c (c + v) x h q,
          parts-shards src dst x k h q (c + v) splits,
        )
        refl

  widths_match-sum :
      (f c : ℕ) (splits : List ℕ) → c + sum splits ≤ f → widths_match ar f c splits ≡ true
  unfolding widths_match
  widths_match-sum f c [] h = refl
  widths_match-sum f c (k ∷ splits) h =
      let same : (min (c + k) f - min c f == k) ≡ true = ground arith in
      rw same (widths_match-sum f (c + k) splits (omega (arith, h)))

  -- One layer on shards that make up the columns.
  module _ (phi : A → A) (src dst : List ℕ) (f k : ℕ) (splits : List ℕ)
      (covered : k + sum splits ≡ f) where
    all_match : widths_match ar f 0 (k ∷ splits) ≡ true
    all_match = widths_match-sum f 0 (k ∷ splits) (omega (arith, covered))

    sharded_layer-plain :
        (rows : List (List A)) (next : Matrix A)
        → Wide f rows
        → reference_layer ar phi src dst none (record { cols = f; rows = rows }) ≡ some next
        → sharded_layer ar phi src dst (k ∷ splits) none (record { cols = f; rows = rows })
          ≡ some next
    unfolding reference_layer sharded_layer
    sharded_layer-plain rows next wide q =
        let x : Matrix A = record { cols = f; rows = rows } in
        let n = length rows in
        let (h, done, is_next) = bind-some (aggregate ar.plus ar.nought n src dst x) _ next q in
        let (m, ms, cut, joined) = parts-join ar.plus ar.nought n src dst x h done 0 k splits in
        let covers : 0 + (k + sum splits) ≡ f = omega (arith, covered) in
        let whole : map (slice 0 (0 + (k + sum splits))) h ≡ h =
          ap (λ e. map (slice 0 e) h) covers ∙ all-rows ar.plus ar.nought n src dst x h wide done in
        rw (cut, joined, whole, all_match, covered) is_next

    sharded_layer-mixed :
        (ws rows : List (List A)) (next : Matrix A)
        → Wide f ws
        → length ws ≡ f
        → Wide f rows
        → reference_layer ar phi src dst
            (some (record { cols = f; rows = ws }))
            (record { cols = f; rows = rows })
          ≡ some next
        → sharded_layer ar phi src dst
            (k ∷ splits)
            (some (f, weight_rows ar (record { cols = f; rows = ws }) 0 (k ∷ splits)))
            (record { cols = f; rows = rows })
          ≡ some next
    unfolding reference_layer sharded_layer recombine_full_layer weight_rows column_shards
    sharded_layer-mixed ws rows next square tall wide q =
        let x : Matrix A = record { cols = f; rows = rows } in
        let w : Matrix A = record { cols = f; rows = ws } in
        let n = length rows in
        let (h, done, next_is) = bind-some (aggregate ar.plus ar.nought n src dst x) _ next q in
        let cut = parts-shards src dst x n h done 0 (k ∷ splits) in
        let h_wide = aggregate-Wide ar n src dst x h wide done in
        let as_tall = subst (λ m. Wide m h) (sym tall) h_wide in
        let covers : 0 + k + sum splits ≡ f = omega (arith, covered) in
        let added = reduce-shards ar w square 0 (0 + k) h splits (omega arith) as_tall in
        let whole =
          added
          ∙ ap (λ e. mat_mul ar (map (slice 0 e) h) (row_shard 0 e w)) covers
          ∙ ap (λ g. mat_mul ar g (row_shard 0 f w)) (slice-all-rows f h h_wide)
          ∙ ap (λ g. mat_mul ar h (record { cols = f; rows = g })) (slice-all f ws tall) in
        let heights : (f == length ws) ≡ true = ap (λ m. f == m) tall ∙ ==_refl f in
        let is_next =
          subst
            (λ b.
              (if b
                then some (record { cols = f; rows = map (map phi) (mat_mul ar h w) })
                else none)
              ≡ some next)
            heights next_is in
        rw (cut, all_match)
          (ap (λ z. some (record { cols = f; rows = map (map phi) z })) whole ∙ is_next)

    -- The rows of the next layer are as wide, and there are as many columns.
    reference_layer-plain-Wide :
        (rows : List (List A)) (next : Matrix A)
        → Wide f rows
        → reference_layer ar phi src dst none (record { cols = f; rows = rows }) ≡ some next
        → (rows' : List (List A)) × Wide f rows' × (next ≡ record { cols = f; rows = rows' })
    unfolding reference_layer
    reference_layer-plain-Wide rows next wide q =
        let x : Matrix A = record { cols = f; rows = rows } in
        let (h, done, is_next) =
          bind-some (aggregate ar.plus ar.nought (length rows) src dst x) _ next q in
        (
          map (map phi) h,
          Wide-map_row ar f phi h (aggregate-Wide ar (length rows) src dst x h wide done),
          sym (some-injective _ _ is_next),
        )

    reference_layer-mixed-Wide :
        (ws rows : List (List A)) (next : Matrix A)
        → Wide f ws
        → length ws ≡ f
        → reference_layer ar phi src dst
            (some (record { cols = f; rows = ws }))
            (record { cols = f; rows = rows })
          ≡ some next
        → (rows' : List (List A)) × Wide f rows' × (next ≡ record { cols = f; rows = rows' })
    unfolding reference_layer
    reference_layer-mixed-Wide ws rows next square tall q =
        let x : Matrix A = record { cols = f; rows = rows } in
        let w : Matrix A = record { cols = f; rows = ws } in
        let (h, done, next_is) =
          bind-some (aggregate ar.plus ar.nought (length rows) src dst x) _ next q in
        let heights : (f == length ws) ≡ true = ap (λ m. f == m) tall ∙ ==_refl f in
        let is_next =
          subst
            (λ b.
              (if b
                then some (record { cols = f; rows = map (map phi) (mat_mul ar h w) })
                else none)
              ≡ some next)
            heights next_is in
        (
          map (map phi) (mat_mul ar h w),
          Wide-map_row ar f phi (mat_mul ar h w) (mat_mul-Wide ar h w square),
          sym (some-injective _ _ is_next),
        )

    pub layers-plain :
        (layers : ℕ) (rows : List (List A)) (ref : Matrix A)
        → Wide f rows
        → reference_llayer ar layers phi src dst none (record { cols = f; rows = rows }) ≡ some ref
        → sharded_layers ar layers phi src dst (k ∷ splits) none (record { cols = f; rows = rows })
          ≡ some ref
    unfolding reference_llayer sharded_layers
    layers-plain zero rows ref wide q = q
    layers-plain (suc layers) rows ref wide q =
        let x : Matrix A = record { cols = f; rows = rows } in
        let (next, done, rest) = bind-some (reference_layer ar phi src dst none x) _ ref q in
        let (rows', wide', is_next) = reference_layer-plain-Wide rows next wide done in
        rw (sharded_layer-plain rows next wide done, is_next)
          (layers-plain layers rows' ref wide'
            (subst (λ m. reference_llayer ar layers phi src dst none m ≡ some ref) is_next rest))

    pub layers-mixed :
        (ws : List (List A)) (layers : ℕ) (rows : List (List A)) (ref : Matrix A)
        → Wide f ws
        → length ws ≡ f
        → Wide f rows
        → reference_llayer ar layers phi src dst
            (some (record { cols = f; rows = ws }))
            (record { cols = f; rows = rows })
          ≡ some ref
        → sharded_layers ar layers phi src dst
            (k ∷ splits)
            (some (f, weight_rows ar (record { cols = f; rows = ws }) 0 (k ∷ splits)))
            (record { cols = f; rows = rows })
          ≡ some ref
    unfolding reference_llayer sharded_layers
    layers-mixed ws zero rows ref square tall wide q = q
    layers-mixed ws (suc layers) rows ref square tall wide q =
        let x : Matrix A = record { cols = f; rows = rows } in
        let w : Matrix A = record { cols = f; rows = ws } in
        let (next, done, rest) = bind-some (reference_layer ar phi src dst (some w) x) _ ref q in
        let (rows', wide', is_next) = reference_layer-mixed-Wide ws rows next square tall done in
        rw (sharded_layer-mixed ws rows next square tall wide done, is_next)
          (layers-mixed ws layers rows' ref square tall wide' (
            subst (λ m. reference_llayer ar layers phi src dst (some w) m ≡ some ref) is_next rest))
