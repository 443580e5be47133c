-- ===== src/Runtime/FeatureRecombine.antt =====
-- src/zord/runtime/feature_recombine.py: the layers of the network on one device and on column shards, over
-- any numbers, and the cost of the recombination. The nonlinearity is a function of an entry; its names and
-- the largest difference of the two results are left out, and so is the path on a GPU. `none` is an index
-- error, a failed assertion, shapes that do not match or no shards.
pub mod Mixing
pub mod Shapes
pub mod Steps
pub mod Layers
pub mod Costs
pub mod Tests
use zord.Base.{
  ℕ, zero, suc, ◌+◌, ◌-◌, ◌*◌, ◌≡◌, Bool, true, false, not, ◌&&◌, Option, none, some, List, [], ◌∷◌,
  ◌==◌, map, if◌then◌else◌, length, min, max, sum,
}
use zord.Base.Options.{◌>>=◌}
use zord.Base.Ratios.{Ratio}
use zord.Base.Rows.{slice}
use zord.Partition.AttrCost.{rate, feature_row_bytes}
use zord.Partition.FeatureParallel.{Matrix, repeat, add_row, aggregate, parts, concatenate}

-- The arithmetic of the entries, with the laws of the exact one that are relied on.
pub record Arithmetic {ℓ} (A : Type ℓ) : Type ℓ where
  pub plus : A → A → A
  pub times : A → A → A
  pub nought : A
  pub plus_assoc : (a b c : A) → plus (plus a b) c ≡ plus a (plus b c)
  pub nought_left : (a : A) → plus nought a ≡ a
  pub nought_right : (a : A) → plus a nought ≡ a

module _ {ℓ} {A : Type ℓ} (ar : Arithmetic A) where
  -- The entries of `r` times the rows of `w`, added to a row.
  unfoldable pub row_times : List A → List A → List (List A) → List A
  unfolding add_row
  row_times acc (a ∷ r) (v ∷ w) = row_times (add_row ar.plus acc (map (ar.times a) v)) r w
  row_times acc _ _ = acc

  -- `h @ W`, of shapes that match.
  unfoldable pub mat_mul : List (List A) → Matrix A → List (List A)
  unfolding repeat row_times
  mat_mul h w = map (λ r. row_times (repeat w.cols ar.nought) r w.rows) h

  -- `z + p`
  unfoldable pub add_all : List (List A) → List (List A) → List (List A)
  unfolding add_row
  add_all (r ∷ z) (s ∷ p) = add_row ar.plus r s ∷ add_all z p
  add_all _ _ = []

  -- `split_weight_rows`, from the row `c0` on.
  unfoldable pub weight_rows : Matrix A → ℕ → List ℕ → List (Matrix A)
  weight_rows w c0 [] = []
  weight_rows w c0 (k ∷ splits) =
      record { cols = w.cols; rows = slice c0 (c0 + k) w.rows } ∷ weight_rows w (c0 + k) splits

  unfoldable pub split_weight_rows : Matrix A → List ℕ → Option (List (Matrix A))
  unfolding weight_rows
  split_weight_rows w splits =
      if sum splits == length w.rows then some (weight_rows w 0 splits) else none

  -- The widths of the shards of `f` columns are those of the split.
  unfoldable pub widths_match : ℕ → ℕ → List ℕ → Bool
  widths_match f c0 [] = true
  widths_match f c0 (k ∷ splits) =
      (min (c0 + k) f - min c0 f == k) && widths_match f (c0 + k) splits

  -- The sum of the full-width partials, from one on.
  unfoldable pub reduce : List (List A) → List (List (List A)) → List (Matrix A) → List (List A)
  unfolding mat_mul add_all
  reduce z (h ∷ hs) (w ∷ ws) = reduce (add_all z (mat_mul h w)) hs ws
  reduce z _ _ = z

  unfoldable pub recombine_full_layer :
      (A → A) → List (List (List A)) → List (Matrix A) → Option (List (List A))
  unfolding mat_mul reduce
  recombine_full_layer phi (h ∷ hs) (w ∷ ws) = some (map (map phi) (reduce (mat_mul h w) hs ws))
  recombine_full_layer phi _ _ = none

  -- A layer on one device; without weights it is only the aggregation.
  unfoldable pub reference_layer :
      (A → A) → List ℕ → List ℕ → Option (Matrix A) → Matrix A → Option (Matrix A)
  unfolding aggregate mat_mul
  reference_layer phi src dst none x = do
    h ← aggregate ar.plus ar.nought (length x.rows) src dst x
    some (record { cols = x.cols; rows = map (map phi) h })
  reference_layer phi src dst (some w) x = do
    h ← aggregate ar.plus ar.nought (length x.rows) src dst x
    if x.cols == length w.rows
        then some (record { cols = w.cols; rows = map (map phi) (mat_mul h w) })
        else none

  unfoldable pub reference_llayer :
      ℕ → (A → A) → List ℕ → List ℕ → Option (Matrix A) → Matrix A → Option (Matrix A)
  unfolding reference_layer
  reference_llayer zero phi src dst w x = some x
  reference_llayer (suc layers) phi src dst w x = do
    next ← reference_layer phi src dst w x
    reference_llayer layers phi src dst w next

  -- A layer on the shards, with those of the weights.
  unfoldable pub sharded_layer :
      (A → A)
      → List ℕ
      → List ℕ
      → List ℕ
      → Option (ℕ × List (Matrix A))
      → Matrix A
      → Option (Matrix A)
  unfolding parts concatenate widths_match recombine_full_layer
  sharded_layer phi src dst splits none x = do
    shards ← parts ar.plus ar.nought (length x.rows) src dst x 0 splits
    h ← concatenate shards
    if widths_match x.cols 0 splits
        then some (record { cols = sum splits; rows = map (map phi) h })
        else none
  sharded_layer phi src dst splits (some (out, w_shards)) x = do
    shards ← parts ar.plus ar.nought (length x.rows) src dst x 0 splits
    z ← recombine_full_layer phi shards w_shards
    if widths_match x.cols 0 splits then some (record { cols = out; rows = z }) else none

  -- The loop over the layers; the shards of the weights stay the same.
  unfoldable pub sharded_layers :
      ℕ
      → (A → A)
      → List ℕ
      → List ℕ
      → List ℕ
      → Option (ℕ × List (Matrix A))
      → Matrix A
      → Option (Matrix A)
  unfolding sharded_layer
  sharded_layers zero phi src dst splits w_shards x = some x
  sharded_layers (suc layers) phi src dst splits w_shards x = do
    next ← sharded_layer phi src dst splits w_shards x
    sharded_layers layers phi src dst splits w_shards next

  unfoldable pub sharded_llayer :
      ℕ → (A → A) → List ℕ → List ℕ → List ℕ → Option (Matrix A) → Matrix A → Option (Matrix A)
  unfolding split_weight_rows sharded_layers
  sharded_llayer layers phi src dst splits none x = sharded_layers layers phi src dst splits none x
  sharded_llayer layers phi src dst splits (some w) x = do
    w_shards ← split_weight_rows w splits
    sharded_layers layers phi src dst splits (some (w.cols, w_shards)) x

  -- The assertion on the weights.
  unfoldable pub rows_match : ℕ → Option (Matrix A) → Bool
  rows_match f none = true
  rows_match f (some w) = length w.rows == f

  -- The results of one device and of the shards, whose difference is certified.
  unfoldable pub verify_recombine :
      ℕ
      → (A → A)
      → List ℕ
      → List ℕ
      → List ℕ
      → Option (Matrix A)
      → Matrix A
      → Option (Matrix A × Matrix A)
  unfolding rows_match reference_llayer sharded_llayer
  verify_recombine layers phi src dst splits w x =
      if not ((sum splits == x.cols) && rows_match x.cols w) then none else do
        ref ← reference_llayer layers phi src dst w x
        got ← sharded_llayer layers phi src dst splits w x
        some (ref, got)

pub record RecombineSpec : Type 0 where
  pub num_devices : ℕ
  pub f : ℕ
  pub cols_per_device : List ℕ
  pub layers : ℕ
  pub full_layer : Bool
  pub recombine_bytes : ℕ
  pub recombine_ms : Ratio

unfoldable pub plan_recombine : List ℕ → ℕ → ℕ → ℕ → ℕ → Bool → Option RecombineSpec
plan_recombine cols f n layers link full_layer =
    let words = n * f + (if full_layer then 2 * (n * f) else 0) in
    let total_bytes = words * feature_row_bytes * layers in
    if sum cols == f
    then some (record {
      num_devices = length cols;
      f = f;
      cols_per_device = cols;
      layers = layers;
      full_layer = full_layer;
      recombine_bytes = total_bytes;
      recombine_ms = record { num = total_bytes * 1000; den = rate link };
    })
    else none
