-- ===== src/Partition/FeatureParallel/Split/Shares.antt =====
-- src/zord/partition/feature_parallel.py: the columns that the devices get are all the columns, and each
-- device gets its floor at least.
use zord.Base.{
  Bool, scale-le, length-map, ℕ, zero, suc, ◌+◌, ◌-◌, ◌*◌, ◌/◌, ◌%◌, ◌≤◌, ◌<◌, ◌≡◌, refl, sym, ap,
  subst, ◌∙◌, some, List, [], ◌∷◌, ◌==◌, if◌then◌else◌, length, sum, get_elem?, map, All, All-get,
  arith, Bool-cases, inl, inr,
}
use zord.Base.Ranges.{range_up-bounds, length-range_up}
use zord.Base.Ratios.{cancel-le}
use zord.Datasets.Numpy.{Numpy}
use zord.Datasets.Numpy.Gather.{All-Permᴰ, length-Permᴰ}
use zord.Partition.Hetero.{update}
use zord.Partition.FeatureParallel.{repeat}
use zord.Partition.FeatureParallel.Split.{
  columns_by_weight, Rounding, spread, turn, floors, negated, greatest,
}
use native.Mathlib.Nat.{div-add-mod, mod-lt}

-- Item by item at most.
abbrev pub Covers : List ℕ → List ℕ → Type 0
Covers [] [] = Unit
Covers (x ∷ xs) (y ∷ ys) = (x ≤ y) × Covers xs ys
Covers _ _ = ⊥

Covers-refl : (xs : List ℕ) → Covers xs xs
Covers-refl [] = tt
Covers-refl (x ∷ xs) = (omega arith, Covers-refl xs)

-- An increment keeps the items and adds one to their sum.
update-Covers : (k : ℕ) (xs ys : List ℕ) → Covers xs ys → Covers xs (update k (λ c. c + 1) ys)
unfolding update
update-Covers k [] [] h = tt
update-Covers k [] (y ∷ ys) h = absurd h
update-Covers k (x ∷ xs) [] h = absurd h
update-Covers zero (x ∷ xs) (y ∷ ys) h = (omega (arith, h.0), h.1)
update-Covers (suc k) (x ∷ xs) (y ∷ ys) h = (h.0, update-Covers k xs ys h.1)

sum-update : (k : ℕ) (ys : List ℕ) → k < length ys → sum (update k (λ c. c + 1) ys) ≡ suc (sum ys)
unfolding update
sum-update k [] h = absurd (omega (arith, h))
sum-update zero (y ∷ ys) h = omega arith
sum-update (suc k) (y ∷ ys) h = omega (arith, sum-update k ys (omega arith))

update-length : (k : ℕ) (ys : List ℕ) → length (update k (λ c. c + 1) ys) ≡ length ys
unfolding update
update-length k [] = refl
update-length zero (y ∷ ys) = refl
update-length (suc k) (y ∷ ys) = ap suc (update-length k ys)

in_range : {A : Type 0} (xs : List A) (i : ℕ) → i < length xs → (x : A) × (get_elem? xs i ≡ some x)
in_range [] i h = absurd (omega (arith, h))
in_range (x ∷ xs) zero h = (x, refl)
in_range (x ∷ xs) (suc i) h = in_range xs i (omega arith)

turn-below :
    (order : List ℕ) (i d : ℕ)
    → 0 < d
    → length order ≡ d
    → All (λ k. k < d) order
    → (k : ℕ) × (turn order i d ≡ some k) × (k < d)
unfolding turn
turn-below order i zero pos e h = absurd (omega (arith, pos))
turn-below order i (suc d) pos e h =
    let (k, at) =
      in_range order (i % suc d)
        (let lt : i % suc d < suc d = mod-lt i (omega arith) in omega (arith, lt, e)) in
    (k, at, All-get (λ j. j < suc d) order (i % suc d) k h at)

spread-Covers :
    (i rem : ℕ) (order cols base : List ℕ)
    → 0 < length cols
    → length order ≡ length cols
    → All (λ k. k < length cols) order
    → Covers base cols
    → (cols' : List ℕ) × (spread i rem order cols ≡ some cols')
      × (length cols' ≡ length cols)
      × Covers base cols'
      × (sum cols' ≡ sum cols + rem)
unfolding spread
spread-Covers i zero order cols base pos e h c = (cols, refl, refl, c, omega arith)
spread-Covers i (suc rem) order cols base pos e h c =
    let (k, at, lt) = turn-below order i (length cols) pos e h in
    let more = update k (λ x. x + 1) cols in
    let len = update-length k cols in
    let (cols', done, len', c', total) =
      spread-Covers (i + 1) rem order more base (omega (arith, pos, len)) (e ∙ sym len)
        (subst (λ n. All (λ j. j < n) order) (sym len) h) (update-Covers k base cols c) in
    let one_more = sum-update k cols lt in
    (cols', rw at done, len' ∙ len, c', omega (arith, total, one_more))

quotient-le : (a s : ℕ) → (a / s) * s ≤ a
quotient-le a s = let e = div-add-mod a s in grind arith

sum-map_quotient : (f s : ℕ) (ws : List ℕ) → sum (map (λ w. w * f / s) ws) * s ≤ sum ws * f
sum-map_quotient f s [] = omega arith
sum-map_quotient f s (w ∷ ws) =
    let ih = sum-map_quotient f s ws in let here = quotient-le (w * f) s in grind arith

-- The exact floors.
abbrev pub exactly : ℕ → ℕ → ℕ → ℕ
exactly w s f = w * f / s

pub exactly-sum :
    (s f : ℕ) (ws : List ℕ) → 0 < s → sum ws ≤ s → sum (map (λ w. exactly w s f) ws) ≤ f
exactly-sum s f ws pos whole =
    cancel-le (sum (map (λ w. w * f / s) ws)) f s pos
      (let le = sum-map_quotient f s ws in let more = scale-le (sum ws) s f whole in grind arith)

-- One share for each weight.
sum-ones : (ws : List ℕ) → sum (map (λ (w : ℕ). 1) ws) ≡ length ws
sum-ones [] = refl
sum-ones (w ∷ ws) = omega (arith, sum-ones ws)

map-ones : (g : ℕ → ℕ) (ws : List ℕ) → map g (map (λ (w : ℕ). 1) ws) ≡ map (λ (w : ℕ). g 1) ws
map-ones g [] = refl
map-ones g (w ∷ ws) = ap (◌∷◌ (g 1)) (map-ones g ws)

sum-floors : (fl : Rounding) (f w : ℕ) (ws : List ℕ) → sum (floors fl f (w ∷ ws)) ≤ f
sum-floors fl f w ws =
    let weight = w ∷ ws in
    let Total : Bool → Type 0 = λ b.
      sum (
        map
          (λ x.
            if b then fl.floor_product 1 (length weight) f else fl.floor_product x (sum weight) f)
          weight)
      ≤ f in
    elim (Bool-cases (sum weight == 0)) [
      | inl none_of ↦ subst Total (sym none_of) (
          subst (λ l. sum l ≤ f) (map-ones (λ x. fl.floor_product x (length weight) f) weight)
            (fl.floor_product_sum (length weight) f (map (λ x. 1) weight) (omega arith)
              (omega (arith, sum-ones weight))))
      | inr some_of ↦
          subst Total (sym some_of)
            (fl.floor_product_sum (sum weight) f weight (ground arith) (omega arith))
    ]

repeat-zero :
    (ws : List ℕ)
    → (length {A = ℕ} (repeat (length ws) 0) ≡ length ws) × (sum (repeat (length ws) 0) ≡ 0)
unfolding repeat
repeat-zero [] = (refl, refl)
repeat-zero (w ∷ ws) = (ap suc (repeat-zero ws).0, omega (arith, (repeat-zero ws).1))

nothing-Covers :
    (xs ws : List ℕ) → length xs ≡ length ws → sum xs ≤ 0 → Covers xs (repeat (length ws) 0)
unfolding repeat
nothing-Covers [] [] e h = tt
nothing-Covers [] (w ∷ ws) e h = absurd (omega (arith, e))
nothing-Covers (x ∷ xs) [] e h = absurd (omega (arith, e))
nothing-Covers (x ∷ xs) (w ∷ ws) e h =
    (omega (arith, h), nothing-Covers xs ws (omega (arith, e)) (omega (arith, h)))

-- With one device at least, and however the floats round the floors, the split returns: it gives all the
-- columns away, to as many devices as there are weights, and to each at least its floor.
pub columns_by_weight-shares :
    (np : Numpy) (fl : Rounding) (f w : ℕ) (ws : List ℕ)
    → (cols : List ℕ) × (columns_by_weight np fl f (w ∷ ws) ≡ some cols)
      × (length cols ≡ length (w ∷ ws))
      × (sum cols ≡ f)
      × Covers (floors fl f (w ∷ ws)) cols
unfolding columns_by_weight
columns_by_weight-shares np fl zero w ws =
    let (len, total) = repeat-zero (w ∷ ws) in
    (
      repeat (length (w ∷ ws)) 0,
      refl,
      len,
      total,
      nothing-Covers (floors fl 0 (w ∷ ws)) (w ∷ ws)
          (length-map
            (λ x.
              if sum (w ∷ ws) == 0
              then fl.floor_product 1 (length (w ∷ ws)) 0
              else fl.floor_product x (sum (w ∷ ws)) 0)
            (w ∷ ws))
          (sum-floors fl 0 w ws),
    )
columns_by_weight-shares np fl (suc f) w ws =
    let weight = w ∷ ws in
    let cols = floors fl (suc f) weight in
    let len : length cols ≡ length weight =
      length-map
        (λ x.
          if sum weight == 0
          then fl.floor_product 1 (length weight) (suc f)
          else fl.floor_product x (sum weight) (suc f))
        weight in
    let len' : length (negated weight) ≡ length weight =
      length-map (λ x. greatest weight - x) weight in
    let perm = np.argsort_perm (negated weight) in
    let as_long : length (np.argsort (negated weight)) ≡ length cols =
      sym (length-Permᴰ perm) ∙ length-range_up 0 (length (negated weight)) ∙ len' ∙ sym len in
    let (cols', done, same, share, total) =
      spread-Covers 0 (suc f - sum cols) (np.argsort (negated weight)) cols cols
        (omega (arith, len)) as_long
        (All-Permᴰ (λ k. k < length cols) perm
          (range_up-bounds 0 (length (negated weight)) (length cols) (omega (arith, len, len'))))
        (Covers-refl cols) in
    let le = sum-floors fl (suc f) w ws in
    (cols', done, same ∙ len, omega (arith, total, le), share)
