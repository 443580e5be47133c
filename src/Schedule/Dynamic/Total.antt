-- ===== src/Schedule/Dynamic/Total.antt =====
-- src/zord/schedule/dynamic.py: the placement of the changed cone returns, and places every vertex on
-- one of the devices.
use zord.Base.{
  found_at, ℕ, zero, suc, ◌+◌, ◌*◌, ◌/◌, ◌<◌, ◌≡◌, refl, sym, ap, subst, ◌∙◌, true, Option, none,
  some, some-injective, List, [], ◌∷◌, ◌++◌, length, get_elem?, All, arith, inl, inr, sum,
  Bool-cases, Option-cases, ◌==◌, ltb, lt→ltb,
}
use zord.Base.Rows.{take}
use zord.Datasets.Numpy.Gather.{gather_total}
use zord.Datasets.Unique.{Unique}
use zord.Datasets.Argpartition.{Argpartition}
use zord.Schedule.Dynamic.{
  start_from, unplaced, touched, clear, contains, settle, movers, place_cone, partition_incremental,
  position, fixed_flat, fixed_votes, near, near_both, tents, all_below, loads, known,
}
use zord.Schedule.Dynamic.Sizes.{
  tents-Tentative, length-loads, length-loads_below, length-start_from, length-clear, length-settle,
  length-put_all,
}
use zord.Schedule.Dynamic.Spill.{spill_ends, spill_keeps, excess-le_sum}
use zord.Schedule.Dynamic.Kept.{place_cone-spill}
use zord.Schedule.Dynamic.Around.{
  Below, Around, settle-Around, put_all-Around, devices-below, clear-Around, clear-some,
  start_from-Below,
}
use zord.Schedule.Dynamic.Touched.{touched-below, old_touched_total, old_move_total}

position-lt : (v i : ℕ) (us : List ℕ) (r : ℕ) → position v i us ≡ some r → r < i + length us
unfolding position
position-lt v i [] r e = absurd (cc)
position-lt v i (u ∷ us) r e = elim (Option-cases (position v (i + 1) us)) [
  | inr (p, found) ↦
      let q : some p ≡ some r = rw (found, position) at e in
      omega (arith, position-lt v (i + 1) us p found, some-injective _ _ q)
  | inl gone ↦ elim (Bool-cases (u == v)) [
    | inl same ↦
        let q : some i ≡ some r = rw (gone, same, position) at e in
        omega (arith, some-injective _ _ q)
    | inr differ ↦ absurd (let q = rw (gone, differ, position) at e in cc)
  ]
]

-- The votes of the fixed neighbours are in the table.
fixed_flat-below :
    (d : ℕ) (a : List (Option ℕ)) (place : List ℕ) (pairs : List (ℕ × ℕ))
    → ((v c : ℕ) → get_elem? a v ≡ some (some c) → c < d)
    → all_below (length place * d) (fixed_flat d a place pairs) ≡ true
unfolding fixed_flat all_below
fixed_flat-below d a place [] h = refl
fixed_flat-below d a place ((p, o) ∷ pairs) h =
    let ih = fixed_flat-below d a place pairs h in
    elim (Bool-cases (contains o place)) [
      | inl inside ↦ rw inside ih
      | inr outside ↦ elim (Option-cases (get_elem? a o)) [
        | inl out ↦ rw (outside, out, fixed_flat) ih
        | inr (none, found) ↦ rw (outside, found, fixed_flat) ih
        | inr (some c, found) ↦ elim (Option-cases (position p 0 place)) [
          | inl gone ↦ rw (outside, found, gone, fixed_flat) ih
          | inr (r, at_r) ↦
              let c_lt = h o c found in
              let r_lt : r < length place = omega (arith, position-lt p 0 place r at_r) in
              let in_table : ltb (r * d + c) (length place * d) ≡ true =
                table-lt r c (length place) d r_lt c_lt in
              rw (outside, found, at_r, fixed_flat, in_table) ih
        ]
      ]
    ]
  where
    table-lt : (r c p d : ℕ) → r < p → c < d → ltb (r * d + c) (p * d) ≡ true
    table-lt r c p d h k = lt→ltb (r * d + c) (p * d) (grind arith)

nil_of_length : (l : List ℕ) → (length l == 0) ≡ true → l ≡ []
nil_of_length [] e = refl
nil_of_length (x ∷ l) e = absurd (ground arith)

place_cone_total :
    (n d : ℕ) (src dst place : List ℕ) (a : List (Option ℕ))
    → 0 < d
    → All (λ v. v < length a) src
    → All (λ v. v < length a) dst
    → ((v c : ℕ) → get_elem? a v ≡ some (some c) → c < d)
    → (a' : List (Option ℕ)) × (place_cone n d src dst place a ≡ some a')
unfolding place_cone
place_cone_total n d src dst place a pos hs hd h =
    let (x, e1) = gather_total a src hs in
    let (y, e2) = gather_total a dst hd in
    let s = settle place (tents d src dst place a) a in
    let load = loads d s in
    let fit = fixed_flat-below d a place (near place src dst ++ near_both place src dst) h in
    let (a', ended) =
      spill_ends place (n / d + 1) (suc (sum load)) load s (omega (arith, length-loads d s, pos))
        (omega (arith, excess-le_sum (n / d + 1) load)) in
    (a', rw (e1, e2, fixed_votes, fit) ended)

place_cone-Placed :
    (n d : ℕ) (src dst place : List ℕ) (a a' : List (Option ℕ))
    → 0 < d
    → Around d place a
    → place_cone n d src dst place a ≡ some a'
    → (length a' ≡ length a) × Around d [] a'
place_cone-Placed n d src dst place a a' pos h e =
    let t = tents d src dst place a in
    let s = settle place t a in
    let placed = settle-Around d place t a (tents-Tentative d src dst place a pos) h in
    let len = length-loads_below d s (devices-below d s placed) in
    spill_keeps place (n / d + 1) (λ b. (length b ≡ length a) × Around d [] b) d pos
      (λ b m full c lt k.
        let moved = take m (movers b full place) in
        (length-put_all moved c b ∙ k.0, put_all-Around d c moved b lt k.1))
      (suc (sum (loads d s))) (loads d s) s a' len (place_cone-spill n d src dst place a a' e)
      (length-settle place t a, placed)

-- On vertices and devices in range, and with a device, the placement returns: every vertex is on
-- one of the devices.
pub partition_incremental-total :
    (un : Unique) (np : Argpartition) (src dst : List ℕ) (n d : ℕ)
    (prior : Option (List (Option ℕ))) (lo budget : ℕ)
    → 0 < d
    → All (λ v. v < n) src
    → All (λ v. v < n) dst
    → All (Below d) (known prior)
    → (a' : List (Option ℕ)) × (partition_incremental un np src dst n d prior lo budget ≡ some a')
      × (length a' ≡ n)
      × ((v : ℕ) → v < n → (c : ℕ) × (get_elem? a' v ≡ some (some c)) × (c < d))
unfolding partition_incremental
partition_incremental-total un np src dst n zero prior lo budget pos hs hd h =
    absurd (omega (arith, pos))
partition_incremental-total un np src dst n (suc d) prior lo budget pos hs hd h =
    let a = start_from n (known prior) in
    let len : length a ≡ n = length-start_from n (known prior) in
    let near_a =
      λ (vs : List ℕ) (k : All (λ v. v < n) vs). subst (λ m. All (λ v. v < m) vs) (sym len) k in
    let (old, e1) =
      old_touched_total a (touched un src dst lo)
        (near_a (touched un src dst lo) (touched-below un src dst lo n hs hd)) in
    let (olds, e2) = old_move_total np a src dst budget old (near_a src hs) (near_a dst hd) in
    let place = unplaced 0 a ++ olds in
    let cleared = clear olds a in
    let len' : length cleared ≡ n = length-clear olds a ∙ len in
    let around = clear-Around n (suc d) (known prior) olds h in
    let all_there =
      λ (b : List (Option ℕ)) (k : length b ≡ n) (f : Around (suc d) [] b). homes (suc d) n b k f in
    elim (Bool-cases (length place == 0)) [
      | inl done ↦ (
        cleared,
        rw (e1, e2, done) refl,
        len',
        all_there cleared len'
            (subst (λ l. Around (suc d) l cleared) (nil_of_length place done) around),
      )
      | inr some_left ↦
          let in_cleared = λ (vs : List ℕ) (k : All (λ v. v < n) vs).
            subst (λ m. All (λ v. v < m) vs) (sym len') k in
          let (a', placed) =
            place_cone_total n (suc d) src dst place cleared pos (in_cleared src hs)
              (in_cleared dst hd)
              (λ v c e. start_from-Below n (suc d) (known prior) v c h (clear-some olds a v c e)) in
          let (same, homed) =
            place_cone-Placed n (suc d) src dst place cleared a' pos around placed in
          (a', rw (e1, e2, some_left) placed, same ∙ len', all_there a' (same ∙ len') homed)
    ]
  where
    homes :
        (d n : ℕ) (b : List (Option ℕ))
        → length b ≡ n
        → Around d [] b
        → (v : ℕ) → v < n
        → (c : ℕ) × (get_elem? b v ≡ some (some c)) × (c < d)
    homes d n b len f v lt =
        let (o, found) = found_at b v (omega (arith, len, lt)) in
        let (c, is_c, below) = f v o refl found in (c, found ∙ ap some is_c, below)
