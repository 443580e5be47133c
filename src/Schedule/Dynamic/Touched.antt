-- ===== src/Schedule/Dynamic/Touched.antt =====
-- src/zord/schedule/dynamic.py: the touched vertices are placed vertices, and what moves of them is.
use zord.Base.Members.{All-Memᴰ, All-of_Memᴰ}
use zord.Base.{
  found_at, ℕ, suc, ◌-◌, ◌<◌, ◌≡◌, refl, ap, Option, none, some, List, [], ◌∷◌, ◌++◌, length, All,
  All-append, arith, inl, inr, Bool-cases, ◌==◌, ltb,
}
use zord.Base.Rows.{All-take, take, drop, All-drop}
use zord.Base.Ranges.{range_up-bounds}
use zord.Datasets.Numpy.Gather.{gather_total, All-Permᴰ}
use zord.Datasets.Unique.{Unique}
use zord.Datasets.Argpartition.{Argpartition}
use zord.Schedule.Dynamic.{touched, old_touched, most_crossing, old_move, crossed, cross_keys}

pub touched-below :
    (un : Unique) (src dst : List ℕ) (lo n : ℕ)
    → All (λ v. v < n) src
    → All (λ v. v < n) dst
    → All (λ v. v < n) (touched un src dst lo)
unfolding touched
touched-below un src dst lo n hs hd = elim (Bool-cases (ltb lo (length src))) [
  | inr old ↦ rw old tt
  | inl new ↦
      let ends = drop lo src ++ drop lo dst in
      let P = λ (v : ℕ). v < n in
      rw new (
        All-of_Memᴰ P (un.unique ends) (λ x m.
          All-Memᴰ P ends x
            (All-append P (drop lo src) (drop lo dst) (All-drop P lo src hs) (All-drop P lo dst hd))
            (un.unique_only ends x m)))
]

pub old_touched_total :
    (a : List (Option ℕ)) (vs : List ℕ)
    → All (λ v. v < length a) vs
    → (old : List ℕ) × (old_touched a vs ≡ some old)
unfolding old_touched
old_touched_total a [] h = ([], refl)
old_touched_total a (v ∷ vs) h =
    let (c, found) = found_at a v h.0 in
    let (rest, done) = old_touched_total a vs h.1 in
    (elim c [ none ↦ rest | some _ ↦ v ∷ rest ], rw (found, done) refl)

length-cross_keys : (ends vs : List ℕ) → length (cross_keys ends vs) ≡ length vs
unfolding cross_keys
length-cross_keys ends [] = refl
length-cross_keys ends (v ∷ vs) = ap suc (length-cross_keys ends vs)

pub old_move_total :
    (np : Argpartition) (a : List (Option ℕ)) (src dst : List ℕ) (budget : ℕ) (old : List ℕ)
    → All (λ v. v < length a) src
    → All (λ v. v < length a) dst
    → (olds : List ℕ) × (old_move np a src dst budget old ≡ some olds)
unfolding old_move most_crossing
old_move_total np a src dst budget old hs hd = elim (Bool-cases (budget == 0)) [
  | inl none_left ↦ ([], rw none_left refl)
  | inr some_left ↦ elim (Bool-cases (ltb budget (length old))) [
    | inr fit ↦ (old, rw (some_left, fit) refl)
    | inl many ↦
        let (as', e1) = gather_total a src hs in
        let (bs, e2) = gather_total a dst hd in
        let keys = cross_keys (crossed as' bs src ++ crossed as' bs dst) old in
        let len : length keys ≡ length old =
          length-cross_keys (crossed as' bs src ++ crossed as' bs dst) old in
        let P = λ (i : ℕ). i < length old in
        let within = All-take P budget (np.argpartition keys (budget - 1)) (
          All-Permᴰ P (np.argpartition_perm keys (budget - 1))
            (range_up-bounds 0 (length keys) (length old) (omega (arith, len)))) in
        let (olds, e3) =
          gather_total old (take budget (np.argpartition keys (budget - 1))) within in
        (olds, rw (some_left, many, e1, e2, e3) refl)
  ]
]
