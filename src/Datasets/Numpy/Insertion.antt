-- ===== src/Datasets/Numpy/Insertion.antt =====
-- One numpy that does what is relied on: an insertion sort and a search from the left.
use zord.Base.{
  ℕ, suc, ◌+◌, ◌≤◌, ◌<◌, ◌≡◌, refl, sym, ap, ◌∙◌, subst, List, [], ◌∷◌, some, some-injective,
  length, get_elem?, All, arith, inl, inr, ltb, leb, if◌then◌else◌, Bool-cases,
}
use zord.Base.Ranges.{range_up}
use zord.Base.Rows.{take, drop}
use zord.Datasets.Numpy.{Numpy, Sorted, gather, All-from}
use zord.Datasets.Numpy.Gather.{gather_cons, All-Permᴰ}
use mathlib.Core.List.{Permᴰ}
use mathlib.Core.List.Permᴰ

-- The items with their positions.
abbrev number : ℕ → List ℕ → List (ℕ × ℕ)
number i [] = []
number i (x ∷ t) = (x, i) ∷ number (i + 1) t

unfoldable insert : ℕ × ℕ → List (ℕ × ℕ) → List (ℕ × ℕ)
insert p [] = p ∷ []
insert p (q ∷ ps) = if leb p.0 q.0 then p ∷ q ∷ ps else q ∷ insert p ps

unfoldable insertion_sort : List (ℕ × ℕ) → List (ℕ × ℕ)
unfolding insert
insertion_sort [] = []
insertion_sort (p ∷ ps) = insert p (insertion_sort ps)

abbrev values : List (ℕ × ℕ) → List ℕ
values [] = []
values (p ∷ ps) = p.0 ∷ values ps

abbrev positions : List (ℕ × ℕ) → List ℕ
positions [] = []
positions (p ∷ ps) = p.1 ∷ positions ps

insert-Permᴰ : (p : ℕ × ℕ) (ps : List (ℕ × ℕ)) → Permᴰ (p ∷ ps) (insert p ps)
unfolding insert
insert-Permᴰ p [] = Permᴰ.refl (p ∷ [])
insert-Permᴰ p (q ∷ ps) = elim (Bool-cases (leb p.0 q.0)) [
  | inl le ↦ rw le (Permᴰ.refl (p ∷ q ∷ ps))
  | inr gt ↦
      rw gt
        (Permᴰ.trans {l₂ = q ∷ p ∷ ps} (Permᴰ.swap refl refl) (Permᴰ.cons refl (insert-Permᴰ p ps)))
]

sort-Permᴰ : (ps : List (ℕ × ℕ)) → Permᴰ ps (insertion_sort ps)
unfolding insertion_sort
sort-Permᴰ [] = Permᴰ.nil
sort-Permᴰ (p ∷ ps) =
    Permᴰ.trans (Permᴰ.cons refl (sort-Permᴰ ps)) (insert-Permᴰ p (insertion_sort ps))

positions-Permᴰ : {ps qs : List (ℕ × ℕ)} → Permᴰ ps qs → Permᴰ (positions ps) (positions qs)
positions-Permᴰ Permᴰ.nil = Permᴰ.nil
positions-Permᴰ (Permᴰ.cons e p) = Permᴰ.cons (ap (λ q. q.1) e) (positions-Permᴰ p)
positions-Permᴰ (Permᴰ.swap e f) = Permᴰ.swap (ap (λ q. q.1) e) (ap (λ q. q.1) f)
positions-Permᴰ (Permᴰ.trans p q) = Permᴰ.trans (positions-Permᴰ p) (positions-Permᴰ q)

positions-number : (i : ℕ) (t : List ℕ) → positions (number i t) ≡ range_up i (length t)
unfolding range_up
positions-number i [] = refl
positions-number i (x ∷ t) = ap (λ l. i ∷ l) (positions-number (i + 1) t)

insert-All :
    (x : ℕ) (p : ℕ × ℕ) (ps : List (ℕ × ℕ))
    → x ≤ p.0
    → All (λ y. x ≤ y) (values ps)
    → All (λ y. x ≤ y) (values (insert p ps))
unfolding insert
insert-All x p [] le h = (le, tt)
insert-All x p (q ∷ ps) le h = elim (Bool-cases (leb p.0 q.0)) [
  | inl here ↦ rw here (le, h)
  | inr there ↦ rw there (h.0, insert-All x p ps le h.1)
]

insert-Sorted : (p : ℕ × ℕ) (ps : List (ℕ × ℕ)) → Sorted (values ps) → Sorted (values (insert p ps))
unfolding insert
insert-Sorted p [] h = (tt, tt)
insert-Sorted p (q ∷ ps) h = elim (Bool-cases (leb p.0 q.0)) [
  | inl le ↦ rw le ((ground arith, All-from p.0 q.0 (values ps) (ground arith) h.0), h)
  | inr gt ↦ rw gt (insert-All q.0 p ps (ground arith) h.0, insert-Sorted p ps h.1)
]

sort-Sorted : (ps : List (ℕ × ℕ)) → Sorted (values (insertion_sort ps))
unfolding insertion_sort
sort-Sorted [] = tt
sort-Sorted (p ∷ ps) = insert-Sorted p (insertion_sort ps) (sort-Sorted ps)

gather-positions :
    (t : List ℕ) (ps : List (ℕ × ℕ))
    → All (λ p. get_elem? t p.1 ≡ some p.0) ps
    → gather t (positions ps) ≡ some (values ps)
unfolding gather
gather-positions t [] h = refl
gather-positions t (p ∷ ps) h =
    gather_cons t (values ps) p.1 (positions ps) p.0 h.0 (gather-positions t ps h.1)

number-All :
    (t : List ℕ) (i : ℕ) (xs : List ℕ)
    → ((k x : ℕ) → get_elem? xs k ≡ some x → get_elem? t (i + k) ≡ some x)
    → All (λ p. get_elem? t p.1 ≡ some p.0) (number i xs)
number-All t i [] h = tt
number-All t i (x ∷ xs) h =
    let here : i + 0 ≡ i = omega arith in
    (
      subst (λ k. get_elem? t k ≡ some x) here (h 0 x refl),
      number-All t (i + 1) xs λ k y e.
          let there : i + suc k ≡ i + 1 + k = omega arith in
          subst (λ j. get_elem? t j ≡ some y) there (h (suc k) y e),
    )

unfoldable pub argsort : List ℕ → List ℕ
unfolding insertion_sort
argsort t = positions (insertion_sort (number 0 t))

unfoldable pub searchsorted : List ℕ → ℕ → ℕ
searchsorted [] v = 0
searchsorted (x ∷ t) v = let k = searchsorted t v in if ltb x v then suc k else 0

pub argsort-Permᴰ : (t : List ℕ) → Permᴰ (range_up 0 (length t)) (argsort t)
unfolding argsort
argsort-Permᴰ t =
    subst (λ l. Permᴰ l (argsort t)) (positions-number 0 t)
      (positions-Permᴰ (sort-Permᴰ (number 0 t)))

pub argsort-Sorted : (t s : List ℕ) → gather t (argsort t) ≡ some s → Sorted s
unfolding argsort
argsort-Sorted t s e =
    let ps = insertion_sort (number 0 t) in
    let start : (k x : ℕ) → get_elem? t k ≡ some x → get_elem? t (0 + k) ≡ some x =
      λ k x q. (let z : k ≡ 0 + k = omega arith in subst (λ j. get_elem? t j ≡ some x) z q) in
    let placed =
      All-Permᴰ (λ p. get_elem? t p.1 ≡ some p.0) (sort-Permᴰ (number 0 t))
        (number-All t 0 t start) in
    subst Sorted (some-injective _ _ (sym (gather-positions t ps placed) ∙ e))
      (sort-Sorted (number 0 t))

pub searchsorted_length : (t : List ℕ) (v : ℕ) → searchsorted t v ≤ length t
unfolding searchsorted
searchsorted_length [] v = omega arith
searchsorted_length (x ∷ t) v = let ih = searchsorted_length t v in ground arith

pub searchsorted_below : (t : List ℕ) (v : ℕ) → All (λ x. x < v) (take (searchsorted t v) t)
unfolding searchsorted
searchsorted_below [] v = tt
searchsorted_below (x ∷ t) v = elim (Bool-cases (ltb x v)) [
  | inl lt ↦ rw lt (ground arith, searchsorted_below t v)
  | inr ge ↦ rw ge tt
]

pub searchsorted_rest :
    (t : List ℕ) (v : ℕ) → Sorted t → All (λ x. v ≤ x) (drop (searchsorted t v) t)
unfolding searchsorted
searchsorted_rest [] v h = tt
searchsorted_rest (x ∷ t) v h = elim (Bool-cases (ltb x v)) [
  | inl lt ↦ rw lt (searchsorted_rest t v h.1)
  | inr ge ↦ rw ge (ground arith, All-from v x t (ground arith) h.0)
]

abbrev pub insertion : Numpy
insertion = record {
  argsort = argsort;
  argsort_perm = argsort-Permᴰ;
  argsort_sorts = argsort-Sorted;
  searchsorted = searchsorted;
  searchsorted_length = searchsorted_length;
  searchsorted_below = λ t v _. searchsorted_below t v;
  searchsorted_rest = searchsorted_rest;
}
