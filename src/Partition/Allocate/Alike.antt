-- ===== src/Partition/Allocate/Alike.antt =====
-- src/zord/partition/allocate.py: the pairs of cells of the same coordinate, and the cut of devices that
-- depend on a coordinate.
use native.Mathlib.Nat.{mul-add-mod_self_right, mod-eq_of_lt}
use zord.Base.{
  if◌then◌else◌, ℕ, zero, suc, ◌+◌, ◌*◌, ◌%◌, ◌<◌, ◌≡◌, refl, ap, ◌∙◌, subst, List, [], ◌∷◌, ◌++◌,
  some, some-injective, get_elem?, All, arith, inl, inr, ◌⊎◌, Bool-cases, true, ◌==◌,
}
use zord.Datasets.Numpy.{Numpy}
use zord.Datasets.Unique.{Unique, searchsorted-finds}
use zord.Partition.Allocate.{each, keys_of, unlike, consecutive, cut}
use mathlib.Core.List.{Memᴰ}

-- Two cells have the same coordinate.
abbrev pub Alike : List ℕ → ℕ × ℕ → Type 0
Alike coord p = (c : ℕ) × (get_elem? coord p.0 ≡ some c) × (get_elem? coord p.1 ≡ some c)

get-each :
    (f : ℕ → ℕ) (xs : List ℕ) (i x : ℕ)
    → get_elem? xs i ≡ some x
    → get_elem? (each f xs) i ≡ some (f x)
unfolding each
get-each f [] i x e = absurd (cc)
get-each f (y ∷ xs) zero x e = ap some (ap f (some-injective _ _ e))
get-each f (y ∷ xs) (suc i) x e = get-each f xs i x e

-- A device that depends on the coordinate alone cuts no pair of the same coordinate.
pub cut-each :
    (f : ℕ → ℕ) (coord : List ℕ) (pairs : List (ℕ × ℕ))
    → All (Alike coord) pairs
    → cut (each f coord) pairs ≡ some 0
unfolding cut
cut-each f coord [] h = refl
cut-each f coord ((a, b) ∷ pairs) h =
    let (c, at_a, at_b) = h.0 in
    let same : (f c == f c) ≡ true = ground arith in
    rw (get-each f coord a c at_a, get-each f coord b c at_b, cut-each f coord pairs h.1, same) refl

-- The coordinate of a cell is that of its key.
each-get :
    (f : ℕ → ℕ) (xs : List ℕ) (i y : ℕ)
    → get_elem? (each f xs) i ≡ some y
    → (x : ℕ) × (get_elem? xs i ≡ some x)
unfolding each
each-get f [] i y e = absurd (cc)
each-get f (x ∷ xs) zero y e = (x, refl)
each-get f (x ∷ xs) (suc i) y e = each-get f xs i y e

-- Devices by any coordinate of the cells have a cut.
pub cut-total :
    (f g h : ℕ → ℕ) (xs : List ℕ) (pairs : List (ℕ × ℕ))
    → All (Alike (each f xs)) pairs
    → (c : ℕ) × (cut (each h (each g xs)) pairs ≡ some c)
unfolding cut
cut-total f g h xs [] a = (0, refl)
cut-total f g h xs ((i, j) ∷ pairs) a =
    let (c, at_i, at_j) = a.0 in
    let (x, x_is) = each-get f xs i c at_i in
    let (y, y_is) = each-get f xs j c at_j in
    let (rest, rest_is) = cut-total f g h xs pairs a.1 in
    (
      (if h (g x) == h (g y) then 0 else 1) + rest,
      rw
          (
            get-each h (each g xs) i (g x) (get-each g xs i x x_is),
            get-each h (each g xs) j (g y) (get-each g xs j y y_is),
            rest_is,
          )
          refl,
    )

-- Consecutive cells of a vertex are of the same vertex.
pub consecutive-Alike :
    (coord : List ℕ) (i : ℕ) (vs : List ℕ)
    → ((k x : ℕ) → get_elem? vs k ≡ some x → get_elem? coord (i + k) ≡ some x)
    → All (Alike coord) (consecutive i vs)
unfolding consecutive
consecutive-Alike coord i [] h = tt
consecutive-Alike coord i (v ∷ []) h = tt
consecutive-Alike coord i (v ∷ w ∷ vs) h =
    let here : i + 0 ≡ i = omega arith in
    let next : i + 1 ≡ i + 1 = refl in
    let ih = consecutive-Alike coord (i + 1) (w ∷ vs) (λ k x e.
      let there : i + suc k ≡ i + 1 + k = omega arith in
      subst (λ j. get_elem? coord j ≡ some x) there (h (suc k) x e)) in
    elim (Bool-cases (w == v)) [
      | inr differ ↦ rw differ ih
      | inl same ↦
          let z : w ≡ v = ground arith in
          rw same (
            (
              v,
              subst (λ j. get_elem? coord j ≡ some v) here (h 0 v refl),
              subst (λ x. get_elem? coord (i + 1) ≡ some x) z (h 1 w refl),
            ),
            ih,
          )
    ]

module _ (np : Numpy) (un : Unique) (s : ℕ) (all : List ℕ) where
  abbrev keys : List ℕ
  keys = un.unique all

  snap_of :
      (v t : ℕ)
      → t < s
      → Memᴰ (v * s + t) all
      → get_elem? (each (λ k. k % s) keys) (np.searchsorted keys (v * s + t)) ≡ some t
  snap_of v t lt m =
      let k = v * s + t in
      let at_k = searchsorted-finds np keys k (un.unique_sorted all) (un.unique_has all k m) in
      let r : k % s ≡ t = mul-add-mod_self_right v s t ∙ mod-eq_of_lt lt in
      get-each (λ k. k % s) keys (np.searchsorted keys k) k at_k ∙ ap some r

  -- The two cells of an edge are of the same snapshot.
  pub unlike-Alike :
      (us vs snap : List ℕ)
      → All (λ t. t < s) snap
      → ((k : ℕ) → (Memᴰ k (keys_of s us snap)) ⊎ (Memᴰ k (keys_of s vs snap)) → Memᴰ k all)
      → All (Alike (each (λ k. k % s) keys)) (
          unlike
            (each (np.searchsorted keys) (keys_of s us snap))
            (each (np.searchsorted keys) (keys_of s vs snap)))
  unfolding unlike each keys_of
  unlike-Alike [] vs snap h m = tt
  unlike-Alike (u ∷ us) vs [] h m = tt
  unlike-Alike (u ∷ us) [] (t ∷ snap) h m = tt
  unlike-Alike (u ∷ us) (v ∷ vs) (t ∷ snap) h m =
      let a = np.searchsorted keys (u * s + t) in
      let b = np.searchsorted keys (v * s + t) in
      let ih =
        unlike-Alike us vs snap h.1
          (λ k q. elim q [ inl l ↦ m k (inl (Memᴰ.tail l)) | inr r ↦ m k (inr (Memᴰ.tail r)) ]) in
      elim (Bool-cases (a == b)) [
        | inl same ↦ rw same ih
        | inr differ ↦ rw differ (
          (
            t,
            snap_of u t h.0 (m _ (inl (Memᴰ.head refl))),
            snap_of v t h.0 (m _ (inr (Memᴰ.head refl))),
          ),
          ih,
        )
      ]

pub Memᴰ-append : (k : ℕ) (xs ys : List ℕ) → Memᴰ k xs ⊎ Memᴰ k ys → Memᴰ k (xs ++ ys)
Memᴰ-append k [] ys (inl m) = elim m [ ]
Memᴰ-append k [] ys (inr m) = m
Memᴰ-append k (x ∷ xs) ys (inl (Memᴰ.head e)) = Memᴰ.head e
Memᴰ-append k (x ∷ xs) ys (inl (Memᴰ.tail m)) = Memᴰ.tail (Memᴰ-append k xs ys (inl m))
Memᴰ-append k (x ∷ xs) ys (inr m) = Memᴰ.tail (Memᴰ-append k xs ys (inr m))
