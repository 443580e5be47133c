-- ===== src/Partition/Hetero/Choosing.antt =====
-- src/zord/partition/hetero.py: the device that a vertex is given has room.
use zord.Base.{
  ℕ, zero, suc, ◌≤◌, ◌<◌, ◌≡◌, refl, List, [], ◌∷◌, Option, none, some, length, get_elem?, All,
  arith, inl, inr, Bool-cases, leb, sum,
}
use zord.Partition.Hetero.{scores_of}

module _ (pressure : ℕ → ℕ → ℕ) (assignment : List (Option ℕ)) (nb : List ℕ) where
  -- A device that has a score is below its limit,
  pub scores-open :
      (links : List (List ℕ)) (load cap : List ℕ) (d t : ℕ)
      → get_elem? (scores_of pressure assignment nb links load cap) d ≡ some (some t)
      → (l : ℕ) × (c : ℕ) × (get_elem? load d ≡ some l) × (get_elem? cap d ≡ some c) × (l < c)
  unfolding scores_of
  scores-open [] load cap d t e = absurd (cc)
  scores-open (k ∷ links) [] cap d t e = absurd (cc)
  scores-open (k ∷ links) (l ∷ load) [] d t e = absurd (cc)
  scores-open (k ∷ links) (l ∷ load) (c ∷ cap) zero t e = elim (Bool-cases (leb c l)) [
    | inl full ↦ absurd (let q = rw full at e in cc)
    | inr room ↦ (l, c, refl, refl, ground arith)
  ]
  scores-open (k ∷ links) (l ∷ load) (c ∷ cap) (suc d) t e = scores-open links load cap d t e

  -- and if none has, all are full.
  pub scores-full :
      (links : List (List ℕ)) (load cap : List ℕ)
      → length links ≡ length cap
      → length load ≡ length cap
      → All (λ o. o ≡ none) (scores_of pressure assignment nb links load cap)
      → sum cap ≤ sum load
  unfolding scores_of
  scores-full [] load [] a b h = omega arith
  scores-full [] load (c ∷ cap) a b h = absurd (omega (arith, a))
  scores-full (k ∷ links) [] [] a b h = absurd (omega (arith, a))
  scores-full (k ∷ links) [] (c ∷ cap) a b h = absurd (omega (arith, b))
  scores-full (k ∷ links) (l ∷ load) [] a b h = absurd (omega (arith, b))
  scores-full (k ∷ links) (l ∷ load) (c ∷ cap) a b h = elim (Bool-cases (leb c l)) [
    | inl full ↦ omega (
      arith,
      (let q : c ≤ l = ground arith in q),
      scores-full links load cap (omega (arith, a)) (omega (arith, b)) h.1,
    )
    | inr room ↦ absurd (let q = rw room at h.0 in cc)
  ]
