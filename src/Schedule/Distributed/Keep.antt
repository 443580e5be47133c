-- ===== src/Schedule/Distributed/Keep.antt =====
-- src/zord/schedule/distributed.py: the distinct rows of a sorted list.
use zord.Base.{
  ℕ, ◌≤◌, ◌<◌, ◌≡◌, ◌⊎◌, sym, ap, ◌∙◌, subst, List, [], ◌∷◌, Option, none, some, some-injective,
  All, arith, inl, inr, Bool-cases, true, ◌==◌,
}
use zord.Base.Rows.{zip}
use zord.Datasets.Numpy.{Sorted}
use zord.Schedule.Distributed.{follows, keep}
use mathlib.Core.List.{Memᴰ}
use zord.Schedule.Distributed.Members.{uncons}

-- The keys of a list of rows increase, from above `prev` if there is one.
abbrev pub Above : Option ℕ → List (ℕ × ℕ) → Type 0
Above prev [] = Unit
Above none (p ∷ ps) = Above (some p.0) ps
Above (some j) (p ∷ ps) = (j < p.0) × Above (some p.0) ps

abbrev AtLeast : Option ℕ → List ℕ → Type 0
AtLeast none ks = Unit
AtLeast (some j) ks = All (λ k. j ≤ k) ks

pub keep-Above :
    (prev : Option ℕ) (ks ss : List ℕ) → Sorted ks → AtLeast prev ks → Above prev (keep prev ks ss)
unfolding keep
keep-Above none [] ss h l = tt
keep-Above (some j) [] ss h l = tt
keep-Above none (k ∷ ks) [] h l = tt
keep-Above (some j) (k ∷ ks) [] h l = tt
keep-Above none (k ∷ ks) (s ∷ ss) h l = keep-Above (some k) ks ss h.1 h.0
keep-Above (some j) (k ∷ ks) (s ∷ ss) h l = elim (Bool-cases (j == k)) [
  | inl same ↦
      let e : k ≡ j = ground arith in
      rw same
        (subst (λ q. Above (some q) (keep (some k) ks ss)) e (keep-Above (some k) ks ss h.1 h.0))
  | inr new ↦ rw new (ground (arith, l.0), keep-Above (some k) ks ss h.1 h.0)
]

pub keep-sub :
    (prev : Option ℕ) (ks ss : List ℕ) (row : ℕ × ℕ)
    → Memᴰ row (keep prev ks ss)
    → Memᴰ row (zip ks ss)
unfolding keep
keep-sub prev [] ss row m = elim m [ ]
keep-sub prev (k ∷ ks) [] row m = elim m [ ]
keep-sub prev (k ∷ ks) (s ∷ ss) row m = elim (Bool-cases (follows prev k)) [
  | inl same ↦ Memᴰ.tail (keep-sub (some k) ks ss row (rw (same, keep) at m))
  | inr new ↦ elim (uncons (rw (new, keep) at m)) [
    | inl q ↦ Memᴰ.head q
    | inr m' ↦ Memᴰ.tail (keep-sub (some k) ks ss row m')
  ]
]

-- Every key is kept, or is the one before.
pub keep_complete :
    (prev : Option ℕ) (ks ss : List ℕ) (k s : ℕ)
    → Memᴰ (k, s) (zip ks ss)
    → (prev ≡ some k) ⊎ ((s' : ℕ) × Memᴰ (k, s') (keep prev ks ss))
unfolding keep
keep_complete prev [] ss k s m = elim m [ ]
keep_complete prev (j ∷ ks) [] k s m = elim m [ ]
keep_complete prev (j ∷ ks) (t ∷ ss) k s m = elim (Bool-cases (follows prev j)) [
  | inl same ↦ elim (uncons m) [
    | inl q ↦ inl (before prev same ∙ ap (λ p. some p.0) (sym q))
    | inr m' ↦ elim (keep_complete (some j) ks ss k s m') [
      | inl e ↦ inl (before prev same ∙ e)
      | inr (s', kept) ↦ inr (s', rw (same, keep) kept)
    ]
  ]
  | inr new ↦ elim (uncons m) [
    | inl q ↦
        let at : (k, t) ≡ (j, t) = ap (λ p. (p.0, t)) q in inr (t, rw (new, keep) (Memᴰ.head at))
    | inr m' ↦ elim (keep_complete (some j) ks ss k s m') [
      | inl e ↦
          let at : (k, t) ≡ (j, t) = ap (λ q. (q, t)) (some-injective _ _ (sym e)) in
          inr (t, rw (new, keep) (Memᴰ.head at))
      | inr (s', kept) ↦ inr (s', rw (new, keep) (Memᴰ.tail kept))
    ]
  ]
]
  where
    before : (prev : Option ℕ) → follows prev j ≡ true → prev ≡ some j
    before none e = absurd (cc)
    before (some i) e = let q : i ≡ j = ground arith in ap some q
