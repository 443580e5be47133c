-- ===== src/Schedule/Online/Dependency/Last.antt =====
-- src/zord/schedule/dynamic_online.py: the last of the events that touch a vertex.
use zord.Base.{
  ℕ, ◌+◌, ◌<◌, ◌≡◌, subst, Option, none, some, List, get_elem?, arith, inl, inr, ◌⊎◌, Bool-cases,
  ◌==◌, ltb, ==_iff,
}
use zord.Base.Dict.{get}
use zord.Schedule.Online.Dependency.{later}

-- The event `k` has the vertex `v`.
abbrev pub Touches : List ℕ → List ℕ → ℕ → ℕ → Type 0
Touches us vs k v = (get_elem? us k ≡ some v) ⊎ (get_elem? vs k ≡ some v)

-- The latest of the events before `i` of a kind, or that there is none.
abbrev pub Last : (ℕ → Type 0) → ℕ → Option ℕ → Type 0
Last P i none = (k : ℕ) → k < i → ¬ P k
Last P i (some k) = (k < i) × P k × ((j : ℕ) → k < j → j < i → ¬ P j)

-- What has been seen last.
abbrev pub Seen : List ℕ → List ℕ → ℕ → List (ℕ × ℕ) → Type 0
Seen us vs i seen = (v : ℕ) → Last (λ k. Touches us vs k v) i (get v seen)

-- The next event is of the kind, or is not.
pub Last-now : (P : ℕ → Type 0) (i : ℕ) → P i → Last P (i + 1) (some i)
Last-now P i p = (omega arith, p, λ j lo hi. absurd (omega (arith, lo, hi)))

pub Last-not : (P : ℕ → Type 0) (i : ℕ) (o : Option ℕ) → (¬ P i) → Last P i o → Last P (i + 1) o
Last-not P i none not_i h = λ k lt p. elim (Bool-cases (k == i)) [
  | inl same ↦ not_i (subst P ((==_iff k i).0 same) p)
  | inr differ ↦ h k (ground arith) p
]
Last-not P i (some m) not_i h = (
  omega (arith, h.0),
  h.1,
  λ j lo lt p. elim (Bool-cases (j == i)) [
    | inl same ↦ not_i (subst P ((==_iff j i).0 same) p)
    | inr differ ↦ h.2 j lo (ground arith) p
  ],
)

-- The latest of two kinds is the later of the latest of each.
pub Last-later :
    (P Q : ℕ → Type 0) (i : ℕ) (p q : Option ℕ)
    → Last P i p
    → Last Q i q
    → Last (λ k. P k ⊎ Q k) i (later p q)
unfolding later
Last-later P Q i none none h k = λ m lt r. elim r [ inl a ↦ h m lt a | inr b ↦ k m lt b ]
Last-later P Q i none (some q) h k =
    (k.0, inr k.1, λ j lo lt r. elim r [ inl a ↦ h j lt a | inr b ↦ k.2 j lo lt b ])
Last-later P Q i (some p) none h k =
    (h.0, inl h.1, λ j lo lt r. elim r [ inl a ↦ h.2 j lo lt a | inr b ↦ k j lt b ])
Last-later P Q i (some p) (some q) h k = elim (Bool-cases (ltb q p)) [
  | inl less ↦ rw less (
    h.0,
    inl h.1,
    λ j lo lt r. elim r [ inl a ↦ h.2 j lo lt a | inr b ↦ k.2 j (ground arith) lt b ],
  )
  | inr more ↦ rw more (
    k.0,
    inr k.1,
    λ j lo lt r. elim r [ inl a ↦ h.2 j (ground arith) lt a | inr b ↦ k.2 j lo lt b ],
  )
]
