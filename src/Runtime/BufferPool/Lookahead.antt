-- ===== src/Runtime/BufferPool/Lookahead.antt =====
-- src/zord/runtime/bufferpool.py: `_next_use_array` against the next occurrence of a unit.
use zord.Base.{
  ℕ, zero, suc, ◌+◌, ◌<◌, ◌≡◌, ◌≢◌, ◌⊎◌, ◌∙◌, refl, ap, inl, inr, Option, none, some, Bool, List,
  [], ◌∷◌, arith, ◌==◌, if◌then◌else◌, get_elem?, Bool-cases, Option-cases, sym, subst,
}
use zord.Base.Dict.{get, get-put}
use zord.Runtime.BufferPool.{never, next_use_from, next_use_array}

-- The first position of a unit in the accesses that start at position `i`.
unfoldable pub next_pos : ℕ → ℕ → List ℕ → Option ℕ
next_pos u i [] = none
next_pos u i (v ∷ vs) = if v == u then some i else next_pos u (i + 1) vs

abbrev pub or_never : Option ℕ → ℕ
or_never none = never
or_never (some j) = j

-- The next use of a unit, `never` if there is none.
unfoldable pub next_use : ℕ → List ℕ → ℕ → ℕ
unfolding next_pos
next_use i us u = or_never (next_pos u i us)

pub last_seen-next_pos : (u i : ℕ) (us : List ℕ) → get u (next_use_from i us).1 ≡ next_pos u i us
unfolding next_use_from next_pos get
last_seen-next_pos u i [] = refl
last_seen-next_pos u i (v ∷ vs) =
    get-put v u i (next_use_from (i + 1) vs).1
    ∙ ap (λ o. if v == u then some i else o) (last_seen-next_pos u (i + 1) vs)

unfoldable pub next_uses : ℕ → List ℕ → List ℕ
next_uses i [] = []
next_uses i (u ∷ us) = next_use (i + 1) us u ∷ next_uses (i + 1) us

elim-or_never : (o p : Option ℕ) → o ≡ p → (elim o [ none ↦ never | some j ↦ j ]) ≡ or_never p
elim-or_never none p h = ap or_never h
elim-or_never (some j) p h = ap or_never h

pub next_use_from-eq : (i : ℕ) (us : List ℕ) → (next_use_from i us).0 ≡ next_uses i us
unfolding next_use_from next_uses next_use
next_use_from-eq i [] = refl
next_use_from-eq i (u ∷ us) =
    λ k. elim-or_never _ _ (last_seen-next_pos u (i + 1) us) k ∷ next_use_from-eq (i + 1) us k

-- What `next_pos` finds lies in the list, and nothing before it is the unit.
pub next_pos-some :
    (u i : ℕ) (us : List ℕ) (j : ℕ)
    → next_pos u i us ≡ some j
    → (k : ℕ) × (j ≡ i + k)
      × (get_elem? us k ≡ some u)
      × ((m : ℕ) → m < k → get_elem? us m ≢ some u)
unfolding next_pos
next_pos-some u i [] j h = cc
next_pos-some u i (v ∷ vs) j h = elim (Bool-cases (v == u)) [
  | inl e ↦ (0, ground arith, ground arith, λ m lt. absurd (omega arith))
  | inr n ↦
      let (k, at, found, before) = next_pos-some u (i + 1) vs j (ground arith) in
      (suc k, omega arith, found, head_differs v vs k n before)
]
  where
    head_differs :
        (w : ℕ) (ws : List ℕ) (k : ℕ)
        → (w == u) ≡ Bool.false
        → ((m : ℕ) → m < k → get_elem? ws m ≢ some u)
        → (m : ℕ) → m < suc k
        → get_elem? (w ∷ ws) m ≢ some u
    head_differs w ws k n before zero lt = λ e. absurd (ground arith)
    head_differs w ws k n before (suc m) lt = before m (omega arith)

next_pos-none : (u i : ℕ) (us : List ℕ) → next_pos u i us ≡ none → (m : ℕ) → get_elem? us m ≢ some u
unfolding next_pos
next_pos-none u i [] h m = λ e. cc
next_pos-none u i (v ∷ vs) h zero = λ e. absurd (ground arith)
next_pos-none u i (v ∷ vs) h (suc m) = next_pos-none u (i + 1) vs (ground arith) m

abbrev Absent : ℕ → ℕ → List ℕ → Type 0
Absent u q us = (m : ℕ) → q < m → get_elem? us m ≢ some u

record Found (u q i j : ℕ) (us : List ℕ) : Type 0 where
  index : ℕ
  at : j ≡ i + index
  later : q < index
  same : get_elem? us index ≡ some u
  first : (m : ℕ) → q < m → m < index → get_elem? us m ≢ some u

next_use-cases :
    (i : ℕ) (us : List ℕ) (u : ℕ)
    → ((next_use (i + 1) us u ≡ never) × ((m : ℕ) → get_elem? us m ≢ some u))
      ⊎ ((k : ℕ) × (next_use (i + 1) us u ≡ i + 1 + k)
          × (get_elem? us k ≡ some u)
          × ((m : ℕ) → m < k → get_elem? us m ≢ some u))
unfolding next_use
next_use-cases i us u = elim (Option-cases (next_pos u (i + 1) us)) [
  | inl e ↦ inl (ap or_never e, next_pos-none u (i + 1) us e)
  | inr (j, e) ↦
      let (k, at, found, before) = next_pos-some u (i + 1) us j e in
      inr (k, ap or_never e ∙ at, found, before)
]

below : (P : ℕ → Type 0) → ((m : ℕ) → P (suc m)) → (m : ℕ) → 0 < m → P m
below P f zero h = elim h [ ]
below P f (suc m) h = f m

next_uses-cases :
    (i q : ℕ) (us : List ℕ) (u j : ℕ)
    → get_elem? us q ≡ some u
    → get_elem? (next_uses i us) q ≡ some j
    → ((j ≡ never) × Absent u q us) ⊎ Found u q i j us
unfolding next_uses
next_uses-cases i q [] u j a b = cc
next_uses-cases i zero (v ∷ vs) u j a b =
    let e : v ≡ u = ground arith in
    let f : next_use (i + 1) vs u ≡ j = ground arith in
    elim (next_use-cases i vs u) [
      | inl (at, none_left) ↦ inl (sym f ∙ at, below (λ m. get_elem? (v ∷ vs) m ≢ some u) none_left)
      | inr (k, at, found, before) ↦ inr (record {
        index = suc k;
        at = omega arith;
        later = omega arith;
        same = found;
        first =
            below (λ m. m < suc k → get_elem? (v ∷ vs) m ≢ some u) (λ m h. before m (omega arith));
      })
    ]
next_uses-cases i (suc q) (v ∷ vs) u j a b = elim (next_uses-cases (i + 1) q vs u j a b) [
  | inl (at, none_left) ↦ inl (at, shift q none_left)
  | inr f ↦ inr (record {
    index = suc f.index;
    at = omega (arith, f.at);
    later = omega (arith, f.later);
    same = f.same;
    first = shift_first q f.index f.first;
  })
]
  where
    shift : (q : ℕ) → Absent u q vs → Absent u (suc q) (v ∷ vs)
    shift q h zero lt = absurd (omega arith)
    shift q h (suc m) lt = h m (omega arith)

    shift_first :
        (q k : ℕ)
        → ((m : ℕ) → q < m → m < k → get_elem? vs m ≢ some u)
        → (m : ℕ) → suc q < m
        → m < suc k
        → get_elem? (v ∷ vs) m ≢ some u
    shift_first q k h zero lt le = absurd (omega arith)
    shift_first q k h (suc m) lt le = h m (omega arith) (omega arith)

-- Each entry is `never` where the unit does not come again, and otherwise the first later position
-- of the same unit.
pub next_use_array-is_next :
    (access : List ℕ) (q u j : ℕ)
    → get_elem? access q ≡ some u
    → get_elem? (next_use_array access) q ≡ some j
    → ((j ≡ never) × ((m : ℕ) → q < m → get_elem? access m ≢ some u))
      ⊎ ((q < j)
          × (get_elem? access j ≡ some u)
          × ((m : ℕ) → q < m → m < j → get_elem? access m ≢ some u))
unfolding next_use_array
next_use_array-is_next access q u j a b =
    elim (next_uses-cases 0 q access u j a
      (subst (λ l. get_elem? l q ≡ some j) (next_use_from-eq 0 access) b)) [
        | inl none_left ↦ inl none_left
        | inr f ↦
            let e : f.index ≡ j = omega (arith, f.at) in
            inr (
              subst
                (λ k.
                  (q < k)
                  × (get_elem? access k ≡ some u)
                  × ((m : ℕ) → q < m → m < k → get_elem? access m ≢ some u))
                e (f.later, f.same, f.first))
      ]
