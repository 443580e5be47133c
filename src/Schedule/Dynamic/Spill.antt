-- ===== src/Schedule/Dynamic/Spill.antt =====
-- src/zord/schedule/dynamic.py: the loop that evens out the devices ends, and what it preserves.
use zord.Base.{
  get-get_or, ℕ, zero, suc, ◌+◌, ◌-◌, ◌≤◌, ◌<◌, ◌≡◌, ◌≢◌, refl, sym, ap, subst, ◌∙◌, true, false,
  Option, some, some-injective, List, [], ◌∷◌, length, get_elem?, get_or, All, min, leb, arith, inl,
  inr, Bool-cases, ◌==◌, sum,
}
use zord.Base.Rows.{take}
use zord.Partition.Hetero.{update, argmax}
use zord.Partition.Hetero.Loads.{length-update, get-update_other, argmax-lt_length}
use zord.Schedule.Dynamic.{argmin, any_over, movers, put_all, spill}

argmin-lt : (x : ℕ) (xs : List ℕ) → argmin (x ∷ xs) < length (x ∷ xs)
unfolding argmin
argmin-lt x [] = omega arith
argmin-lt x (y ∷ xs) = let ih = argmin-lt y xs in ground (arith, ih)

argmin-lt_length : (xs : List ℕ) → 0 < length xs → argmin xs < length xs
argmin-lt_length [] pos = absurd (omega (arith, pos))
argmin-lt_length (x ∷ xs) pos = argmin-lt x xs

-- The load above the limit.
abbrev pub excess : ℕ → List ℕ → ℕ
excess cap [] = 0
excess cap (l ∷ load) = (l - cap) + excess cap load

pub excess-le_sum : (cap : ℕ) (load : List ℕ) → excess cap load ≤ sum load
excess-le_sum cap [] = omega arith
excess-le_sum cap (l ∷ load) = omega (arith, excess-le_sum cap load)

excess-take_off :
    (cap i m l : ℕ) (load : List ℕ)
    → get_elem? load i ≡ some l
    → m ≤ l - cap
    → excess cap (update i (λ k. k - m) load) + m ≡ excess cap load
unfolding update
excess-take_off cap i m l [] e le = absurd (cc)
excess-take_off cap zero m l (k ∷ load) e le = let q = some-injective _ _ e in omega (arith, q, le)
excess-take_off cap (suc i) m l (k ∷ load) e le = omega (arith, excess-take_off cap i m l load e le)

excess-put_on :
    (cap i m l : ℕ) (load : List ℕ)
    → get_elem? load i ≡ some l
    → l + m ≤ cap
    → excess cap (update i (λ k. k + m) load) ≡ excess cap load
unfolding update
excess-put_on cap i m l [] e le = absurd (cc)
excess-put_on cap zero m l (k ∷ load) e le = let q = some-injective _ _ e in omega (arith, q, le)
excess-put_on cap (suc i) m l (k ∷ load) e le = omega (arith, excess-put_on cap i m l load e le)

over_some : (x m : ℕ) (l : List ℕ) → any_over x l ≡ true → All (λ y. y ≤ m) l → x < m
unfolding any_over
over_some x m [] e h = cc
over_some x m (y ∷ l) e h = ground (arith, over_some x m l)

over_none : (x : ℕ) (l : List ℕ) → any_over x l ≡ false → All (λ y. y ≤ x) l
unfolding any_over
over_none x [] e = tt
over_none x (y ∷ l) e = (ground arith, over_none x l (ground arith))

All-le : (a b : ℕ) (l : List ℕ) → a ≤ b → All (λ y. y ≤ a) l → All (λ y. y ≤ b) l
All-le a b [] le h = tt
All-le a b (x ∷ l) le h = (omega (arith, h.0), All-le a b l le h.1)

argmax-most : (l : List ℕ) → All (λ y. y ≤ get_or l (argmax l) 0) l
unfolding argmax any_over
argmax-most [] = tt
argmax-most (x ∷ l) = elim (Bool-cases (any_over x l)) [
  | inl e ↦
      let ih = argmax-most l in
      let lt = over_some x (get_or l (argmax l) 0) l e ih in
      let most : get_or (x ∷ l) (argmax (x ∷ l)) 0 ≡ get_or l (argmax l) 0 = rw e refl in
      subst (λ m. All (λ y. y ≤ m) (x ∷ l)) (sym most) (omega (arith, lt), ih)
  | inr e ↦
      let most : get_or (x ∷ l) (argmax (x ∷ l)) 0 ≡ x = rw e refl in
      subst (λ m. All (λ y. y ≤ m) (x ∷ l)) (sym most) (omega arith, over_none x l e)
]

-- The fullest device is over the limit where one is.
argmax-over : (cap : ℕ) (l : List ℕ) → any_over cap l ≡ true → cap < get_or l (argmax l) 0
argmax-over cap l e = over_some cap (get_or l (argmax l) 0) l e (argmax-most l)

pub length-take_le {ℓ} : {A : Type ℓ} (n : ℕ) (xs : List A) → length (take n xs) ≤ n
length-take_le zero xs = omega arith
length-take_le (suc n) [] = omega arith
length-take_le (suc n) (x ∷ xs) = omega (arith, length-take_le n xs)

module _ (place : List ℕ) (cap : ℕ) where
  -- With fuel for the load over the limit, the loop ends.
  pub spill_ends :
      (fuel : ℕ) (load : List ℕ) (a : List (Option ℕ))
      → 0 < length load
      → excess cap load < fuel
      → (a' : List (Option ℕ)) × (spill fuel place cap load a ≡ some a')
  unfolding spill
  spill_ends zero load a some_device enough = absurd (omega (arith, enough))
  spill_ends (suc fuel) load a some_device enough =
      let full = argmax load in
      let open' = argmin load in
      let lf = get_or load full 0 in
      let lo = get_or load open' 0 in
      let room = min (lf - cap) (cap - lo) in
      let moved = take room (movers a full place) in
      elim (Bool-cases (any_over cap load)) [
        | inr done ↦ (a, rw done refl)
        | inl over ↦ elim (Bool-cases (leb cap lo)) [
          | inl stuck ↦ (a, rw (over, stuck) refl)
          | inr free ↦ elim (Bool-cases (length moved == 0)) [
            | inl still ↦ (a, rw (over, free, still) refl)
            | inr some_moved ↦
                let few = length-take_le room (movers a full place) in
                let lf_over = argmax-over cap load over in
                let room_le : (room ≤ lf - cap) × (room ≤ cap - lo) = (omega arith, omega arith) in
                let lo_lt : lo < cap = ground arith in
                let off =
                  excess-take_off cap full (length moved) lf load
                    (get-get_or load full 0 (argmax-lt_length load some_device))
                    (omega (arith, few, room_le)) in
                let differ : full ≢ open' =
                  λ e. omega (arith, ap (λ i. get_or load i 0) e, lf_over, lo_lt) in
                let at_open =
                  get-update_other full open' (λ l. l - length moved) load differ
                  ∙ get-get_or load open' 0 (argmin-lt_length load some_device) in
                let on =
                  excess-put_on cap open' (length moved) lo
                    (update full (λ l. l - length moved) load) at_open
                    (omega (arith, few, room_le, lo_lt)) in
                let less : 0 < length moved = ground arith in
                let same_length =
                  length-update open' (λ l. l + length moved)
                    (update full (λ l. l - length moved) load)
                  ∙ length-update full (λ l. l - length moved) load in
                rw (over, free, some_moved)
                  (spill_ends fuel
                    (update open' (λ l. l + length moved)
                      (update full (λ l. l - length moved) load))
                    (put_all moved open' a) (omega (arith, same_length, some_device))
                    (omega (arith, enough, off, on, less)))
          ]
        ]
      ]

  -- What every move of some of the placed vertices to a device preserves, the loop preserves.
  pub spill_keeps {κ} :
      (P : List (Option ℕ) → Type κ) (n : ℕ)
      → 0 < n
      → ((a : List (Option ℕ)) (m full c : ℕ)
          → c < n
          → P a
          → P (put_all (take m (movers a full place)) c a))
      → (fuel : ℕ) (load : List ℕ) (a a' : List (Option ℕ)) → length load ≡ n
      → spill fuel place cap load a ≡ some a'
      → P a
      → P a'
  unfolding spill
  spill_keeps P n pos keep zero load a a' len e h = cc
  spill_keeps P n pos keep (suc fuel) load a a' len e h =
      let full = argmax load in
      let open' = argmin load in
      let lo = get_or load open' 0 in
      let room = min (get_or load full 0 - cap) (cap - lo) in
      let moved = take room (movers a full place) in
      let there = λ (q : some a ≡ some a'). subst P (some-injective _ _ q) h in
      elim (Bool-cases (any_over cap load)) [
        | inr done ↦ there (rw done at e)
        | inl over ↦ elim (Bool-cases (leb cap lo)) [
          | inl stuck ↦ there (rw (over, stuck) at e)
          | inr free ↦ elim (Bool-cases (length moved == 0)) [
            | inl still ↦ there (rw (over, free, still) at e)
            | inr some_moved ↦
                let same_length =
                  length-update open' (λ l. l + length moved)
                    (update full (λ l. l - length moved) load)
                  ∙ length-update full (λ l. l - length moved) load in
                let lt = argmin-lt_length load (omega (arith, len, pos)) in
                spill_keeps P n pos keep fuel
                  (update open' (λ l. l + length moved) (update full (λ l. l - length moved) load))
                  (put_all moved open' a) a' (same_length ∙ len) (rw (over, free, some_moved) at e)
                  (keep a room full open' (omega (arith, len, lt)) h)
          ]
        ]
      ]
