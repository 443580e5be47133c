-- ===== src/Runtime/BufferPool/Admit.antt =====
-- src/zord/runtime/bufferpool.py: the incremental `BufferPool.admit`.
use zord.Base.{
  ℕ, ◌≤◌, ◌<◌, ◌≡◌, ◌≢◌, ◌⊎◌, refl, inl, inr, true, false, some, List, [], ◌∷◌, arith, leb, length,
  Bool-cases, ap,
}
use zord.Base.Dict.{get, has, put, del, get-put, length-put, length-del, get-del_ne}
use zord.Runtime.BufferPool.Plan.{Policy, BufferPool, init, admit, reset}
use zord.Runtime.BufferPool.Evict.{
  Distinct, AtMost, max_key-is_max, put-Distinct, del-Distinct, has-del,
}

-- The resident units are distinct, and fit the slots.
pub record IsValid (p : BufferPool) : Type 0 where
  pub slots : 0 < p.num_slots
  pub distinct : Distinct p.resident
  pub fits : length p.resident ≤ p.num_slots

-- What an admission promises: the unit is resident with its next use; nothing goes unless the unit
-- is new and the pool is full, and then one unit of the farthest next use goes; all else stays.
pub record Admitted (unit next_use : ℕ) (p q : BufferPool) (evicted : List ℕ) : Type 0 where
  pub valid : IsValid q
  pub settings :
      (q.num_slots ≡ p.num_slots)
      × (q.capacity_bytes ≡ p.capacity_bytes)
      × (q.unit_bytes ≡ p.unit_bytes)
      × (q.policy ≡ p.policy)
  pub present : get unit q.resident ≡ some next_use
  pub evicts :
      ((evicted ≡ []) × ((has unit p.resident ≡ true) ⊎ (length p.resident < p.num_slots)))
      ⊎ ((v : ℕ) × (m : ℕ) × (evicted ≡ v ∷ [])
          × (has unit p.resident ≡ false)
          × (length p.resident ≡ p.num_slots)
          × (get v p.resident ≡ some m)
          × AtMost m p.resident)
  pub others : (y : ℕ) → unit ≢ y → (evicted ≢ y ∷ []) → get y q.resident ≡ get y p.resident

pub init-IsValid :
    (capacity_bytes unit_bytes : ℕ) (policy : Policy)
    → IsValid (init capacity_bytes unit_bytes policy)
unfolding init
init-IsValid c u policy = record { slots = omega arith; distinct = tt; fits = omega arith }

pub reset-IsValid : {p : BufferPool} → IsValid p → IsValid (reset p)
unfolding reset
reset-IsValid v = record { slots = v.slots; distinct = tt; fits = omega arith }

module _ (unit nu : ℕ) (p : BufferPool) (v : IsValid p) where
  placed :
      (d : List (ℕ × ℕ))
      → Distinct d
      → length (put unit nu d) ≤ p.num_slots
      → ((y : ℕ) → unit ≢ y → get y d ≡ get y p.resident)
      → ((has unit p.resident ≡ true) ⊎ (length p.resident < p.num_slots))
      → Admitted unit nu p (record p { resident = put unit nu d }) []
  placed d dis fit oth why = record {
    valid = record { slots = v.slots; distinct = put-Distinct unit nu d dis; fits = fit };
    settings = (refl, refl, refl, refl);
    present = ground (arith, get-put unit unit nu d);
    evicts = inl (refl, why);
    others = λ y ne _. ground (arith, get-put unit y nu d, oth y ne);
  }

  -- `admit` keeps the pool valid and does what `Admitted` says, on every branch.
  pub admit-Admitted : Admitted unit nu p (admit unit nu p).0 (admit unit nu p).1
  unfolding admit
  admit-Admitted = elim (Bool-cases (has unit p.resident)) [
    | inl h ↦ rw h (
        placed p.resident v.distinct (ground (arith, length-put unit nu p.resident, v.fits))
          (λ y ne. refl) (inl h))
    | inr n ↦ elim (Bool-cases (leb p.num_slots (length p.resident))) [
      | inr room ↦
          rw (n, room)
            (placed p.resident v.distinct (ground (arith, length-put unit nu p.resident, v.fits))
              (λ y ne. refl) (inr (ground arith)))
      | inl full ↦
          let (u, m, key, g, present, all) =
            max_key-is_max p.resident v.distinct (ground (arith, v.slots)) in
          rw (n, full, key, admit)
            (record {
              valid = record {
                slots = v.slots;
                distinct = put-Distinct unit nu _ (del-Distinct u p.resident v.distinct);
                fits = ground (
                  arith,
                  length-put unit nu (del u p.resident),
                  length-del u p.resident,
                  has-del u unit p.resident n,
                  v.fits,
                );
              };
              settings = (refl, refl, refl, refl);
              present = ground (arith, get-put unit unit nu (del u p.resident));
              evicts = inr (u, m, refl, n, ground (arith, v.fits), g, all);
              others = λ y ne gone. ground (
                arith,
                get-put unit y nu (del u p.resident),
                get-del_ne u y p.resident (λ q. gone (ap (λ k. k ∷ []) q)),
              );
            })
    ]
  ]
