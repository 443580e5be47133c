-- ===== src/Partition/Hetero/Moving.antt =====
-- src/zord/partition/hetero.py: a move of a vertex keeps to the capacities.
use zord.Base.{
  ℕ, zero, suc, ◌+◌, ◌-◌, ◌<◌, ◌≡◌, ◌≢◌, refl, sym, ◌∙◌, subst, List, [], ◌∷◌, Option, none, some,
  some-injective, get_elem?, arith, inl, inr, Bool-cases, false, ◌==◌, if◌then◌else◌, ltb,
  Option-cases,
}
use zord.Partition.Hetero.{update, Placement, Setting, costs_of, move}
use zord.Partition.Hetero.Loads.{
  homed, Within, Tallied, get-update_at, get-update_other, get-update-none, Within-suc, Within-pred,
  homed-move,
}

-- The part of a placement that the refinement keeps.
pub record Fits (s : Setting) (p : Placement) : Type 0 where
  pub within : Within p.load s.cap
  pub tallied : Tallied p.load p.assignment

-- A device with a cost, other than the node's own, is below its limit.
pub costs-open :
    (assignment : List (Option ℕ)) (nb : List ℕ) (cur d : ℕ) (links : List (List ℕ))
    (load cap : List ℕ) (i t : ℕ)
    → get_elem? (costs_of assignment nb cur d links load cap) i ≡ some (some t)
    → cur ≢ d + i
    → (l : ℕ) × (c : ℕ) × (get_elem? load i ≡ some l) × (get_elem? cap i ≡ some c) × (l < c)
unfolding costs_of
costs-open assignment nb cur d [] load cap i t e ne = absurd (cc)
costs-open assignment nb cur d (k ∷ links) [] cap i t e ne = absurd (cc)
costs-open assignment nb cur d (k ∷ links) (l ∷ load) [] i t e ne = absurd (cc)
costs-open assignment nb cur d (k ∷ links) (l ∷ load) (c ∷ cap) zero t e ne =
    elim (Bool-cases (ltb l c)) [
      | inl room ↦ (l, c, refl, refl, ground arith)
      | inr full ↦
          let other : (d == cur) ≡ false = ground arith in
          absurd (let q = rw (full, other) at e in cc)
    ]
costs-open assignment nb cur d (k ∷ links) (l ∷ load) (c ∷ cap) (suc i) t e ne =
    costs-open assignment nb cur (d + 1) links load cap i t e (λ z. ne (omega (arith, z)))

module _ (s : Setting) where
  pub move-Fits :
      (v cur best l c : ℕ) (p : Placement)
      → cur ≢ best
      → get_elem? p.assignment v ≡ some (some cur)
      → get_elem? p.load best ≡ some l
      → get_elem? s.cap best ≡ some c
      → l < c
      → Fits s p
      → Fits s (move v cur best p)
  unfolding move
  move-Fits v cur best l c p ne at_v at_load at_cap lt fits =
      let less = update cur (λ k. k - 1) p.load in
      let at_less : get_elem? less best ≡ some l =
        get-update_other cur best (λ k. k - 1) p.load ne ∙ at_load in
      record {
        within =
            Within-suc best l c less s.cap at_less at_cap lt
              (Within-pred cur p.load s.cap fits.within);
        tallied = λ e k q. elim (Bool-cases (best == e)) [
          | inl same ↦
              let z : best ≡ e = ground arith in
              let at_e : get_elem? (update best (λ j. j + 1) less) e ≡ some (l + 1) =
                subst (λ j. get_elem? (update best (λ m. m + 1) less) j ≡ some (l + 1)) z
                  (get-update_at best (λ j. j + 1) less l at_less) in
              let was = subst (λ j. l ≡ homed j p.assignment) z (fits.tallied best l at_load) in
              let not_cur : cur ≢ e = λ y. ne (y ∙ sym z) in
              let h = homed-move v cur best e p.assignment at_v in
              ground (arith, some-injective _ _ (sym at_e ∙ q), h, was)
          | inr differ ↦
              let back : get_elem? less e ≡ some k =
                sym (get-update_other best e (λ j. j + 1) less (λ z. ground arith)) ∙ q in
              let h = homed-move v cur best e p.assignment at_v in
              elim (Bool-cases (cur == e)) [
                | inl own ↦ own_load e k (ground arith) back h differ
                | inr other ↦
                    let was = fits.tallied e k (
                      sym (get-update_other cur e (λ j. j - 1) p.load (λ z. ground arith))
                      ∙ back) in
                    ground (arith, h, was)
              ]
        ];
      }
    where
      own_load :
          (e k : ℕ)
          → cur ≡ e
          → get_elem? (update cur (λ j. j - 1) p.load) e ≡ some k
          → homed e (update v (λ _. some best) p.assignment) + (if cur == e then 1 else 0)
            ≡ homed e p.assignment + (if best == e then 1 else 0)
          → (best == e) ≡ false
          → k ≡ homed e (update v (λ _. some best) p.assignment)
      own_load e k z back h differ = elim (Option-cases (get_elem? p.load e)) [
        | inl gone ↦ absurd (
            let q = get-update-none cur e (λ j. j - 1) p.load gone in
            let r : some k ≡ none = sym back ∙ q in cc)
        | inr (m, there) ↦
            let was = fits.tallied e m there in
            let now : get_elem? (update cur (λ j. j - 1) p.load) e ≡ some (m - 1) =
              subst (λ j. get_elem? (update j (λ i. i - 1) p.load) e ≡ some (m - 1)) (sym z)
                (get-update_at e (λ j. j - 1) p.load m there) in
            ground (arith, some-injective _ _ (sym now ∙ back), was, h)
      ]
