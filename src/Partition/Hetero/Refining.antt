-- ===== src/Partition/Hetero/Refining.antt =====
-- src/zord/partition/hetero.py: the refinement keeps every device within its limit, and each move
-- lowers the weighted cut of its node.
use zord.Base.{
  ℕ, zero, suc, ◌+◌, ◌<◌, ◌≡◌, ◌≢◌, refl, sym, subst, List, [], ◌∷◌, Option, none, some,
  some-injective, get_elem?, ◌⊎◌, arith, inl, inr, Bool-cases, true, ◌==◌, not, ◌&&◌, ◌||◌, ltb,
}
use zord.Partition.Hetero.{
  argmin_from, Placement, Setting, cut_cost, costs_of, cost_at, improves, move, refine_node,
  refine_pass, refine,
}
use zord.Partition.Hetero.Loads.{argmin_from-found}
use zord.Partition.Hetero.Moving.{Fits, costs-open, move-Fits}

costs-value :
    (assignment : List (Option ℕ)) (nb : List ℕ) (cur d : ℕ) (links : List (List ℕ))
    (load cap : List ℕ) (i t : ℕ)
    → get_elem? (costs_of assignment nb cur d links load cap) i ≡ some (some t)
    → (link : List ℕ) × (get_elem? links i ≡ some link) × (t ≡ cut_cost link assignment nb)
unfolding costs_of
costs-value assignment nb cur d [] load cap i t e = absurd (cc)
costs-value assignment nb cur d (k ∷ links) [] cap i t e = absurd (cc)
costs-value assignment nb cur d (k ∷ links) (l ∷ load) [] i t e = absurd (cc)
costs-value assignment nb cur d (k ∷ links) (l ∷ load) (c ∷ cap) zero t e =
    elim (Bool-cases (ltb l c || d == cur)) [
      | inl ok ↦
          let q : some (some (cut_cost k assignment nb)) ≡ some (some t) = rw ok at e in
          (k, refl, sym (some-injective _ _ (some-injective _ _ q)))
      | inr barred ↦ absurd (let q : some none ≡ some (some t) = rw barred at e in cc)
    ]
costs-value assignment nb cur d (k ∷ links) (l ∷ load) (c ∷ cap) (suc i) t e =
    costs-value assignment nb cur (d + 1) links load cap i t e

-- A move: the node leaves `cur` for `best`, where its neighbours cost less by more than a unit.
pub record Gains (s : Setting) (v : ℕ) (p p' : Placement) : Type 0 where
  pub cur : ℕ
  pub best : ℕ
  pub moves : p' ≡ move v cur best p
  pub was : get_elem? p.assignment v ≡ some (some cur)
  pub link_cur : List ℕ
  pub link_best : List ℕ
  pub row_cur : get_elem? s.links cur ≡ some link_cur
  pub row_best : get_elem? s.links best ≡ some link_best
  pub cheaper :
      cut_cost link_best p.assignment (s.adj v) + 1 < cut_cost link_cur p.assignment (s.adj v)

improves-cheaper :
    (costs : List (Option ℕ)) (cur t best : ℕ)
    → improves costs cur t best ≡ true
    → (c : ℕ) × (get_elem? costs cur ≡ some (some c)) × (cur ≢ best) × (t + 1 < c)
unfolding improves cost_at
improves-cheaper costs cur t best e = go (get_elem? costs cur) refl
  where
    go :
        (o : Option (Option ℕ))
        → get_elem? costs cur ≡ o
        → (c : ℕ) × (get_elem? costs cur ≡ some (some c)) × (cur ≢ best) × (t + 1 < c)
    go none f = absurd (let q = rw (f, improves) at e in cc)
    go (some none) f = absurd (let q = rw (f, improves) at e in cc)
    go (some (some c)) f =
        let q : not (best == cur) && ltb (t + 1) c ≡ true = rw (f, improves) at e in
        (c, f, (λ z. ground arith), ground arith)

module _ (s : Setting) (v : ℕ) (p : Placement) (fits : Fits s p) where
  abbrev costs : List ℕ → ℕ → List (Option ℕ)
  costs nb cur = costs_of p.assignment nb cur 0 s.links p.load s.cap

  gain :
      (nb : List ℕ) (cur t best : ℕ)
      → s.adj v ≡ nb
      → get_elem? p.assignment v ≡ some (some cur)
      → argmin_from 0 (costs nb cur) ≡ some (t, best)
      → improves (costs nb cur) cur t best ≡ true
      → Fits s (move v cur best p) × Gains s v p (move v cur best p)
  gain nb cur t best row at_v found better =
      let (i, e, at_i) = argmin_from-found 0 (costs nb cur) t best found in
      let z : i ≡ best = omega (arith, e) in
      let at_best = subst (λ k. get_elem? (costs nb cur) k ≡ some (some t)) z at_i in
      let (c, at_cur, ne, lt) = improves-cheaper (costs nb cur) cur t best better in
      let (l, m, at_load, at_cap, room) =
        costs-open p.assignment nb cur 0 s.links p.load s.cap best t at_best
          (λ y. ne (omega (arith, y))) in
      let (link_best, row_best, t_is) =
        costs-value p.assignment nb cur 0 s.links p.load s.cap best t at_best in
      let (link_cur, row_cur, c_is) =
        costs-value p.assignment nb cur 0 s.links p.load s.cap cur c at_cur in
      (
        move-Fits s v cur best l m p ne at_v at_load at_cap room fits,
        record {
          cur = cur;
          best = best;
          moves = refl;
          was = at_v;
          link_cur = link_cur;
          link_best = link_best;
          row_cur = row_cur;
          row_best = row_best;
          cheaper =
              subst (λ l. cut_cost link_best p.assignment l + 1 < cut_cost link_cur p.assignment l)
                (sym row) (omega (arith, t_is, c_is, lt));
        },
      )

  module _ (moved : ℕ) where
    -- What a round of the refinement does.
    abbrev pub Round : Placement × ℕ → Type 0
    Round q = Fits s q.0 × ((q ≡ (p, moved)) ⊎ (Gains s v p q.0 × (q.1 ≡ moved + 1)))

    stays : Round (p, moved)
    stays = (fits, inl refl)

    by_cost :
        (u : ℕ) (us : List ℕ) (cur : ℕ) (o : Option (ℕ × ℕ))
        → s.adj v ≡ u ∷ us
        → get_elem? p.assignment v ≡ some (some cur)
        → argmin_from 0 (costs (u ∷ us) cur) ≡ o
        → Round (refine_node s v (p, moved))
    unfolding refine_node
    by_cost u us cur none row at_v found = rw (row, at_v, found, refine_node) stays
    by_cost u us cur (some (t, best)) row at_v found =
        elim (Bool-cases (improves (costs (u ∷ us) cur) cur t best)) [
          | inr worse ↦ rw (row, at_v, found, worse, refine_node) stays
          | inl better ↦
              let (fits', gains) = gain (u ∷ us) cur t best row at_v found better in
              rw (row, at_v, found, better, refine_node) (fits', inr (gains, refl))
        ]

    by_home :
        (u : ℕ) (us : List ℕ) (o : Option (Option ℕ))
        → s.adj v ≡ u ∷ us
        → get_elem? p.assignment v ≡ o
        → Round (refine_node s v (p, moved))
    unfolding refine_node
    by_home u us none row at_v = rw (row, at_v, refine_node) stays
    by_home u us (some none) row at_v = rw (row, at_v, refine_node) stays
    by_home u us (some (some cur)) row at_v =
        by_cost u us cur (argmin_from 0 (costs (u ∷ us) cur)) row at_v refl

    by_row : (nb : List ℕ) → s.adj v ≡ nb → Round (refine_node s v (p, moved))
    unfolding refine_node
    by_row [] row = rw (row, refine_node) stays
    by_row (u ∷ us) row = by_home u us (get_elem? p.assignment v) row refl

    -- A round of the refinement on a placement that fits leaves it as it is, or moves the node to a
    -- device where its weighted cut is lower by more than a unit and counts the move; the placement
    -- still fits.
    pub refine_node-Round : Round (refine_node s v (p, moved))
    refine_node-Round = by_row (s.adj v) refl

module _ (s : Setting) where
  pub refine_pass-Fits :
      (dirty : List ℕ) (q : Placement × ℕ) → Fits s q.0 → Fits s (refine_pass s dirty q).0
  unfolding refine_pass
  refine_pass-Fits [] q fits = fits
  refine_pass-Fits (v ∷ dirty) (p, moved) fits =
      refine_pass-Fits dirty (refine_node s v (p, moved)) (refine_node-Round s v p fits moved).0

  -- The refinement of a placement that fits, over any nodes and in any number of passes, fits: no
  -- device is above its limit, and the loads are the numbers of the nodes on the devices.
  pub refine-Fits :
      (passes : ℕ) (dirty : List ℕ) (p : Placement) → Fits s p → Fits s (refine s passes dirty p)
  unfolding refine
  refine-Fits zero dirty p fits = fits
  refine-Fits (suc passes) dirty p fits =
      let q = refine_pass s dirty (p, 0) in
      let fits' = refine_pass-Fits dirty (p, 0) fits in
      elim (Bool-cases (q.1 == 0)) [
        | inl done ↦ rw done fits'
        | inr more ↦ rw more (refine-Fits passes dirty q.0 fits')
      ]
