-- ===== src/Partition/Hetero/Placing.antt =====
-- src/zord/partition/hetero.py: the streaming placement keeps every device within its limit.
use zord.Base.{
  ℕ, zero, suc, ◌+◌, ◌≤◌, ◌<◌, ◌≡◌, ◌≢◌, refl, sym, ◌∙◌, subst, List, [], ◌∷◌, Option, none, some,
  some-injective, length, get_elem?, arith, inl, inr, Bool-cases, ◌==◌, if◌then◌else◌, sum,
  Option-cases,
}
use zord.Partition.Hetero.{
  update, argmin_from, Placement, Setting, scores_of, choose, place_at, place, place_all,
}
use zord.Partition.Hetero.Loads.{
  homed, placed, Within, Tallied, length-update, get-update_at, get-update_other, Within-suc,
  sum-update_add, homed-place, placed-place, argmin_from-found, argmin_from-none,
}
use mathlib.Core.List.{Memᴰ}
use zord.Partition.Hetero.Choosing.{scores-open, scores-full}

-- A row of link costs for each device, no device above its limit, and the loads are the numbers of
-- the nodes on the devices.
pub record IsValid (s : Setting) (p : Placement) : Type 0 where
  pub link_rows : length s.links ≡ length s.cap
  pub devices : length p.load ≡ length s.cap
  pub within : Within p.load s.cap
  pub tallied : Tallied p.load p.assignment
  pub total : sum p.load ≡ placed p.assignment

module _ (s : Setting) where
  -- While not all nodes are placed and the limits hold them all, the chosen device has room.
  choose-open :
      (v : ℕ) (p : Placement)
      → IsValid s p
      → sum p.load < sum s.cap
      → (l : ℕ) × (c : ℕ) × (get_elem? p.load
            (choose (scores_of s.pressure p.assignment (s.adj v) s.links p.load s.cap) p.load s.cap)
          ≡ some l)
        × (get_elem? s.cap (
              choose
                (scores_of s.pressure p.assignment (s.adj v) s.links p.load s.cap)
                p.load
                s.cap)
            ≡ some c)
        × (l < c)
  unfolding choose
  choose-open v p valid room =
      let scores = scores_of s.pressure p.assignment (s.adj v) s.links p.load s.cap in
      elim (Option-cases (argmin_from 0 scores)) [
        | inl none_open ↦ absurd (
            omega (
              arith,
              room,
              scores-full s.pressure p.assignment (s.adj v) s.links p.load s.cap valid.link_rows
                  valid.devices (argmin_from-none 0 scores none_open),
            ))
        | inr ((t, d), found) ↦
            let (i, e, q) = argmin_from-found 0 scores t d found in
            let at_d : get_elem? scores d ≡ some (some t) =
              (let z : i ≡ d = omega (arith, e) in
                subst (λ k. get_elem? scores k ≡ some (some t)) z q) in
            rw (found, choose)
              (scores-open s.pressure p.assignment (s.adj v) s.links p.load s.cap d t at_d)
      ]

  place_at-IsValid :
      (v d l c : ℕ) (p : Placement)
      → get_elem? p.assignment v ≡ some none
      → get_elem? p.load d ≡ some l
      → get_elem? s.cap d ≡ some c
      → l < c
      → IsValid s p
      → IsValid s (place_at v d p)
  unfolding place_at
  place_at-IsValid v d l c p unplaced at_load at_cap lt valid = record {
    link_rows = valid.link_rows;
    devices = length-update d (λ k. k + 1) p.load ∙ valid.devices;
    within = Within-suc d l c p.load s.cap at_load at_cap lt valid.within;
    tallied = λ e k q. elim (Bool-cases (d == e)) [
      | inl same ↦
          let z : d ≡ e = ground arith in
          let at_e : get_elem? (update d (λ k. k + 1) p.load) e ≡ some (l + 1) =
            subst (λ j. get_elem? (update d (λ k. k + 1) p.load) j ≡ some (l + 1)) z
              (get-update_at d (λ k. k + 1) p.load l at_load) in
          let one : ◌≡◌ {A = ℕ} (if d == e then 1 else 0) 1 = ground arith in
          let was = subst (λ j. l ≡ homed j p.assignment) z (valid.tallied d l at_load) in
          omega (
            arith,
            some-injective _ _ (sym at_e ∙ q),
            homed-place v d e p.assignment unplaced,
            one,
            was,
          )
      | inr differ ↦
          let none' : ◌≡◌ {A = ℕ} (if d == e then 1 else 0) 0 = ground arith in
          let was =
            valid.tallied e k
              (sym (get-update_other d e (λ k. k + 1) p.load (λ z. ground arith)) ∙ q) in
          omega (arith, homed-place v d e p.assignment unplaced, none', was)
    ];
    total =
        sum-update_add d 1 p.load (in_range p.load d l at_load)
        ∙ (omega (arith, valid.total, (placed-place v d p.assignment unplaced).0));
  }
    where
      in_range : (xs : List ℕ) (i x : ℕ) → get_elem? xs i ≡ some x → i < length xs
      in_range [] i x e = absurd (cc)
      in_range (y ∷ xs) zero x e = omega arith
      in_range (y ∷ xs) (suc i) x e = omega (arith, in_range xs i x e)

  place-IsValid :
      (v : ℕ) (p : Placement)
      → length p.assignment ≤ sum s.cap
      → IsValid s p
      → IsValid s (place s v p) × (length (place s v p).assignment ≡ length p.assignment)
  unfolding place place_at
  place-IsValid v p hold valid = go (get_elem? p.assignment v) refl
    where
      go :
          (o : Option (Option ℕ))
          → get_elem? p.assignment v ≡ o
          → IsValid s (place s v p) × (length (place s v p).assignment ≡ length p.assignment)
      go none e = rw (e, place) (valid, refl)
      go (some (some d)) e = rw (e, place) (valid, refl)
      go (some none) e =
          let d =
            choose (scores_of s.pressure p.assignment (s.adj v) s.links p.load s.cap) p.load
              s.cap in
          let room : sum p.load < sum s.cap =
            omega (arith, valid.total, (placed-place v d p.assignment e).1, hold) in
          let (l, c, at_load, at_cap, lt) = choose-open v p valid room in
          rw (e, place)
            (
              place_at-IsValid v d l c p e at_load at_cap lt valid,
              length-update v (λ _. some d) p.assignment,
            )

  -- With a row of link costs for each device and limits that hold the graph, the placement of any
  -- order of nodes from a valid placement is valid: no device is above its limit, and the loads are
  -- the numbers of the nodes on the devices, whatever the link costs and the load pressure are.
  pub place_all-IsValid :
      (order : List ℕ) (p : Placement)
      → length p.assignment ≤ sum s.cap
      → IsValid s p
      → IsValid s (place_all s order p)
  unfolding place_all
  place_all-IsValid [] p hold valid = valid
  place_all-IsValid (v ∷ order) p hold valid =
      let (valid', len) = place-IsValid v p hold valid in
      place_all-IsValid order (place s v p) (omega (arith, len, hold)) valid'

  -- A node that has been placed stays where it is,
  place-stays :
      (v w d : ℕ) (p : Placement)
      → get_elem? p.assignment w ≡ some (some d)
      → get_elem? (place s v p).assignment w ≡ some (some d)
  unfolding place place_at
  place-stays v w d p at_w = go (get_elem? p.assignment v) refl
    where
      go :
          (o : Option (Option ℕ))
          → get_elem? p.assignment v ≡ o
          → get_elem? (place s v p).assignment w ≡ some (some d)
      go none e = rw (e, place) at_w
      go (some (some f)) e = rw (e, place) at_w
      go (some none) e =
          rw (e, place)
            (get-update_other v w _ p.assignment (λ z. absurd (
                let q : get_elem? p.assignment w ≡ some none =
                  subst (λ k. get_elem? p.assignment k ≡ some none) z e in
                cc))
              ∙ at_w)

  pub place_all-stays :
      (order : List ℕ) (w d : ℕ) (p : Placement)
      → get_elem? p.assignment w ≡ some (some d)
      → get_elem? (place_all s order p).assignment w ≡ some (some d)
  unfolding place_all
  place_all-stays [] w d p e = e
  place_all-stays (v ∷ order) w d p e =
      place_all-stays order w d (place s v p) (place-stays v w d p e)

  place-places :
      (v : ℕ) (o : Option ℕ) (p : Placement)
      → get_elem? p.assignment v ≡ some o
      → (d : ℕ) × (get_elem? (place s v p).assignment v ≡ some (some d))
  unfolding place place_at
  place-places v none p e =
      let d =
        choose (scores_of s.pressure p.assignment (s.adj v) s.links p.load s.cap) p.load s.cap in
      (d, rw (e, place) (get-update_at v (λ _. some d) p.assignment none e))
  place-places v (some d) p e = (d, rw (e, place) e)

  place-keeps :
      (v w : ℕ) (o : Option ℕ) (p : Placement)
      → get_elem? p.assignment w ≡ some o
      → (o' : Option ℕ) × (get_elem? (place s v p).assignment w ≡ some o')
  unfolding place place_at
  place-keeps v w (some d) p e = (some d, place-stays v w d p e)
  place-keeps v w none p e = elim (Bool-cases (v == w)) [
    | inl same ↦
        let z : v ≡ w = ground arith in
        let (d, q) =
          place-places v none p (subst (λ k. get_elem? p.assignment k ≡ some none) (sym z) e) in
        (some d, subst (λ k. get_elem? (place s v p).assignment k ≡ some (some d)) z q)
    | inr differ ↦ go (get_elem? p.assignment v) refl (λ z. ground arith)
  ]
    where
      go :
          (o : Option (Option ℕ))
          → get_elem? p.assignment v ≡ o
          → v ≢ w
          → (o' : Option ℕ) × (get_elem? (place s v p).assignment w ≡ some o')
      go none f ne = (none, rw (f, place) e)
      go (some (some g)) f ne = (none, rw (f, place) e)
      go (some none) f ne = (none, rw (f, place) (get-update_other v w _ p.assignment ne ∙ e))

  -- Every node of the order that the graph has is on a device in the end.
  pub place_all-places :
      (order : List ℕ) (v : ℕ) (o : Option ℕ) (p : Placement)
      → Memᴰ v order
      → get_elem? p.assignment v ≡ some o
      → (d : ℕ) × (get_elem? (place_all s order p).assignment v ≡ some (some d))
  unfolding place_all
  place_all-places [] v o p m e = elim m [ ]
  place_all-places (w ∷ order) v o p (Memᴰ.head z) e =
      let e' = subst (λ k. get_elem? p.assignment k ≡ some o) z e in
      let (d, q) = place-places w o p e' in
      (
        d,
        place_all-stays order v d (place s w p)
            (subst (λ k. get_elem? (place s w p).assignment k ≡ some (some d)) (sym z) q),
      )
  place_all-places (w ∷ order) v o p (Memᴰ.tail m) e =
      let (o', q) = place-keeps w v o p e in place_all-places order v o' (place s w p) m q
