-- ===== src/Partition/Hetero/Whole.antt =====
-- src/zord/partition/hetero.py: the partition of a graph, without a prior one.
use zord.Base.{
  ℕ, zero, suc, ◌<◌, ◌≡◌, refl, sym, ap, ◌∙◌, subst, List, [], ◌∷◌, Option, none, some,
  some-injective, length, get_elem?, arith, inl, inr, Bool-cases, ◌==◌, leb, sum, get_or,
}
use zord.Base.Ranges.{range_up-Memᴰ, range_up, length-range_up}
use zord.Datasets.Numpy.{Numpy}
use zord.Datasets.Numpy.Gather.{Memᴰ-Permᴰ}
use zord.Partition.Hetero.{
  Placement, Setting, capacities, neighbors, place_all, move, refine_node, refine_pass, refine,
  argmax, update,
}
use zord.Partition.Hetero.Run.{
  keys_of, appearance_order, degree_order, Order, auto, appearance, degree, order_of, fill, fresh,
  partition,
}
use zord.Partition.Hetero.Loads.{
  homed, placed, Within, sum-capacities, get-update_at, get-update_other,
}
use zord.Partition.Hetero.Placing.{IsValid, place_all-IsValid, place_all-places}
use zord.Partition.Hetero.Moving.{Fits}
use zord.Partition.Hetero.Refining.{refine_node-Round, refine-Fits, refine_pass-Fits}
use mathlib.Core.List.{Permᴰ, Memᴰ}

length-keys_of : (f : ℕ → ℕ) (vs : List ℕ) → length (keys_of f vs) ≡ length vs
unfolding keys_of
length-keys_of f [] = refl
length-keys_of f (v ∷ vs) = ap suc (length-keys_of f vs)

argsort-Memᴰ :
    (np : Numpy) (f : ℕ → ℕ) (n v : ℕ) → v < n → Memᴰ v (np.argsort (keys_of f (range_up 0 n)))
argsort-Memᴰ np f n v lt =
    let len : length (keys_of f (range_up 0 n)) ≡ n =
      length-keys_of f (range_up 0 n) ∙ length-range_up 0 n in
    Memᴰ-Permᴰ v
      (subst (λ k. Permᴰ (range_up 0 k) (np.argsort (keys_of f (range_up 0 n)))) len
        (np.argsort_perm (keys_of f (range_up 0 n))))
      (range_up-Memᴰ n 0 v (omega arith) (omega arith))

-- Every order takes every node.
order_of-Memᴰ :
    (np : Numpy) (order : Order) (cap src dst : List ℕ) (n v : ℕ)
    → v < n
    → Memᴰ v (order_of np order cap src dst n)
unfolding order_of appearance_order degree_order
order_of-Memᴰ np appearance cap src dst n v lt = argsort-Memᴰ np _ n v lt
order_of-Memᴰ np degree cap src dst n v lt = argsort-Memᴰ np _ n v lt
order_of-Memᴰ np auto cap src dst n v lt = elim (Bool-cases (leb n (get_or cap (argmax cap) 0))) [
  | inl whole ↦ rw whole (argsort-Memᴰ np _ n v lt)
  | inr spread ↦ rw spread (argsort-Memᴰ np _ n v lt)
]

length-fill {ℓ} : {A : Type ℓ} (n : ℕ) (x : A) → length (fill n x) ≡ n
unfolding fill
length-fill zero x = refl
length-fill (suc n) x = ap suc (length-fill n x)

get-fill {ℓ} : {A : Type ℓ} (n v : ℕ) (x : A) → v < n → get_elem? (fill n x) v ≡ some x
unfolding fill
get-fill zero v x lt = absurd (omega arith)
get-fill (suc n) zero x lt = refl
get-fill (suc n) (suc v) x lt = get-fill n v x (omega arith)

homed-fill : (d n : ℕ) → homed d (fill n none) ≡ 0
unfolding homed fill
homed-fill d zero = refl
homed-fill d (suc n) = homed-fill d n

placed-fill : (n : ℕ) → placed (fill n none) ≡ 0
unfolding placed fill
placed-fill zero = refl
placed-fill (suc n) = placed-fill n

sum-fill : (n : ℕ) → sum (fill n 0) ≡ 0
unfolding fill
sum-fill zero = refl
sum-fill (suc n) = omega (arith, sum-fill n)

Within-fill : (cap : List ℕ) → Within (fill (length cap) 0) cap
unfolding fill
Within-fill [] = tt
Within-fill (c ∷ cap) = (omega arith, Within-fill cap)

Tallied-fill : (k d l n : ℕ) → get_elem? (fill k 0) d ≡ some l → l ≡ homed d (fill n none)
unfolding fill
Tallied-fill zero d l n e = absurd (cc)
Tallied-fill (suc k) zero l n e = sym (some-injective _ _ e) ∙ sym (homed-fill 0 n)
Tallied-fill (suc k) (suc d) l n e =
    let z : l ≡ 0 = Tallied-fill k d l n e ∙ homed-fill d n in z ∙ sym (homed-fill (suc d) n)

module _ (s : Setting) where
  fresh-IsValid : (n : ℕ) → length s.links ≡ length s.cap → IsValid s (fresh n (length s.cap))
  unfolding fresh
  fresh-IsValid n rows = record {
    link_rows = rows;
    devices = length-fill (length s.cap) 0;
    within = Within-fill s.cap;
    tallied = λ d l e. Tallied-fill (length s.cap) d l n e;
    total = sum-fill (length s.cap) ∙ sym (placed-fill n);
  }

  -- The refinement leaves no node without a device.
  abbrev On : Placement → ℕ → Type 0
  On p v = (d : ℕ) × (get_elem? p.assignment v ≡ some (some d))

  move-On :
      (v w cur best : ℕ) (p : Placement)
      → get_elem? p.assignment v ≡ some (some cur)
      → On p w
      → On (move v cur best p) w
  unfolding move
  move-On v w cur best p at_v (d, at_w) = elim (Bool-cases (v == w)) [
    | inl same ↦
        let z : v ≡ w = ground arith in
        (
          best,
          subst (λ k. get_elem? (update v (λ _. some best) p.assignment) k ≡ some (some best)) z
              (get-update_at v (λ _. some best) p.assignment (some cur) at_v),
        )
    | inr differ ↦
        (d, get-update_other v w (λ _. some best) p.assignment (λ z. ground arith) ∙ at_w)
  ]

  refine_node-On :
      (v w moved : ℕ) (p : Placement) → Fits s p → On p w → On (refine_node s v (p, moved)).0 w
  refine_node-On v w moved p fits on = elim (refine_node-Round s v p fits moved).1 [
    | inl same ↦ subst (λ q. On q.0 w) (sym same) on
    | inr (g, _) ↦ subst (λ q. On q w) (sym g.moves) (move-On v w g.cur g.best p g.was on)
  ]

  refine_pass-On :
      (w : ℕ) (dirty : List ℕ) (q : Placement × ℕ)
      → Fits s q.0
      → On q.0 w
      → On (refine_pass s dirty q).0 w
  unfolding refine_pass
  refine_pass-On w [] q fits on = on
  refine_pass-On w (v ∷ dirty) (p, moved) fits on =
      refine_pass-On w dirty (refine_node s v (p, moved)) (refine_node-Round s v p fits moved).0
        (refine_node-On v w moved p fits on)

  refine-On :
      (w passes : ℕ) (dirty : List ℕ) (p : Placement)
      → Fits s p
      → On p w
      → On (refine s passes dirty p) w
  unfolding refine
  refine-On w zero dirty p fits on = on
  refine-On w (suc passes) dirty p fits on =
      let q = refine_pass s dirty (p, 0) in
      let on' = refine_pass-On w dirty (p, 0) fits on in
      elim (Bool-cases (q.1 == 0)) [
        | inl done ↦ rw done on'
        | inr more ↦
            rw more (refine-On w passes dirty q.0 (refine_pass-Fits s dirty (p, 0) fits) on')
      ]

module _ (np : Numpy) (pressure : ℕ → ℕ → ℕ) (links : List (List ℕ)) (order : Order) (passes : ℕ)
    (src dst : List ℕ) (num_nodes : ℕ) (mem : List ℕ) (capacity : Option (List ℕ))
    (pos : 0 < length (elim capacity [ none ↦ mem | some c ↦ c ]))
    (rows : length links ≡ length (capacities num_nodes mem capacity)) where
  abbrev setting : Setting
  setting = record {
    pressure = pressure;
    links = links;
    cap = capacities num_nodes mem capacity;
    adj = neighbors src dst;
  }

  abbrev placement : Placement
  placement =
      place_all setting (order_of np order setting.cap src dst num_nodes)
        (fresh num_nodes (length setting.cap))

  placement-Fits : Fits setting placement
  unfolding fresh
  placement-Fits =
      let valid : IsValid setting placement =
        place_all-IsValid setting (order_of np order setting.cap src dst num_nodes)
          (fresh num_nodes (length setting.cap))
          (omega (
            arith,
            sum-capacities num_nodes mem capacity pos,
            length-fill {A = Option ℕ} num_nodes none,
          ))
          (fresh-IsValid setting num_nodes rows) in
      record { within = valid.within; tallied = valid.tallied }

  -- With one device at least and a row of link costs for each, the partition of a graph puts no
  -- device above its limit, and its loads are the numbers of the nodes on the devices, whatever the
  -- costs, the pressure, the order and the number of passes are.
  pub partition-Fits :
      Fits setting (partition np pressure links order passes src dst num_nodes mem capacity)
  unfolding partition
  partition-Fits = refine-Fits setting passes (range_up 0 num_nodes) placement placement-Fits

  -- Under the same conditions, every node of the graph is on a device.
  pub partition_complete :
      (v : ℕ)
      → v < num_nodes
      → (d : ℕ) × (get_elem?
            (partition np pressure links order passes src dst num_nodes mem capacity).assignment
            v
          ≡ some (some d))
  unfolding partition fresh
  partition_complete v lt =
      refine-On setting v passes (range_up 0 num_nodes) placement placement-Fits (
        place_all-places setting (order_of np order setting.cap src dst num_nodes) v none
          (fresh num_nodes (length setting.cap))
          (order_of-Memᴰ np order setting.cap src dst num_nodes v lt)
          (get-fill num_nodes v none lt))
