-- ===== src/Partition/Hetero/Loads.antt =====
-- src/zord/partition/hetero.py: loads, limits and how many nodes are on a device.
use zord.Base.{
  ℕ, zero, suc, ◌+◌, ◌-◌, ◌≤◌, ◌<◌, ◌≡◌, ◌≢◌, refl, ap, ◌∙◌, List, [], ◌∷◌, Option, none, some,
  some-injective, length, get_elem?, All, arith, inl, inr, Bool-cases, ◌==◌, if◌then◌else◌, ltb,
  sum, Option-cases,
}
use zord.Partition.Hetero.{update, argmax, shares, limits, widen, capacities, argmin_from}

-- The nodes on the device `d`, and the nodes on any.
unfoldable pub homed : ℕ → List (Option ℕ) → ℕ
homed d [] = 0
homed d (none ∷ assignment) = homed d assignment
homed d (some e ∷ assignment) = (if e == d then 1 else 0) + homed d assignment

unfoldable pub placed : List (Option ℕ) → ℕ
placed [] = 0
placed (none ∷ assignment) = placed assignment
placed (some e ∷ assignment) = suc (placed assignment)

-- No load is above its limit.
abbrev pub Within : List ℕ → List ℕ → Type 0
Within [] cap = Unit
Within (l ∷ load) [] = 1 ≤ 0
Within (l ∷ load) (c ∷ cap) = (l ≤ c) × Within load cap

-- Each load is the number of nodes on the device.
abbrev pub Tallied : List ℕ → List (Option ℕ) → Type 0
Tallied load assignment = (d l : ℕ) → get_elem? load d ≡ some l → l ≡ homed d assignment

pub length-update {ℓ} :
    {A : Type ℓ} (i : ℕ) (f : A → A) (xs : List A) → length (update i f xs) ≡ length xs
unfolding update
length-update i f [] = refl
length-update zero f (x ∷ xs) = refl
length-update (suc i) f (x ∷ xs) = ap suc (length-update i f xs)

pub get-update_at {ℓ} :
    {A : Type ℓ} (i : ℕ) (f : A → A) (xs : List A) (x : A)
    → get_elem? xs i ≡ some x
    → get_elem? (update i f xs) i ≡ some (f x)
unfolding update
get-update_at i f [] x e = absurd (cc)
get-update_at zero f (y ∷ xs) x e = ap some (ap f (some-injective _ _ e))
get-update_at (suc i) f (y ∷ xs) x e = get-update_at i f xs x e

pub get-update_other {ℓ} :
    {A : Type ℓ} (i j : ℕ) (f : A → A) (xs : List A)
    → i ≢ j
    → get_elem? (update i f xs) j ≡ get_elem? xs j
unfolding update
get-update_other i j f [] ne = refl
get-update_other zero zero f (x ∷ xs) ne = absurd (ne refl)
get-update_other zero (suc j) f (x ∷ xs) ne = refl
get-update_other (suc i) zero f (x ∷ xs) ne = refl
get-update_other (suc i) (suc j) f (x ∷ xs) ne = get-update_other i j f xs (λ e. ne (ap suc e))

pub get-update-none {ℓ} :
    {A : Type ℓ} (i j : ℕ) (f : A → A) (xs : List A)
    → get_elem? xs j ≡ none
    → get_elem? (update i f xs) j ≡ none
unfolding update
get-update-none i j f [] e = e
get-update-none zero zero f (x ∷ xs) e = absurd (cc)
get-update-none zero (suc j) f (x ∷ xs) e = e
get-update-none (suc i) zero f (x ∷ xs) e = absurd (cc)
get-update-none (suc i) (suc j) f (x ∷ xs) e = get-update-none i j f xs e

pub Within-suc :
    (d l c : ℕ) (load cap : List ℕ)
    → get_elem? load d ≡ some l
    → get_elem? cap d ≡ some c
    → l < c
    → Within load cap
    → Within (update d (λ k. k + 1) load) cap
unfolding update
Within-suc d l c [] cap e f lt w = tt
Within-suc d l c (k ∷ load) [] e f lt w = absurd (omega (arith, w))
Within-suc zero l c (k ∷ load) (m ∷ cap) e f lt w =
    let p = some-injective _ _ e in let q = some-injective _ _ f in (omega (arith, p, q, lt), w.1)
Within-suc (suc d) l c (k ∷ load) (m ∷ cap) e f lt w = (w.0, Within-suc d l c load cap e f lt w.1)

pub Within-pred :
    (d : ℕ) (load cap : List ℕ) → Within load cap → Within (update d (λ k. k - 1) load) cap
unfolding update
Within-pred d [] cap w = tt
Within-pred d (k ∷ load) [] w = absurd (omega (arith, w))
Within-pred zero (k ∷ load) (m ∷ cap) w = (omega (arith, w.0), w.1)
Within-pred (suc d) (k ∷ load) (m ∷ cap) w = (w.0, Within-pred d load cap w.1)

pub sum-update_add :
    (d k : ℕ) (xs : List ℕ) → d < length xs → sum (update d (λ l. l + k) xs) ≡ sum xs + k
unfolding update
sum-update_add d k [] lt = absurd (omega arith)
sum-update_add zero k (x ∷ xs) lt = omega arith
sum-update_add (suc d) k (x ∷ xs) lt = omega (arith, sum-update_add d k xs (omega arith))

-- A node that is put on a device,
pub homed-place :
    (v d e : ℕ) (assignment : List (Option ℕ))
    → get_elem? assignment v ≡ some none
    → homed e (update v (λ _. some d) assignment) ≡ homed e assignment + (if d == e then 1 else 0)
unfolding homed update
homed-place v d e [] f = absurd (cc)
homed-place zero d e (none ∷ assignment) f = omega arith
homed-place zero d e (some g ∷ assignment) f = absurd (cc)
homed-place (suc v) d e (none ∷ assignment) f = homed-place v d e assignment f
homed-place (suc v) d e (some g ∷ assignment) f = omega (arith, homed-place v d e assignment f)

-- and one that moves from another.
pub homed-move :
    (v c d e : ℕ) (assignment : List (Option ℕ))
    → get_elem? assignment v ≡ some (some c)
    → homed e (update v (λ _. some d) assignment) + (if c == e then 1 else 0)
      ≡ homed e assignment + (if d == e then 1 else 0)
unfolding homed update
homed-move v c d e [] f = absurd (cc)
homed-move zero c d e (none ∷ assignment) f = absurd (cc)
homed-move zero c d e (some g ∷ assignment) f =
    let q : g ≡ c = some-injective _ _ (some-injective _ _ f) in ground (arith, q)
homed-move (suc v) c d e (none ∷ assignment) f = homed-move v c d e assignment f
homed-move (suc v) c d e (some g ∷ assignment) f = omega (arith, homed-move v c d e assignment f)

pub placed-place :
    (v d : ℕ) (assignment : List (Option ℕ))
    → get_elem? assignment v ≡ some none
    → (placed (update v (λ _. some d) assignment) ≡ suc (placed assignment))
      × (suc (placed assignment) ≤ length assignment)
unfolding placed update
placed-place v d [] f = absurd (cc)
placed-place zero d (none ∷ assignment) f = (refl, omega (arith, placed-le assignment))
  where
    placed-le : (l : List (Option ℕ)) → placed l ≤ length l
    placed-le [] = omega arith
    placed-le (none ∷ l) = omega (arith, placed-le l)
    placed-le (some e ∷ l) = omega (arith, placed-le l)
placed-place zero d (some g ∷ assignment) f = absurd (cc)
placed-place (suc v) d (none ∷ assignment) f =
    let (e, le) = placed-place v d assignment f in (e, omega (arith, le))
placed-place (suc v) d (some g ∷ assignment) f =
    let (e, le) = placed-place v d assignment f in (ap suc e, omega (arith, le))

-- What the least of some scores is, and what there is when there is none.
pub argmin_from-found :
    (k : ℕ) (xs : List (Option ℕ)) (t d : ℕ)
    → argmin_from k xs ≡ some (t, d)
    → (i : ℕ) × (d ≡ k + i) × (get_elem? xs i ≡ some (some t))
unfolding argmin_from
argmin_from-found k [] t d e = absurd (cc)
argmin_from-found k (none ∷ xs) t d e =
    let (i, p, q) = argmin_from-found (k + 1) xs t d e in (suc i, omega (arith, p), q)
argmin_from-found k (some s ∷ xs) t d e = elim (Option-cases (argmin_from (k + 1) xs)) [
  | inl gone ↦
      let q : (s, k) ≡ (t, d) = some-injective _ _ (rw (gone, argmin_from) at e) in
      (0, omega (arith, ap (λ r. r.1) q), ap (λ r. some (some r.0)) q)
  | inr ((u, g), found) ↦
      let (i, p, q) = argmin_from-found (k + 1) xs u g found in
      elim (Bool-cases (ltb u s)) [
        | inl lt ↦
            let r : (u, g) ≡ (t, d) = some-injective _ _ (rw (found, lt, argmin_from) at e) in
            (suc i, omega (arith, p, ap (λ o. o.1) r), q ∙ ap (λ o. some (some o.0)) r)
        | inr ge ↦
            let r : (s, k) ≡ (t, d) = some-injective _ _ (rw (found, ge, argmin_from) at e) in
            (0, omega (arith, ap (λ o. o.1) r), ap (λ o. some (some o.0)) r)
      ]
]

pub argmin_from-none :
    (k : ℕ) (xs : List (Option ℕ)) → argmin_from k xs ≡ none → All (λ o. o ≡ none) xs
unfolding argmin_from
argmin_from-none k [] e = tt
argmin_from-none k (none ∷ xs) e = (refl, argmin_from-none (k + 1) xs e)
argmin_from-none k (some s ∷ xs) e = elim (Option-cases (argmin_from (k + 1) xs)) [
  | inl gone ↦ absurd (let q = rw (gone, argmin_from) at e in cc)
  | inr ((u, g), found) ↦ elim (Bool-cases (ltb u s)) [
    | inl lt ↦ absurd (let q = rw (found, lt, argmin_from) at e in cc)
    | inr ge ↦ absurd (let q = rw (found, ge, argmin_from) at e in cc)
  ]
]

argmax-lt : (x : ℕ) (xs : List ℕ) → argmax (x ∷ xs) < length (x ∷ xs)
unfolding argmax
argmax-lt x [] = omega arith
argmax-lt x (y ∷ xs) = let ih = argmax-lt y xs in ground (arith, ih)

length-shares : (total n : ℕ) (mem : List ℕ) → length (shares total n mem) ≡ length mem
unfolding shares
length-shares total n [] = refl
length-shares total n (m ∷ mem) = ap suc (length-shares total n mem)

length-limits : (n : ℕ) (capacity : List ℕ) → length (limits n capacity) ≡ length capacity
unfolding limits
length-limits n [] = refl
length-limits n (c ∷ capacity) = ap suc (length-limits n capacity)

pub argmax-lt_length : (xs : List ℕ) → 0 < length xs → argmax xs < length xs
argmax-lt_length [] pos = absurd (omega (arith, pos))
argmax-lt_length (x ∷ xs) pos = argmax-lt x xs

sum-widen : (n : ℕ) (l : List ℕ) → 0 < length l → n ≤ sum (widen n l)
unfolding widen
sum-widen n l pos = elim (Bool-cases (ltb (sum l) n)) [
  | inr enough ↦ rw enough (ground arith)
  | inl short ↦
      let scaled = shares (sum l) n l in
      let some_device : 0 < length scaled = omega (arith, length-shares (sum l) n l, pos) in
      let total =
        sum-update_add (argmax scaled) (n - sum scaled) scaled
          (argmax-lt_length scaled some_device) in
      rw short (omega (arith, total))
]

-- With one device at least, the limits that the placement works with hold the whole graph.
pub sum-capacities :
    (num_nodes : ℕ) (mem : List ℕ) (capacity : Option (List ℕ))
    → 0 < length (elim capacity [ none ↦ mem | some c ↦ c ])
    → num_nodes ≤ sum (capacities num_nodes mem capacity)
unfolding capacities
sum-capacities num_nodes mem none pos =
    sum-widen num_nodes (shares (sum mem) num_nodes mem)
      (omega (arith, length-shares (sum mem) num_nodes mem, pos))
sum-capacities num_nodes mem (some c) pos =
    sum-widen num_nodes (limits num_nodes c) (omega (arith, length-limits num_nodes c, pos))
