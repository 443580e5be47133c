-- ===== src/Datasets/Numpy/Gather.antt =====
-- Columns indexed by an order.
use zord.Base.{
  ℕ, zero, suc, ◌+◌, ◌<◌, ◌≡◌, refl, sym, ap, ◌∙◌, subst, List, [], ◌∷◌, ◌++◌, some, some-injective,
  length, get_elem?, All, arith, inl, inr, Option-cases,
}
use zord.Base.Ranges.{range_up}
use zord.Base.Rows.{zip}
use zord.Datasets.Numpy.{gather}
use mathlib.Core.List.{Permᴰ, Memᴰ}
use mathlib.Core.List.Permᴰ

module _ {ℓ} {A : Type ℓ} where
  pub gather-cons :
      (xs ys : List A) (i : ℕ) (order : List ℕ)
      → gather xs (i ∷ order) ≡ some ys
      → (x : A) × (rest : List A) × (get_elem? xs i ≡ some x)
        × (gather xs order ≡ some rest)
        × (ys ≡ x ∷ rest)
  unfolding gather
  gather-cons xs ys i order e = elim (Option-cases (get_elem? xs i)) [
    | inl gone ↦ absurd (ground arith)
    | inr (x, found) ↦ elim (Option-cases (gather xs order)) [
      | inl gone ↦ absurd (ground arith)
      | inr (rest, done) ↦ (x, rest, found, done, ground arith)
    ]
  ]

  pub gather_cons :
      (xs rest : List A) (i : ℕ) (order : List ℕ) (x : A)
      → get_elem? xs i ≡ some x
      → gather xs order ≡ some rest
      → gather xs (i ∷ order) ≡ some (x ∷ rest)
  unfolding gather
  gather_cons xs rest i order x e f = rw (e, f, gather) refl

  -- A reordered order gives the same items in another order.
  pub gather-Perm :
      (xs : List A) {is js : List ℕ}
      → Permᴰ is js
      → (ys : List A) → gather xs is ≡ some ys
      → (zs : List A) × (gather xs js ≡ some zs) × Permᴰ ys zs
  unfolding gather
  gather-Perm xs Permᴰ.nil ys e = (ys, e, Permᴰ.refl ys)
  gather-Perm xs (Permᴰ.cons {a = i} {l₁ = is} {l₂ = js} ij p) ys e =
      let (x, rest, found, done, eq) = gather-cons xs ys i is e in
      let (zs, e', q) = gather-Perm xs p rest done in
      (
        x ∷ zs,
        gather_cons xs zs _ js x (subst (λ k. get_elem? xs k ≡ some x) ij found) e',
        subst (λ l. Permᴰ l (x ∷ zs)) (sym eq) (Permᴰ.cons refl q),
      )
  gather-Perm xs (Permᴰ.swap {a = i} {b = j} {a' = i'} {b' = j'} {l = is} ij ji) ys e =
      let (x, rest, found, done, eq) = gather-cons xs ys i (j ∷ is) e in
      let (y, rest', found', done', eq') = gather-cons xs rest j is done in
      (
        y ∷ x ∷ rest',
        gather_cons xs (x ∷ rest') i' (j' ∷ is) y (subst (λ k. get_elem? xs k ≡ some y) ji found')
            (gather_cons xs rest' j' is x (subst (λ k. get_elem? xs k ≡ some x) ij found) done'),
        subst (λ l. Permᴰ l (y ∷ x ∷ rest')) (sym (eq ∙ ap (λ l. x ∷ l) eq'))
            (Permᴰ.swap refl refl),
      )
  gather-Perm xs (Permᴰ.trans p q) ys e =
      let (zs, e', r) = gather-Perm xs p ys e in
      let (ws, e'', s) = gather-Perm xs q zs e' in (ws, e'', Permᴰ.trans r s)

  get_elem?-append :
      (pre : List A) (x : A) (xs : List A) → get_elem? (pre ++ x ∷ xs) (length pre) ≡ some x
  get_elem?-append [] x xs = refl
  get_elem?-append (y ∷ pre) x xs = get_elem?-append pre x xs

  gather_from :
      (pre xs all : List A)
      → all ≡ pre ++ xs
      → (n : ℕ) → n ≡ length pre
      → gather all (range_up n (length xs)) ≡ some xs
  unfolding gather range_up
  gather_from pre [] all e n m = refl
  gather_from pre (x ∷ xs) all e n m =
      gather_cons all xs n _ x
        (subst (λ k. get_elem? all k ≡ some x) (sym m)
          (subst (λ l. get_elem? l (length pre) ≡ some x) (sym e) (get_elem?-append pre x xs)))
        (gather_from (pre ++ x ∷ []) xs all (e ∙ regroup pre) (n + 1) (grow pre n m))
    where
      regroup : (pre : List A) → pre ++ x ∷ xs ≡ (pre ++ x ∷ []) ++ xs
      regroup [] = refl
      regroup (y ∷ pre) = ap (λ l. y ∷ l) (regroup pre)

      grow : (pre : List A) (n : ℕ) → n ≡ length pre → n + 1 ≡ length (pre ++ x ∷ [])
      grow [] n m = omega (arith, m)
      grow (y ∷ pre) n m = omega (arith, grow pre (length pre) refl, m)

  pub gather_all : (xs : List A) → gather xs (range_up 0 (length xs)) ≡ some xs
  gather_all xs = gather_from [] xs xs refl 0 refl

  get_elem?-bound : (xs : List A) (i : ℕ) (x : A) → get_elem? xs i ≡ some x → i < length xs
  get_elem?-bound [] i x e = absurd (cc)
  get_elem?-bound (y ∷ xs) zero x e = omega arith
  get_elem?-bound (y ∷ xs) (suc i) x e = omega (arith, get_elem?-bound xs i x e)

  -- Every index of an order that works is in range.
  pub gather-All :
      (xs : List A) (order : List ℕ) (ys : List A)
      → gather xs order ≡ some ys
      → All (λ i. i < length xs) order
  gather-All xs [] ys e = tt
  gather-All xs (i ∷ order) ys e =
      let (x, rest, found, done, _) = gather-cons xs ys i order e in
      (get_elem?-bound xs i x found, gather-All xs order rest done)

  pub length-gather :
      (xs : List A) (order : List ℕ) (ys : List A)
      → gather xs order ≡ some ys
      → length ys ≡ length order
  unfolding gather
  length-gather xs [] ys e = ap length (sym (some-injective _ _ e))
  length-gather xs (i ∷ order) ys e =
      let (x, rest, found, done, eq) = gather-cons xs ys i order e in
      ap length eq ∙ ap suc (length-gather xs order rest done)

module _ {ℓ κ} {A : Type ℓ} {B : Type κ} where
  get_elem?-zip :
      (xs : List A) (ys : List B) (i : ℕ) (x : A) (y : B)
      → get_elem? xs i ≡ some x
      → get_elem? ys i ≡ some y
      → get_elem? (zip xs ys) i ≡ some (x, y)
  get_elem?-zip [] ys i x y e f = absurd (cc)
  get_elem?-zip (a ∷ xs) [] i x y e f = absurd (cc)
  get_elem?-zip (a ∷ xs) (b ∷ ys) zero x y e f =
      ap some (λ k. (some-injective _ _ e k, some-injective _ _ f k))
  get_elem?-zip (a ∷ xs) (b ∷ ys) (suc i) x y e f = get_elem?-zip xs ys i x y e f

  -- The rows are reordered with the columns.
  pub gather-zip :
      (xs : List A) (ys : List B) (order : List ℕ) (as' : List A) (bs : List B)
      → gather xs order ≡ some as'
      → gather ys order ≡ some bs
      → gather (zip xs ys) order ≡ some (zip as' bs)
  unfolding gather
  gather-zip xs ys [] as' bs e f =
      ap some (λ k. zip (some-injective _ _ e k) (some-injective _ _ f k))
  gather-zip xs ys (i ∷ order) as' bs e f =
      let (x, ra, fa, da, ea) = gather-cons xs as' i order e in
      let (y, rb, fb, db, eb) = gather-cons ys bs i order f in
      gather_cons (zip xs ys) (zip ra rb) i order (x, y) (get_elem?-zip xs ys i x y fa fb)
        (gather-zip xs ys order ra rb da db)
      ∙ ap some (λ k. zip (sym ea k) (sym eb k))

pub length-Permᴰ {ℓ} : {A : Type ℓ} {xs ys : List A} → Permᴰ xs ys → length xs ≡ length ys
length-Permᴰ Permᴰ.nil = refl
length-Permᴰ (Permᴰ.cons e p) = ap suc (length-Permᴰ p)
length-Permᴰ (Permᴰ.swap e f) = refl
length-Permᴰ (Permᴰ.trans p q) = length-Permᴰ p ∙ length-Permᴰ q

pub All-Permᴰ {ℓ κ} :
    {A : Type ℓ} (P : A → Type κ) {xs ys : List A} → Permᴰ xs ys → All P xs → All P ys
All-Permᴰ P Permᴰ.nil h = tt
All-Permᴰ P (Permᴰ.cons e p) h = (subst P e h.0, All-Permᴰ P p h.1)
All-Permᴰ P (Permᴰ.swap e f) h = (subst P f h.1.0, (subst P e h.0, h.1.1))
All-Permᴰ P (Permᴰ.trans p q) h = All-Permᴰ P q (All-Permᴰ P p h)

module _ {ℓ} {A : Type ℓ} (xs : List A) where
  -- An item that has been gathered stands where the order says, and the other way round.
  pub gather-from_item :
      (order : List ℕ) (ys : List A) (i : ℕ) (y : A)
      → gather xs order ≡ some ys
      → get_elem? ys i ≡ some y
      → (a : ℕ) × (get_elem? order i ≡ some a) × (get_elem? xs a ≡ some y)
  unfolding gather
  gather-from_item [] ys i y e f = absurd (
      let g : get_elem? [] i ≡ some y =
        subst (λ l. get_elem? l i ≡ some y) (sym (some-injective _ _ e)) f in
      cc)
  gather-from_item (a ∷ order) ys zero y e f =
      let (x, rest, found, done, eq) = gather-cons xs ys a order e in
      (a, refl, found ∙ subst (λ l. get_elem? l 0 ≡ some y) eq f)
  gather-from_item (a ∷ order) ys (suc i) y e f =
      let (x, rest, found, done, eq) = gather-cons xs ys a order e in
      gather-from_item order rest i y done (subst (λ l. get_elem? l (suc i) ≡ some y) eq f)

  pub gather-to_item :
      (order : List ℕ) (ys : List A) (i a : ℕ) (y : A)
      → gather xs order ≡ some ys
      → get_elem? order i ≡ some a
      → get_elem? xs a ≡ some y
      → get_elem? ys i ≡ some y
  unfolding gather
  gather-to_item [] ys i a y e f g = absurd (cc)
  gather-to_item (b ∷ order) ys zero a y e f g =
      let (x, rest, found, done, eq) = gather-cons xs ys b order e in
      subst (λ l. get_elem? l 0 ≡ some y) (sym eq)
        (sym found ∙ ap (get_elem? xs) (some-injective _ _ f) ∙ g)
  gather-to_item (b ∷ order) ys (suc i) a y e f g =
      let (x, rest, found, done, eq) = gather-cons xs ys b order e in
      subst (λ l. get_elem? l (suc i) ≡ some y) (sym eq) (gather-to_item order rest i a y done f g)

  -- Indices in range can be gathered.
  pub gather_total :
      (order : List ℕ)
      → All (λ i. i < length xs) order
      → (ys : List A) × (gather xs order ≡ some ys)
  unfolding gather
  gather_total [] h = ([], refl)
  gather_total (i ∷ order) h =
      let (rest, done) = gather_total order h.1 in
      let (x, found) = in_range xs i h.0 in (x ∷ rest, gather_cons xs rest i order x found done)
    where
      in_range : (l : List A) (i : ℕ) → i < length l → (x : A) × (get_elem? l i ≡ some x)
      in_range [] i lt = absurd (omega (arith, lt))
      in_range (x ∷ l) zero lt = (x, refl)
      in_range (x ∷ l) (suc i) lt = in_range l i (omega arith)

pub Memᴰ-Permᴰ {ℓ} : {A : Type ℓ} (a : A) {xs ys : List A} → Permᴰ xs ys → Memᴰ a xs → Memᴰ a ys
Memᴰ-Permᴰ a Permᴰ.nil m = m
Memᴰ-Permᴰ a (Permᴰ.cons e p) (Memᴰ.head q) = Memᴰ.head (q ∙ e)
Memᴰ-Permᴰ a (Permᴰ.cons e p) (Memᴰ.tail m) = Memᴰ.tail (Memᴰ-Permᴰ a p m)
Memᴰ-Permᴰ a (Permᴰ.swap e f) (Memᴰ.head q) = Memᴰ.tail (Memᴰ.head (q ∙ e))
Memᴰ-Permᴰ a (Permᴰ.swap e f) (Memᴰ.tail (Memᴰ.head q)) = Memᴰ.head (q ∙ f)
Memᴰ-Permᴰ a (Permᴰ.swap e f) (Memᴰ.tail (Memᴰ.tail m)) = Memᴰ.tail (Memᴰ.tail m)
Memᴰ-Permᴰ a (Permᴰ.trans p q) m = Memᴰ-Permᴰ a q (Memᴰ-Permᴰ a p m)
