-- ===== src/Base/Ratios.antt =====
-- Quotients of natural numbers, which stand for floats that are not rounded.
use Prim.Native.Nat.{ℕ, suc, ◌+◌, ◌*◌, ◌≤◌, ◌<◌}
use mathlib.Core.Path.{◌≡◌, refl}
use mathlib.Core.Bool.{Bool, true, false, ◌||◌}
use mathlib.Core.Option.{some}
use mathlib.Core.List.{List, [], ◌∷◌}
use zord.Base.Lists.{All, get_elem?}
use native.Mathlib.Omega.{arith}
use zord.Base.Tests.{ltb, scale-le, Bool-cases, if◌then◌else◌}
use mathlib.Core.Logic.{inl, inr}

pub record Ratio : Type 0 where
  pub num : ℕ
  pub den : ℕ

abbrev pub whole : ℕ → Ratio
whole n = record { num = n; den = 1 }

abbrev pub plus : Ratio → Ratio → Ratio
plus a b = record { num = a.num * b.den + b.num * a.den; den = a.den * b.den }

-- `a < b`
abbrev pub less : Ratio → Ratio → Bool
less a b = ltb (a.num * b.den) (b.num * a.den)

-- `max(a, b)`
abbrev pub greater : Ratio → Ratio → Ratio
greater a b = if less a b then b else a

abbrev pub AtMost : Ratio → Ratio → Type 0
AtMost a b = a.num * b.den ≤ b.num * a.den

pub less-AtMost : (a b : Ratio) → less a b ≡ true → AtMost a b
less-AtMost a b h = ground arith

pub not_less-AtMost : (a b : Ratio) → less a b ≡ false → AtMost b a
not_less-AtMost a b h = ground arith

pub AtMost-not_less : (a b : Ratio) → AtMost b a → less a b ≡ false
AtMost-not_less a b h = ground arith

pub AtMost-refl : (a : Ratio) → AtMost a a
AtMost-refl a = omega arith

pub cancel-le : (a b k : ℕ) → 0 < k → a * k ≤ b * k → a ≤ b
cancel-le a b k pos h = elim (Bool-cases (ltb b a)) [
  | inl less' ↦ absurd (let more = scale-le (suc b) a k (ground arith) in grind arith)
  | inr fine ↦ ground arith
]

pub AtMost-trans : (a b c : Ratio) → 0 < b.den → AtMost a b → AtMost b c → AtMost a c
AtMost-trans a b c pos h k =
    let left = scale-le (a.num * b.den) (b.num * a.den) c.den h in
    let right = scale-le (b.num * c.den) (c.num * b.den) a.den k in
    cancel-le (a.num * c.den) (c.num * a.den) b.den pos (grind arith)

pub AtMost-plus : (a b c d : Ratio) → AtMost a c → AtMost b d → AtMost (plus a b) (plus c d)
AtMost-plus a b c d h k =
    let left = scale-le (a.num * c.den) (c.num * a.den) (b.den * d.den) h in
    let right = scale-le (b.num * d.den) (d.num * b.den) (a.den * c.den) k in grind arith

pub AtMost-greater_left : (a b : Ratio) → AtMost a (greater a b)
AtMost-greater_left a b = ground arith

pub AtMost-greater_right : (a b : Ratio) → AtMost b (greater a b)
AtMost-greater_right a b = ground arith

-- `np.argmax`: the first of the greatest.
abbrev pub exceeded : Ratio → List Ratio → Bool
exceeded x [] = false
exceeded x (y ∷ ys) = less x y || exceeded x ys

abbrev pub bottleneck_of : List Ratio → ℕ
bottleneck_of [] = 0
bottleneck_of (x ∷ xs) = let rest = bottleneck_of xs in if exceeded x xs then suc rest else 0

exceeded-AtMost :
    (x m : Ratio) (xs : List Ratio)
    → exceeded x xs ≡ true
    → All (λ y. 0 < y.den) xs
    → All (λ y. AtMost y m) xs
    → AtMost x m
exceeded-AtMost x m [] e pos h = absurd (cc)
exceeded-AtMost x m (y ∷ ys) e pos h = elim (Bool-cases (less x y)) [
  | inl k ↦ AtMost-trans x y m pos.0 (less-AtMost x y k) h.0
  | inr k ↦ exceeded-AtMost x m ys (rw k at e) pos.1 h.1
]

not_exceeded-AtMost :
    (x : Ratio) (xs : List Ratio) → exceeded x xs ≡ false → All (λ y. AtMost y x) xs
not_exceeded-AtMost x [] e = tt
not_exceeded-AtMost x (y ∷ ys) e = elim (Bool-cases (less x y)) [
  | inl k ↦ absurd (let q = rw k at e in cc)
  | inr k ↦ (not_less-AtMost x y k, not_exceeded-AtMost x ys (rw k at e))
]

pub bottleneck_of-AtMost :
    (x : Ratio) (xs : List Ratio)
    → All (λ y. 0 < y.den) (x ∷ xs)
    → (m : Ratio) × (get_elem? (x ∷ xs) (bottleneck_of (x ∷ xs)) ≡ some m)
      × All (λ y. AtMost y m) (x ∷ xs)
bottleneck_of-AtMost x [] pos = (x, refl, (AtMost-refl x, tt))
bottleneck_of-AtMost x (y ∷ ys) pos = elim (Bool-cases (exceeded x (y ∷ ys))) [
  | inl e ↦
      let (m, at, most) = bottleneck_of-AtMost y ys pos.1 in
      (m, rw e at, (exceeded-AtMost x m (y ∷ ys) e pos.1 most, most))
  | inr e ↦ (x, rw e refl, (AtMost-refl x, not_exceeded-AtMost x (y ∷ ys) e))
]
