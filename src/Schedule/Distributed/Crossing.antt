-- ===== src/Schedule/Distributed/Crossing.antt =====
-- src/zord/schedule/distributed.py: the rows of the pairs of ranks that differ.
use zord.Base.{
  ℕ, zero, suc, ◌+◌, ◌*◌, ◌≡◌, ◌≢◌, refl, sym, ap, ◌∙◌, List, [], ◌∷◌, Option, none, some,
  some-injective, get_elem?, arith, inl, inr, Bool-cases, false, ◌==◌,
}
use zord.Schedule.Distributed.{crossing}
use mathlib.Core.List.{Memᴰ}
use zord.Schedule.Distributed.Members.{uncons}

-- The `i`-th pair of vertices.
pub record Crosses (ras rbs : List (Option ℕ)) (bs : List ℕ) (r s b : ℕ) : Type 0 where
  pub index : ℕ
  pub receiver : get_elem? ras index ≡ some (some r)
  pub sender : get_elem? rbs index ≡ some (some s)
  pub vertex : get_elem? bs index ≡ some b

-- Each pair of ranks that differ is a row,
pub crossing-complete :
    (n r s b : ℕ) (ras rbs : List (Option ℕ)) (bs : List ℕ) (i : ℕ)
    → get_elem? ras i ≡ some (some r)
    → get_elem? rbs i ≡ some (some s)
    → get_elem? bs i ≡ some b
    → r ≢ s
    → Memᴰ (r * n + b, s) (crossing n ras rbs bs)
unfolding crossing
crossing-complete n r s b [] rbs bs i e f g ne = absurd (cc)
crossing-complete n r s b (a ∷ ras) [] bs i e f g ne = absurd (cc)
crossing-complete n r s b (a ∷ ras) (c ∷ rbs) [] i e f g ne = absurd (cc)
crossing-complete n r s b (none ∷ ras) (c ∷ rbs) (d ∷ bs) zero e f g ne = absurd (cc)
crossing-complete n r s b (some a ∷ ras) (none ∷ rbs) (d ∷ bs) zero e f g ne = absurd (cc)
crossing-complete n r s b (some a ∷ ras) (some c ∷ rbs) (d ∷ bs) zero e f g ne =
    let ea : a ≡ r = some-injective _ _ (some-injective _ _ e) in
    let ec : c ≡ s = some-injective _ _ (some-injective _ _ f) in
    let ed : d ≡ b = some-injective _ _ g in
    let differ : (a == c) ≡ false = ground arith in
    rw differ (Memᴰ.head (λ k. (sym ea k * n + sym ed k, sym ec k)))
crossing-complete n r s b (none ∷ ras) (c ∷ rbs) (d ∷ bs) (suc i) e f g ne =
    crossing-complete n r s b ras rbs bs i e f g ne
crossing-complete n r s b (some a ∷ ras) (none ∷ rbs) (d ∷ bs) (suc i) e f g ne =
    crossing-complete n r s b ras rbs bs i e f g ne
crossing-complete n r s b (some a ∷ ras) (some c ∷ rbs) (d ∷ bs) (suc i) e f g ne =
    let ih = crossing-complete n r s b ras rbs bs i e f g ne in
    elim (Bool-cases (a == c)) [ inl same ↦ rw same ih | inr differ ↦ rw differ (Memᴰ.tail ih) ]

-- and each row is such a pair.
pub record Needed (n : ℕ) (ras rbs : List (Option ℕ)) (bs : List ℕ) (row : ℕ × ℕ) : Type 0 where
  pub to : ℕ
  pub vertex : ℕ
  pub pair : Crosses ras rbs bs to row.1 vertex
  pub key : row.0 ≡ to * n + vertex
  pub apart : to ≢ row.1

later :
    (n : ℕ) (a c : Option ℕ) (d : ℕ) (ras rbs : List (Option ℕ)) (bs : List ℕ) (row : ℕ × ℕ)
    → Needed n ras rbs bs row
    → Needed n (a ∷ ras) (c ∷ rbs) (d ∷ bs) row
later n a c d ras rbs bs row w = record {
  to = w.to;
  vertex = w.vertex;
  pair = record {
    index = suc w.pair.index;
    receiver = w.pair.receiver;
    sender = w.pair.sender;
    vertex = w.pair.vertex;
  };
  key = w.key;
  apart = w.apart;
}

pub crossing_sound :
    (n : ℕ) (ras rbs : List (Option ℕ)) (bs : List ℕ)
    → (row : ℕ × ℕ) → Memᴰ row (crossing n ras rbs bs)
    → Needed n ras rbs bs row
unfolding crossing
crossing_sound n [] rbs bs row m = elim m [ ]
crossing_sound n (none ∷ ras) [] bs row m = elim m [ ]
crossing_sound n (some a ∷ ras) [] bs row m = elim m [ ]
crossing_sound n (none ∷ ras) (c ∷ rbs) [] row m = elim m [ ]
crossing_sound n (some a ∷ ras) (none ∷ rbs) [] row m = elim m [ ]
crossing_sound n (some a ∷ ras) (some c ∷ rbs) [] row m = elim m [ ]
crossing_sound n (none ∷ ras) (c ∷ rbs) (d ∷ bs) row m =
    later n none c d ras rbs bs row (crossing_sound n ras rbs bs row m)
crossing_sound n (some a ∷ ras) (none ∷ rbs) (d ∷ bs) row m =
    later n (some a) none d ras rbs bs row (crossing_sound n ras rbs bs row m)
crossing_sound n (some a ∷ ras) (some c ∷ rbs) (d ∷ bs) row m = elim (Bool-cases (a == c)) [
  | inl same ↦
      later n (some a) (some c) d ras rbs bs row
        (crossing_sound n ras rbs bs row (rw (same, crossing) at m))
  | inr differ ↦ elim (uncons (rw (differ, crossing) at m)) [
    | inr m' ↦ later n (some a) (some c) d ras rbs bs row (crossing_sound n ras rbs bs row m')
    | inl q ↦ first q (ground arith)
  ]
]
  where
    first : row ≡ (a * n + d, c) → a ≢ c → Needed n (some a ∷ ras) (some c ∷ rbs) (d ∷ bs) row
    first q ne = record {
      to = a;
      vertex = d;
      pair = record {
        index = 0;
        receiver = refl;
        sender = ap (λ p. some (some p.1)) (sym q);
        vertex = refl;
      };
      key = ap (λ p. p.0) q;
      apart = λ e. ne (e ∙ ap (λ p. p.1) q);
    }
