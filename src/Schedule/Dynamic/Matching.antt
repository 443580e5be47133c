-- ===== src/Schedule/Dynamic/Matching.antt =====
-- src/zord/schedule/dynamic.py: on at most six devices, the matched labels are a permutation of the
-- labels, under which no more vertices change their device than before.
use zord.Base.{
  All-map, ℕ, zero, suc, ◌+◌, ◌≤◌, ◌<◌, ◌≡◌, refl, sym, ap, subst, ◌∙◌, some, some-injective, List,
  [], ◌∷◌, length, get_elem?, All, arith, inl, inr, ◌⊎◌, Bool-cases, ◌==◌, if◌then◌else◌, ltb,
  le→leb, min,
}
use zord.Base.Rows.{All-take, take}
use zord.Base.Members.{All-Memᴰ}
use zord.Base.Ranges.{range_up, length-range_up}
use zord.Datasets.Numpy.{gather}
use zord.Datasets.Numpy.Gather.{length-Permᴰ, gather_total, gather-cons, gather_cons, length-gather}
use zord.Schedule.Dynamic.Migration.{
  changed, permutations_of, best_of, remap_of, migration_match, exact_match_max_dev,
}
use mathlib.Core.List.{Permᴰ, Memᴰ}
use mathlib.Core.List.Permᴰ as Perms
use zord.Schedule.Dynamic.Relabelings.{
  permutations_of-Permᴰ, permutations_of-first, permutations_of-complete,
}
use native.Mathlib.Bridge.{le_prop}

get-range_up : (i n k : ℕ) → k < n → get_elem? (range_up i n) k ≡ some (i + k)
unfolding range_up
get-range_up i zero k lt = absurd (omega (arith, lt))
get-range_up i (suc n) zero lt = ap some (omega arith)
get-range_up i (suc n) (suc k) lt =
    let same : i + 1 + k ≡ i + suc k = omega arith in
    get-range_up (i + 1) n k (omega (arith, lt)) ∙ ap some same

-- The identity keeps the labels.
gather-range_up : (p : ℕ) (xs : List ℕ) → All (λ x. x < p) xs → gather (range_up 0 p) xs ≡ some xs
unfolding gather
gather-range_up p [] h = refl
gather-range_up p (x ∷ xs) h =
    let same : 0 + x ≡ x = omega arith in
    gather_cons (range_up 0 p) xs x xs x (get-range_up 0 p x h.0 ∙ ap some same)
      (gather-range_up p xs h.1)

gather-take :
    (k : ℕ) (xs order ys : List ℕ)
    → gather xs order ≡ some ys
    → gather xs (take k order) ≡ some (take k ys)
unfolding gather
gather-take zero xs order ys e = refl
gather-take (suc k) xs [] ys e = ap (λ l. some (take (suc k) l)) (some-injective _ _ e)
gather-take (suc k) xs (i ∷ order) ys e =
    let (x, rest, found, done, eq) = gather-cons xs ys i order e in
    gather_cons xs (take k rest) i (take k order) x found (gather-take k xs order rest done)
    ∙ ap (λ l. some (take (suc k) l)) (sym eq)

changed-le : (a c : List ℕ) → changed a c ≤ length a
unfolding changed
changed-le [] c = omega arith
changed-le (x ∷ a) [] = omega arith
changed-le (x ∷ a) (y ∷ c) = ground (arith, changed-le a c)

changed-take :
    (k : ℕ) (a b : List ℕ)
    → min (length a) (length b) ≤ k
    → changed (take k a) (take k b) ≡ changed a b
unfolding changed
changed-take zero [] b h = refl
changed-take zero (x ∷ a) [] h = refl
changed-take zero (x ∷ a) (y ∷ b) h = absurd (omega (arith, h))
changed-take (suc k) [] b h = refl
changed-take (suc k) (x ∷ a) [] h = refl
changed-take (suc k) (x ∷ a) (y ∷ b) h =
    ap (λ n. (if x == y then 0 else 1) + n) (changed-take k a b (omega (arith, h)))

changed-nothing : (a b : List ℕ) → min (length a) (length b) ≤ 0 → changed a b ≡ 0
unfolding changed
changed-nothing [] b h = refl
changed-nothing (x ∷ a) [] h = refl
changed-nothing (x ∷ a) (y ∷ b) h = absurd (omega (arith, h))

-- The loop returns one of the permutations, with no more changes than any other.
best_of-least :
    (a b : List ℕ) (count : ℕ) (best : List ℕ) (perms : List (List ℕ)) (c0 : List ℕ)
    → All (λ q. All (λ i. i < length q) b) perms
    → gather best b ≡ some c0
    → changed a c0 ≤ count
    → (p : List ℕ) × (c : List ℕ) × (best_of a b count best perms ≡ some p)
      × ((p ≡ best) ⊎ Memᴰ p perms)
      × (gather p b ≡ some c)
      × (changed a c ≤ count)
      × All (λ q. (e : List ℕ) → gather q b ≡ some e → changed a c ≤ changed a e) perms
unfolding best_of
best_of-least a b count best [] c0 h got le = (best, c0, refl, inl refl, got, le, tt)
best_of-least a b count best (q ∷ perms) c0 h got le =
    let (cq, got_q) = gather_total q b h.0 in
    elim (Bool-cases (ltb (changed a cq) count)) [
      | inl less ↦
          let (p, c, done, from, got_p, le_p, least) =
            best_of-least a b (changed a cq) q perms cq h.1 got_q (omega arith) in
          (
            p,
            c,
            rw (got_q, less) done,
            inr (elim from [ inl same ↦ Memᴰ.head same | inr m ↦ Memᴰ.tail m ]),
            got_p,
            ground arith,
            (
              (λ e got_e.
                  (let same = some-injective _ _ (sym got_q ∙ got_e) in
                    subst (λ l. changed a c ≤ changed a l) same le_p)),
              least,
            ),
          )
      | inr more ↦
          let (p, c, done, from, got_p, le_p, least) =
            best_of-least a b count best perms c0 h.1 got le in
          let le_q : changed a c ≤ changed a cq = ground arith in
          (
            p,
            c,
            rw (got_q, more) done,
            elim from [ inl same ↦ inl same | inr m ↦ inr (Memᴰ.tail m) ],
            got_p,
            le_p,
            (
              (λ e got_e.
                  (let same = some-injective _ _ (sym got_q ∙ got_e) in
                    subst (λ l. changed a c ≤ changed a l) same le_q)),
              least,
            ),
          )
    ]

abbrev NoBetter : List ℕ → List ℕ → List ℕ → List ℕ → Type 0
NoBetter a b c q = (e : List ℕ) → gather q b ≡ some e → changed a c ≤ changed a e

NoBetter-prop : (a b c q : List ℕ) → IsProp (NoBetter a b c q)
NoBetter-prop a b c q = hlevel (le_prop {n = changed a c})

-- The chosen relabelling, on the labels of the vertices in both batches.
remap_of-least :
    (p : ℕ) (a b : List ℕ)
    → p ≤ exact_match_max_dev
    → All (λ x. x < p) b
    → (remap : List ℕ) × (c : List ℕ) × (remap_of p a b ≡ some remap)
      × Permᴰ (range_up 0 p) remap
      × (gather remap b ≡ some c)
      × (changed a c ≤ changed a b)
      × ((q e : List ℕ) → Permᴰ (range_up 0 p) q → gather q b ≡ some e → changed a c ≤ changed a e)
unfolding remap_of
remap_of-least p a b few h =
    let labels = range_up 0 p in
    let count = length-range_up 0 p in
    let perms = permutations_of p labels in
    let all_perms = permutations_of-Permᴰ p labels count in
    let fits =
      All-map (Permᴰ labels) (λ q. All (λ i. i < length q) b)
        (λ q perm. subst (λ n. All (λ i. i < n) b) (sym count ∙ length-Permᴰ perm) h) perms
        all_perms in
    let same = gather-range_up p b h in
    let (ps, first) = permutations_of-first p labels count in
    let (remap, c, done, from, got, le, least) =
      best_of-least a b (length a) labels perms b fits same (changed-le a b) in
    let least' =
      subst (All (λ q. (e : List ℕ) → gather q b ≡ some e → changed a c ≤ changed a e)) first
        least in
    (
      remap,
      c,
      rw (le→leb p exact_match_max_dev few) done,
      elim from [
        | inl id ↦ subst (Permᴰ labels) (sym id) (Perms.refl labels)
        | inr m ↦ All-Memᴰ (Permᴰ labels) perms remap all_perms m
      ],
      got,
      least'.0 b same,
      λ q e perm got_q.
          permutations_of-complete p labels q (NoBetter a b c) (NoBetter-prop a b c) count perm
            least e got_q,
    )

-- On at most six devices, and with the labels of the new assignment in range, the matching applies a
-- permutation of the labels, and counts the vertices that change their device then: no more than
-- under the labels as they were, and no more than under any other permutation of the labels.
pub migration_match-Relabels :
    (prev cur : List ℕ) (p : ℕ)
    → p ≤ exact_match_max_dev
    → All (λ x. x < p) cur
    → (moved : ℕ) × (remapped : List ℕ) × (remap : List ℕ) × (migration_match (some prev) cur p
        ≡ some (moved, remapped))
      × Permᴰ (range_up 0 p) remap
      × (gather remap cur ≡ some remapped)
      × (moved ≡ changed prev remapped)
      × (moved ≤ changed prev cur)
      × ((q e : List ℕ) → Permᴰ (range_up 0 p) q → gather q cur ≡ some e → moved ≤ changed prev e)
unfolding migration_match
migration_match-Relabels prev cur p few h =
    let k = min (length prev) (length cur) in
    let common = changed-take k prev cur (omega arith) in
    elim (Bool-cases (k == 0)) [
      | inl nothing ↦
          let none_changed = changed-nothing prev cur (ground arith) in
          (
            0,
            cur,
            range_up 0 p,
            rw nothing refl,
            Perms.refl (range_up 0 p),
            gather-range_up p cur h,
            sym none_changed,
            omega arith,
            λ q e perm got. omega arith,
          )
      | inr some_common ↦
          let (remap, c, done, perm, got, le, least) =
            remap_of-least p (take k prev) (take k cur) few (All-take (λ x. x < p) k cur h) in
          let len = sym (length-range_up 0 p) ∙ length-Permᴰ perm in
          let (remapped, got_all) =
            gather_total remap cur (subst (λ n. All (λ x. x < n) cur) len h) in
          let same : c ≡ take k remapped =
            some-injective _ _ (sym got ∙ gather-take k remap cur remapped got_all) in
          let as_long = length-gather remap cur remapped got_all in
          let whole = changed-take k prev remapped (omega (arith, as_long)) in
          (
            changed (take k prev) (take k remapped),
            remapped,
            remap,
            rw (some_common, done, got_all) refl,
            perm,
            got_all,
            whole,
            omega (
              arith,
              subst (λ l. changed (take k prev) l ≤ changed (take k prev) (take k cur)) same le,
              common,
            ),
            λ q e perm' got'.
                (let cut = gather-take k q cur e got' in
                  let within = changed-take k prev e (omega (arith, length-gather q cur e got')) in
                  let best = least q (take k e) perm' cut in
                  omega (
                    arith,
                    subst (λ l. changed (take k prev) l ≤ changed (take k prev) (take k e)) same
                        best,
                    within,
                  )),
          )
    ]
