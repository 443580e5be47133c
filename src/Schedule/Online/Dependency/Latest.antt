-- ===== src/Schedule/Online/Dependency/Latest.antt =====
-- src/zord/schedule/dynamic_online.py: the ear of an event is the latest event before it with which it
-- shares a vertex, and its depth is one more than that of its ear.
use zord.Base.{
  get-get_or, ℕ, zero, suc, ◌+◌, ◌≡◌, refl, sym, ap, subst, ◌∙◌, Option, none, some, some-injective,
  List, [], ◌∷◌, ◌++◌, length, length-append, get_elem?, get_or, arith, inl, inr, ◌⊎◌, Bool-cases,
  ◌==◌, if◌then◌else◌, ==_iff,
}
use zord.Base.Dict.{get, put, get-put}
use zord.Datasets.Unique.{Unique}
use zord.Schedule.Online.Dependency.{later, depth_after, pass, by_pass}
use zord.Schedule.Online.Dependency.Last.{Touches, Last, Seen, Last-now, Last-not, Last-later}

get-append_front :
    (l rest : List ℕ) (m d : ℕ) → get_elem? l m ≡ some d → get_elem? (l ++ rest) m ≡ some d
get-append_front [] rest m d e = absurd (cc)
get-append_front (x ∷ l) rest zero d e = e
get-append_front (x ∷ l) rest (suc m) d e = get-append_front l rest m d e

get-append_next : (l : List ℕ) (x : ℕ) → get_elem? (l ++ (x ∷ [])) (length l) ≡ some x
get-append_next [] x = refl
get-append_next (y ∷ l) x = get-append_next l x

get_or-get : (xs : List ℕ) (i d : ℕ) → get_elem? xs i ≡ some d → get_or xs i 0 ≡ d
get_or-get [] i d e = absurd (cc)
get_or-get (x ∷ xs) zero d e = some-injective _ _ e
get_or-get (x ∷ xs) (suc i) d e = get_or-get xs i d e

depth_after-same :
    (P : ℕ → Type 0) (depth depths : List ℕ) (o : Option ℕ)
    → ((j d : ℕ) → get_elem? depth j ≡ some d → get_elem? depths j ≡ some d)
    → Last P (length depth) o
    → depth_after depth o ≡ depth_after depths o
unfolding depth_after
depth_after-same P depth depths none h last = refl
depth_after-same P depth depths (some k) h last =
    ap (λ m. m + 1)
      (sym (
        get_or-get depths k (get_or depth k 0)
          (h k (get_or depth k 0) (get-get_or depth k 0 last.0))))

module _ (us vs : List ℕ) where
  Seen-put :
      (i u v : ℕ) (seen : List (ℕ × ℕ))
      → get_elem? us i ≡ some u
      → get_elem? vs i ≡ some v
      → Seen us vs i seen
      → Seen us vs (i + 1) (put v i (put u i seen))
  Seen-put i u v seen at_u at_v h w =
      let P = λ (k : ℕ). Touches us vs k w in
      let found : get w (put v i (put u i seen))
          ≡ (if v == w then some i else if u == w then some i else get w seen) =
        get-put v w i (put u i seen)
        ∙ ap (λ o. if v == w then some i else o) (get-put u w i seen) in
      subst (Last P (i + 1)) (sym found) (elim (Bool-cases (v == w)) [
        | inl same ↦ rw same (Last-now P i (inr (at_v ∙ ap some ((==_iff v w).0 same))))
        | inr other ↦ elim (Bool-cases (u == w)) [
          | inl same ↦ rw (other, same) (Last-now P i (inl (at_u ∙ ap some ((==_iff u w).0 same))))
          | inr neither ↦
              rw (other, neither)
                (Last-not P i (get w seen)
                  (λ t. elim t [
                    | inl a ↦
                        let q : u ≡ w = some-injective _ _ (sym at_u ∙ a) in
                        let r = (==_iff u w).1 q in cc
                    | inr b ↦
                        let q : v ≡ w = some-injective _ _ (sym at_v ∙ b) in
                        let r = (==_iff v w).1 q in cc
                  ])
                  (h w))
        ]
      ])

  abbrev Runs : ℕ → List ℕ → List ℕ → Type 0
  Runs i ns us' = (k x : ℕ) → get_elem? ns k ≡ some x → get_elem? us' (i + k) ≡ some x

  Runs-tail : (i x : ℕ) (ns us' : List ℕ) → Runs i (x ∷ ns) us' → Runs (i + 1) ns us'
  Runs-tail i x ns us' h k y e =
      let same : i + suc k ≡ i + 1 + k = omega arith in
      subst (λ m. get_elem? us' m ≡ some y) same (h (suc k) y e)

  Runs-here : (i x : ℕ) (ns us' : List ℕ) → Runs i (x ∷ ns) us' → get_elem? us' i ≡ some x
  Runs-here i x ns us' h =
      let same : i + 0 ≡ i = omega arith in subst (λ m. get_elem? us' m ≡ some x) same (h 0 x refl)

  pass-keeps :
      (i : ℕ) (ns nd : List ℕ) (seen : List (ℕ × ℕ)) (depth : List ℕ) (j d : ℕ)
      → get_elem? depth j ≡ some d
      → get_elem? (pass i ns nd seen depth).1 j ≡ some d
  unfolding pass
  pass-keeps i [] nd seen depth j d e = e
  pass-keeps i (u ∷ ns) [] seen depth j d e = e
  pass-keeps i (u ∷ ns) (v ∷ nd) seen depth j d e =
      let p = later (get u seen) (get v seen) in
      pass-keeps (i + 1) ns nd (put v i (put u i seen)) (depth ++ (depth_after depth p ∷ [])) j d
        (get-append_front depth (depth_after depth p ∷ []) j d e)

  -- What the pass says of an event: its latest predecessor, and a depth after it.
  abbrev Follows : ℕ → Option ℕ → List ℕ → Type 0
  Follows i o depths =
      (u : ℕ) × (v : ℕ) × (get_elem? us i ≡ some u)
      × (get_elem? vs i ≡ some v)
      × Last (λ k. Touches us vs k u ⊎ Touches us vs k v) i o
      × (get_elem? depths i ≡ some (depth_after depths o))

  pass-Follows :
      (i : ℕ) (ns nd : List ℕ) (seen : List (ℕ × ℕ)) (depth : List ℕ)
      → Runs i ns us
      → Runs i nd vs
      → Seen us vs i seen
      → length depth ≡ i
      → (j : ℕ) (o : Option ℕ) → get_elem? (pass i ns nd seen depth).0 j ≡ some o
      → Follows (i + j) o (pass i ns nd seen depth).1
  unfolding pass
  pass-Follows i [] nd seen depth ru rv h len j o e = absurd (cc)
  pass-Follows i (u ∷ ns) [] seen depth ru rv h len j o e = absurd (cc)
  pass-Follows i (u ∷ ns) (v ∷ nd) seen depth ru rv h len zero o e =
      let at_u = Runs-here i u ns us ru in
      let at_v = Runs-here i v nd vs rv in
      let p = later (get u seen) (get v seen) in
      let last =
        Last-later (λ k. Touches us vs k u) (λ k. Touches us vs k v) i (get u seen) (get v seen)
          (h u) (h v) in
      let seen' = put v i (put u i seen) in
      let added = depth_after depth p ∷ [] in
      let depths = (pass (i + 1) ns nd seen' (depth ++ added)).1 in
      let is_o : p ≡ o = some-injective _ _ e in
      let kept = λ (m d : ℕ) (f : get_elem? depth m ≡ some d).
        pass-keeps (i + 1) ns nd seen' (depth ++ added) m d (get-append_front depth added m d f) in
      let same =
        depth_after-same (λ k. Touches us vs k u ⊎ Touches us vs k v) depth depths p kept
          (subst (λ m. Last (λ k. Touches us vs k u ⊎ Touches us vs k v) m p) (sym len) last) in
      let at_i =
        subst (λ m. get_elem? depths m ≡ some (depth_after depth p)) len
          (pass-keeps (i + 1) ns nd seen' (depth ++ added) (length depth) (depth_after depth p)
            (get-append_next depth (depth_after depth p))) in
      let here : i ≡ i + 0 = omega arith in
      subst (λ m. Follows m o depths) here
        (subst (λ q. Follows i q depths) is_o (u, v, at_u, at_v, last, at_i ∙ ap some same))
  pass-Follows i (u ∷ ns) (v ∷ nd) seen depth ru rv h len (suc j) o e =
      let same : i + 1 + j ≡ i + suc j = omega arith in
      let p = later (get u seen) (get v seen) in
      let depth' = depth ++ (depth_after depth p ∷ []) in
      let ih =
        pass-Follows (i + 1) ns nd (put v i (put u i seen)) depth' (Runs-tail i u ns us ru)
          (Runs-tail i v nd vs rv)
          (Seen-put i u v seen (Runs-here i u ns us ru) (Runs-here i v nd vs rv) h)
          (length-append depth (depth_after depth p ∷ []) ∙ ap (λ n. n + 1) len) j o e in
      subst (λ m. Follows m o (pass (i + 1) ns nd (put v i (put u i seen)) depth').1) same ih

pass-length :
    (i : ℕ) (ns nd : List ℕ) (seen : List (ℕ × ℕ)) (depth : List ℕ)
    → length nd ≡ length ns
    → length (pass i ns nd seen depth).0 ≡ length ns
unfolding pass
pass-length i [] nd seen depth e = refl
pass-length i (u ∷ ns) [] seen depth e = absurd (omega (arith, e))
pass-length i (u ∷ ns) (v ∷ nd) seen depth e = ap suc (
    pass-length (i + 1) ns nd (put v i (put u i seen))
      (depth ++ (depth_after depth (later (get u seen) (get v seen)) ∷ [])) (omega (arith, e)))

-- The pass gives each new event an ear: the latest of the new events before it with which it shares
-- a vertex, or none where there is none. Its depth is 0, or one more than that of its ear.
pub by_pass-Follows :
    (un : Unique) (ns nd : List ℕ)
    → length nd ≡ length ns
    → (length (by_pass un ns nd).ear ≡ length ns)
      × ((i : ℕ) (o : Option ℕ)
          → get_elem? (by_pass un ns nd).ear i ≡ some o
          → (u : ℕ) × (v : ℕ) × (get_elem? ns i ≡ some u)
            × (get_elem? nd i ≡ some v)
            × Last (λ k. Touches ns nd k u ⊎ Touches ns nd k v) i o
            × (get_elem? (by_pass un ns nd).depth i
                ≡ some (depth_after (by_pass un ns nd).depth o)))
unfolding by_pass
by_pass-Follows un ns nd same = (
  pass-length 0 ns nd [] [] same,
  λ i o e.
      let shift : 0 + i ≡ i = omega arith in
      subst (λ m. Follows ns nd m o (pass 0 ns nd [] []).1) shift
        (pass-Follows ns nd 0 ns nd [] []
          (λ k x f. (let r : k ≡ 0 + k = omega arith in subst (λ m. get_elem? ns m ≡ some x) r f))
          (λ k x f. (let r : k ≡ 0 + k = omega arith in subst (λ m. get_elem? nd m ≡ some x) r f))
          (λ v. nothing_seen ns nd v) refl i o e),
)
  where
    nothing_seen : (us vs : List ℕ) (v : ℕ) → Last (λ k. Touches us vs k v) 0 (get v [])
    nothing_seen us vs v = λ k lt. absurd (omega (arith, lt))
