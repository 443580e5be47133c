-- ===== src/Schedule/Distributed/Halo.antt =====
-- src/zord/schedule/distributed.py: the halo holds each remote row that a rank needs, once.
use zord.Base.{
  ℕ, suc, ◌+◌, ◌*◌, ◌<◌, ◌≡◌, ◌≢◌, refl, sym, ap, ◌∙◌, subst, List, [], ◌∷◌, ◌++◌, Option, none,
  some, some-injective, length, get_elem?, All, All-append, inl, inr,
}
use zord.Base.Options.{bind-some}
use zord.Base.Ranges.{range_up}
use zord.Base.Rows.{zip}
use zord.Datasets.Numpy.{Numpy, Sorted, gather}
use zord.Datasets.Numpy.Gather.{
  gather-Perm, gather_all, gather-zip, gather-from_item, gather-to_item, gather_total, Memᴰ-Permᴰ,
}
use zord.Schedule.Distributed.{crossing, firsts, seconds, keep, halo}
use mathlib.Core.List.{Permᴰ, Memᴰ}
use mathlib.Core.List.Permᴰ
use zord.Schedule.Distributed.Members.{zip_parts}
use zord.Schedule.Distributed.Crossing.{crossing-complete, crossing_sound}
use zord.Schedule.Distributed.Keep.{Above, keep-Above, keep-sub, keep_complete}

-- The rank `to` holds the vertex `near`, which an edge joins to `vertex` of the rank `row.1`.
pub record Received (n : ℕ) (assignment : List (Option ℕ)) (src dst : List ℕ) (row : ℕ × ℕ)
    : Type 0 where
  pub to : ℕ
  pub vertex : ℕ
  pub index : ℕ
  pub near : ℕ
  pub at_near : get_elem? (src ++ dst) index ≡ some near
  pub at_vertex : get_elem? (dst ++ src) index ≡ some vertex
  pub receives : get_elem? assignment near ≡ some (some to)
  pub sends : get_elem? assignment vertex ≡ some (some row.1)
  pub key : row.0 ≡ to * n + vertex
  pub apart : to ≢ row.1

module _ (np : Numpy) (n : ℕ) (assignment : List (Option ℕ)) (src dst : List ℕ) where
  -- What `halo` computes, step by step.
  pub record Steps (rows : List (ℕ × ℕ)) : Type 0 where
    pub ra : List (Option ℕ)
    pub rb : List (Option ℕ)
    pub key_s : List ℕ
    pub rs_s : List ℕ
    pub ra_done : gather assignment (src ++ dst) ≡ some ra
    pub rb_done : gather assignment (dst ++ src) ≡ some rb
    pub sorted : Sorted key_s
    pub same_rows : Permᴰ (crossing n ra rb (dst ++ src)) (zip key_s rs_s)
    pub kept : rows ≡ keep none key_s rs_s

  pub halo-steps : (rows : List (ℕ × ℕ)) → halo np n assignment src dst ≡ some rows → Steps rows
  unfolding halo
  halo-steps rows e =
      let (ra, ra_done, e1) = bind-some (gather assignment (src ++ dst)) _ rows e in
      let (rb, rb_done, e2) = bind-some (gather assignment (dst ++ src)) _ rows e1 in
      let cs = crossing n ra rb (dst ++ src) in
      let order = np.argsort (firsts cs) in
      let (key_s, k_done, e3) = bind-some (gather (firsts cs) order) _ rows e2 in
      let (rs_s, s_done, e4) = bind-some (gather (seconds cs) order) _ rows e3 in
      record {
        ra = ra;
        rb = rb;
        key_s = key_s;
        rs_s = rs_s;
        ra_done = ra_done;
        rb_done = rb_done;
        sorted = np.argsort_sorts (firsts cs) key_s k_done;
        same_rows = permuted cs order key_s rs_s (np.argsort_perm (firsts cs)) k_done s_done;
        kept = sym (some-injective _ _ e4);
      }
    where
      length_firsts : (ps : List (ℕ × ℕ)) → length (firsts ps) ≡ length ps
      length_firsts [] = refl
      length_firsts (p ∷ ps) = ap suc (length_firsts ps)

      permuted :
          (cs : List (ℕ × ℕ)) (order ks ss : List ℕ)
          → Permᴰ (range_up 0 (length (firsts cs))) order
          → gather (firsts cs) order ≡ some ks
          → gather (seconds cs) order ≡ some ss
          → Permᴰ cs (zip ks ss)
      permuted cs order ks ss p f g =
          let whole =
            subst (λ m. gather cs (range_up 0 m) ≡ some cs) (sym (length_firsts cs))
              (gather_all cs) in
          let (zs, done, q) = gather-Perm cs p cs whole in
          let rows = gather-zip (firsts cs) (seconds cs) order ks ss f g in
          let same : zs ≡ zip ks ss =
            some-injective _ _
              (sym done ∙ subst (λ l. gather l order ≡ some (zip ks ss)) (zip_parts cs) rows) in
          subst (Permᴰ cs) same q

  module _ (rows : List (ℕ × ℕ)) (planned : halo np n assignment src dst ≡ some rows) where
    abbrev st : Steps rows
    st = halo-steps rows planned

    -- The rows are distinct, in increasing order of their keys.
    pub halo-Above : Above none rows
    halo-Above = subst (Above none) (sym st.kept) (keep-Above none st.key_s st.rs_s st.sorted tt)

    -- Each row is one that a rank needs: it goes from another rank to an end of an edge.
    pub halo_sound : (row : ℕ × ℕ) → Memᴰ row rows → Received n assignment src dst row
    halo_sound row m =
        let w = crossing_sound n st.ra st.rb (dst ++ src) row (
          Memᴰ-Permᴰ row (Permᴰ.symm st.same_rows)
            (keep-sub none st.key_s st.rs_s row (subst (Memᴰ row) st.kept m))) in
        let (a, at_a, rank_a) =
          gather-from_item assignment (src ++ dst) st.ra w.pair.index (some w.to) st.ra_done
            w.pair.receiver in
        let (b, at_b, rank_b) =
          gather-from_item assignment (dst ++ src) st.rb w.pair.index (some row.1) st.rb_done
            w.pair.sender in
        let same : b ≡ w.vertex = some-injective _ _ (sym at_b ∙ w.pair.vertex) in
        record {
          to = w.to;
          vertex = b;
          index = w.pair.index;
          near = a;
          at_near = at_a;
          at_vertex = at_b;
          receives = rank_a;
          sends = rank_b;
          key = w.key ∙ ap (λ k. w.to * n + k) (sym same);
          apart = w.apart;
        }

    -- For each end of an edge whose neighbour is on another rank there is a row.
    pub halo-complete :
        (i a b r s : ℕ)
        → get_elem? (src ++ dst) i ≡ some a
        → get_elem? (dst ++ src) i ≡ some b
        → get_elem? assignment a ≡ some (some r)
        → get_elem? assignment b ≡ some (some s)
        → r ≢ s
        → (s' : ℕ) × Memᴰ (r * n + b, s') rows
    halo-complete i a b r s at_a at_b rank_a rank_b ne =
        let m =
          Memᴰ-Permᴰ (r * n + b, s) st.same_rows
            (crossing-complete n r s b st.ra st.rb (dst ++ src) i
              (gather-to_item assignment (src ++ dst) st.ra i a (some r) st.ra_done at_a rank_a)
              (gather-to_item assignment (dst ++ src) st.rb i b (some s) st.rb_done at_b rank_b)
              at_b ne) in
        elim (keep_complete none st.key_s st.rs_s (r * n + b) s m) [
          | inl e ↦ absurd (cc)
          | inr (s', kept) ↦ (s', subst (Memᴰ (r * n + b, s')) (sym st.kept) kept)
        ]

  -- The halo of edges between vertices that the assignment has is computed without an error.
  pub halo_returns :
      All (λ v. v < length assignment) src
      → All (λ v. v < length assignment) dst
      → (rows : List (ℕ × ℕ)) × (halo np n assignment src dst ≡ some rows)
  unfolding halo
  halo_returns src_in dst_in =
      let (ra, ra_done) =
        gather_total assignment (src ++ dst)
          (All-append (λ v. v < length assignment) src dst src_in dst_in) in
      let (rb, rb_done) =
        gather_total assignment (dst ++ src)
          (All-append (λ v. v < length assignment) dst src dst_in src_in) in
      let cs = crossing n ra rb (dst ++ src) in
      let order = np.argsort (firsts cs) in
      let p = np.argsort_perm (firsts cs) in
      let (key_s, k_done, _) = gather-Perm (firsts cs) p (firsts cs) (gather_all (firsts cs)) in
      let (rs_s, s_done, _) = gather-Perm (seconds cs) p (seconds cs) (
        subst (λ m. gather (seconds cs) (range_up 0 m) ≡ some (seconds cs)) (length_parts cs)
          (gather_all (seconds cs))) in
      (keep none key_s rs_s, rw (ra_done, rb_done, k_done, s_done, halo) refl)
    where
      length_parts : (ps : List (ℕ × ℕ)) → length (seconds ps) ≡ length (firsts ps)
      length_parts [] = refl
      length_parts (p ∷ ps) = ap suc (length_parts ps)
