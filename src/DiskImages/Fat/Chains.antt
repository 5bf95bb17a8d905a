-- ===== src/DiskImages/Fat/Chains.antt =====
-- What a cluster chain reads: the clusters along the links of the FAT, each once, inside the image.
use avbox.Prelude.{
  ℕ, zero, suc, ◌+◌, ◌-◌, ◌*◌, ◌/◌, ◌≤◌, ◌<◌, ◌≡◌, refl, ap, ◌∙◌, ◌⊎◌, inl, inr, false, Option,
  none, some, List, [], ◌∷◌, ◌++◌, arith, ltb, ◌==◌, ltb→lt, ltb→le, ne→==, or_false, length, All,
  length-append, length-take, is_member, ok,
}
use native.Mathlib.Nat.{le-div_iff_mul-le}
use avbox.Prelude.Bytes.{Bytes, length-slice}
use avbox.Prelude.Distinct.{Distinct, length-Distinct}
use avbox.Prelude.Fueled.{
  of_result, Ends, Ends-mono, Ends-if, Ends-bind, Ends-of_result, Ends-guard, Ends-Option, returns,
  raises,
}
use avbox.DiskImages.Fat.{
  Geometry, fat_bytes, cluster_size, cluster_start, next_cluster, is_enough, cut, finish_chain,
  chain_loop, chain, is_wanted,
}
use avbox.DiskImages.Fat.Linked.{
  IsInside, bytes_of, read_clusters, IsSized, IsRead, IsReadAfter, cluster_data-ok, extend, ended,
  cut-IsSized, finish_chain-ok, unwanted,
}

module _ (g : Geometry) (file : Bytes) (wanted : Option ℕ) where
  finished-Ends :
      (current : ℕ) (seen : List ℕ) (out piece : Bytes)
      → is_member current seen ≡ false
      → IsInside g (length file) current
      → piece ≡ bytes_of g file current
      → Ends
          (IsReadAfter g file current wanted seen out)
          (of_result (finish_chain wanted (out ++ piece)))
  finished-Ends current seen out piece new inside same =
      Ends-of_result (finish_chain wanted (out ++ piece)) (λ r h.
        let (content, sized) = finish_chain-ok wanted (out ++ piece) r h in
        ended g file current wanted seen out r new inside
          (content ∙ ap (λ x. cut wanted (out ++ x)) same) sized)

  chain_loop-Ends :
      (fuel current : ℕ) (seen : List ℕ) (out : Bytes)
      → g.clusters + 2 ≤ fuel + length seen
      → length seen ≤ g.clusters + 1
      → Ends
          (IsReadAfter g file current wanted seen out)
          (chain_loop g file wanted fuel current seen out)
  unfolding chain_loop
  chain_loop-Ends zero current seen out enough few = absurd (omega (arith, enough, few))
  chain_loop-Ends (suc fuel) current seen out enough few = Ends-guard _ _ (λ e.
      let (new, seen_few) = or_false (is_member current seen) _ e in
      Ends-bind (λ piece. IsInside g (length file) current × (piece ≡ bytes_of g file current))
        (Ends-of_result _ (cluster_data-ok g file current))
        (λ piece (inside, same).
          Ends-if (is_enough wanted (length (out ++ piece)))
            (λ full. returns (
              ended g file current wanted seen out _ new inside
                (ap (λ x. cut wanted (out ++ x)) same) (cut-IsSized wanted (out ++ piece) full)))
            (λ more.
              Ends-bind (λ next. next_cluster g (fat_bytes g file) current ≡ ok next)
                (Ends-of_result _ (λ n h. h))
                (λ next linked.
                  Ends-Option next (of_result (finish_chain wanted (out ++ piece)))
                    (λ d. chain_loop g file wanted fuel d (current ∷ seen) (out ++ piece))
                    (λ _. finished-Ends current seen out piece new inside same)
                    (λ d e.
                      Ends-mono
                        (chain_loop-Ends fuel d (current ∷ seen) (out ++ piece)
                          (omega (arith, enough)) (omega (arith, ltb→le _ _ seen_few)))
                        (λ r h.
                          extend g file current d wanted seen out r new inside (rw e at linked)
                            (rw same at h)))))))

  -- `chain` ends, whatever links the FAT holds. It raises, or returns no bytes for a start below 2, or
  -- the bytes of different clusters of the image, linked by the FAT from the start on, as many as are
  -- wanted.
  pub chain-Ends :
      (start : ℕ)
      → Ends
          (λ out. ((start < 2) × (out ≡ []) × IsSized wanted out) ⊎ IsRead g file start wanted out)
          (chain g file start wanted)
  unfolding chain
  chain-Ends start =
      Ends-if (ltb start 2)
        (λ low.
          Ends-if (is_wanted wanted) (λ _. raises)
            (λ e. returns (inl (ltb→lt start 2 low, refl, unwanted wanted e))))
        (λ high.
          Ends-mono (chain_loop-Ends (g.clusters + 2) start [] [] (omega arith) (omega arith))
            (λ r h. inr (record {
              clusters = h.clusters;
              linked = h.linked;
              distinct = h.distinct;
              inside = h.inside;
              content = h.content;
              sized = h.sized;
            })))

suc_mul : (n m : ℕ) → m + n * m ≡ suc n * m
suc_mul n m = grind arith

shifted_by : (d f s b size : ℕ) → (f + d * s) * b + s * b ≤ size → (d + 1) * (s * b) ≤ size
shifted_by d f s b size k =
    let same : (f + d * s) * b + s * b ≡ f * b + (d + 1) * (s * b) = grind arith in
    omega (arith, same, k)

shifted :
    (c f s b size : ℕ) → 2 ≤ c → (f + (c - 2) * s) * b + s * b ≤ size → (c - 1) * (s * b) ≤ size
shifted c f s b size h k =
    let next : c - 1 ≡ (c - 2) + 1 = omega (arith, h) in rw next (shifted_by (c - 2) f s b size k)

-- The clusters below the one that the image has no more room for.
pub IsInside-lt :
    (g : Geometry) (size c : ℕ)
    → 0 < cluster_size g
    → IsInside g size c
    → c < size / cluster_size g + 2
IsInside-lt g size c h k =
    let before : (c - 1) * cluster_size g ≤ size =
      shifted c g.first_data g.spc g.bps size k.numbered k.fits in
    let few : c - 1 ≤ size / cluster_size g = (le-div_iff_mul-le h).1 before in
    omega (arith, few, k.numbered)

All-IsInside-lt :
    (g : Geometry) (size : ℕ) (cs : List ℕ)
    → 0 < cluster_size g
    → All (IsInside g size) cs
    → All (λ c. c < size / cluster_size g + 2) cs
All-IsInside-lt g size [] h k = tt
All-IsInside-lt g size (c ∷ cs) h k = (IsInside-lt g size c h k.0, All-IsInside-lt g size cs h k.1)

above_one :
    (g : Geometry) (size n : ℕ) (cs : List ℕ)
    → n < 2
    → All (IsInside g size) cs
    → is_member n cs ≡ false
unfolding is_member
above_one g size n [] h k = refl
above_one g size n (c ∷ cs) h k =
    let apart : (c == n) ≡ false = ne→== c n (λ e. absurd (omega (arith, k.0.numbered, e))) in
    rw apart (above_one g size n cs h k.1)

no_zero :
    (g : Geometry) (size : ℕ) (cs : List ℕ)
    → All (IsInside g size) cs
    → is_member 0 (1 ∷ cs) ≡ false
unfolding is_member
no_zero g size cs k = above_one g size 0 cs (omega arith) k

-- Different clusters of an image are not more than have room in it.
few_clusters :
    (g : Geometry) (size : ℕ) (cs : List ℕ)
    → 0 < cluster_size g
    → Distinct cs
    → All (IsInside g size) cs
    → length cs * cluster_size g ≤ size
few_clusters g size cs h d k =
    let bound =
      length-Distinct (size / cluster_size g + 2) (0 ∷ 1 ∷ cs)
        (no_zero g size cs k, (above_one g size 1 cs (omega arith) k, d))
        (omega arith, (omega arith, All-IsInside-lt g size cs h k)) in
    let few : length cs ≤ size / cluster_size g = omega (arith, bound) in
    (le-div_iff_mul-le h).0 few

length-read_clusters :
    (g : Geometry) (file : Bytes) (cs : List ℕ)
    → All (IsInside g (length file)) cs
    → length (read_clusters g file cs) ≡ length cs * cluster_size g
length-read_clusters g file [] h = omega arith
length-read_clusters g file (c ∷ cs) h =
    let here = length-slice file (cluster_start g c) (cluster_start g c + cluster_size g) in
    let whole : length (bytes_of g file c) ≡ cluster_size g = omega (arith, here, h.0.fits) in
    length-append (bytes_of g file c) (read_clusters g file cs)
    ∙ (ap (λ n. n + length (read_clusters g file cs)) whole
        ∙ (ap (λ n. cluster_size g + n) (length-read_clusters g file cs h.1)
            ∙ suc_mul (length cs) (cluster_size g)))

cut-le : (wanted : Option ℕ) (out : Bytes) → length (cut wanted out) ≤ length out
cut-le none out = omega arith
cut-le (some n) out = omega (arith, length-take n out)

-- What is read along a chain is not longer than the image.
pub IsRead-bounded :
    (g : Geometry) (file : Bytes) (start : ℕ) (wanted : Option ℕ) (out : Bytes)
    → 0 < cluster_size g
    → IsRead g file start wanted out
    → length out ≤ length file
IsRead-bounded g file start wanted out h r =
    let few = few_clusters g (length file) r.clusters h r.distinct r.inside in
    let cut = cut-le wanted (read_clusters g file r.clusters) in
    let size = length-read_clusters g file r.clusters r.inside in
    rw (r.content) (omega (arith, cut, size, few))
