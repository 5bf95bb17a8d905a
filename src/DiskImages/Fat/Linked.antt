-- ===== src/DiskImages/Fat/Linked.antt =====
-- What a cluster chain reads: clusters along the links of the FAT, each once.
use avbox.Prelude.{
  ℕ, zero, suc, ◌+◌, ◌≤◌, ◌≡◌, refl, sym, ap, ◌∙◌, inl, inr, true, false, ◌||◌, Option, none, some,
  List, [], ◌∷◌, ◌++◌, arith, ltb, ◌==◌, ltb→le, leb→le, Bool-cases, or_false, length, take, All,
  append-nil, append_assoc, length-take, is_member, ok, err,
}
use avbox.Prelude.Bytes.{Bytes, slice}
use avbox.Prelude.Distinct.{Distinct}
use avbox.DiskImages.Types.{cluster_outside, truncated_fat_file}
use avbox.DiskImages.Fat.{
  Geometry, fat_bytes, cluster_size, cluster_start, next_cluster, cluster_data, is_enough, cut,
  finish_chain, is_wanted,
}

-- Clusters one after the other along the links of the FAT.
pub data Linked (g : Geometry) (fat : Bytes) : ℕ → List ℕ → Type 0 where
  last : {c : ℕ} → Linked g fat c (c ∷ [])
  link :
      {c d : ℕ} {cs : List ℕ}
      → next_cluster g fat c ≡ ok (some d)
      → Linked g fat d cs
      → Linked g fat c (c ∷ cs)

-- A cluster of the image.
pub record IsInside (g : Geometry) (size cluster : ℕ) : Type 0 where
  pub numbered : 2 ≤ cluster
  pub fits : cluster_start g cluster + cluster_size g ≤ size

abbrev pub bytes_of : Geometry → Bytes → ℕ → Bytes
bytes_of g file c = slice file (cluster_start g c) (cluster_start g c + cluster_size g)

-- The bytes of clusters in their order.
abbrev pub read_clusters : Geometry → Bytes → List ℕ → Bytes
read_clusters g file [] = []
read_clusters g file (c ∷ cs) = bytes_of g file c ++ read_clusters g file cs

-- `out` has as many bytes as are wanted.
abbrev pub IsSized : Option ℕ → Bytes → Type 0
IsSized none out = Unit
IsSized (some wanted) out = length out ≡ wanted

-- What `chain` returns: the bytes of different clusters of the image, linked from `start` on, cut to
-- the size that is wanted.
pub record IsRead (g : Geometry) (file : Bytes) (start : ℕ) (wanted : Option ℕ) (out : Bytes)
    : Type 0 where
  pub clusters : List ℕ
  pub linked : Linked g (fat_bytes g file) start clusters
  pub distinct : Distinct clusters
  pub inside : All (IsInside g (length file)) clusters
  pub content : out ≡ cut wanted (read_clusters g file clusters)
  pub sized : IsSized wanted out

-- What the loop reads after `before`, without the clusters that were seen.
pub record IsReadAfter (g : Geometry) (file : Bytes) (current : ℕ) (wanted : Option ℕ)
    (seen : List ℕ) (before out : Bytes) : Type 0 where
  pub clusters : List ℕ
  pub linked : Linked g (fat_bytes g file) current clusters
  pub distinct : Distinct clusters
  pub fresh : All (λ c. is_member c seen ≡ false) clusters
  pub inside : All (IsInside g (length file)) clusters
  pub content : out ≡ cut wanted (before ++ read_clusters g file clusters)
  pub sized : IsSized wanted out

pub cluster_data-ok :
    (g : Geometry) (file : Bytes) (c : ℕ) (piece : Bytes)
    → cluster_data g file c ≡ ok piece
    → IsInside g (length file) c × (piece ≡ bytes_of g file c)
unfolding cluster_data
cluster_data-ok g file c piece h =
    elim (Bool-cases (ltb c 2 || ltb (length file) (cluster_start g c + cluster_size g))) [
      | inl e ↦ let no : err cluster_outside ≡ ok piece = rw e at h in absurd cc
      | inr e ↦
          let same : ok (bytes_of g file c) ≡ ok piece = rw e at h in
          let (low, high) = or_false (ltb c 2) _ e in
          (record { numbered = ltb→le c 2 low; fits = ltb→le _ _ high }, cc)
    ]

-- Clusters that are not among `current` and the seen ones do not hold `current`.
not_seen :
    (current : ℕ) (seen cs : List ℕ)
    → All (λ c. is_member c (current ∷ seen) ≡ false) cs
    → (is_member current cs ≡ false) × All (λ c. is_member c seen ≡ false) cs
unfolding is_member
not_seen current seen [] h = (refl, tt)
not_seen current seen (c ∷ cs) h =
    let (here, there) = or_false (current == c) (is_member c seen) h.0 in
    let (a, b) = not_seen current seen cs h.1 in
    let apart : (c == current) ≡ false = ground (arith, here) in (rw apart a, (there, b))

-- One more cluster in front of what is read after it.
pub extend :
    (g : Geometry) (file : Bytes) (current next : ℕ) (wanted : Option ℕ) (seen : List ℕ)
    (before out : Bytes)
    → is_member current seen ≡ false
    → IsInside g (length file) current
    → next_cluster g (fat_bytes g file) current ≡ ok (some next)
    → IsReadAfter g file next wanted (current ∷ seen) (before ++ bytes_of g file current) out
    → IsReadAfter g file current wanted seen before out
extend g file current next wanted seen before out new inside linked h =
    let (absent, fresh) = not_seen current seen h.clusters h.fresh in
    record {
      clusters = current ∷ h.clusters;
      linked = link linked h.linked;
      distinct = (absent, h.distinct);
      fresh = (new, fresh);
      inside = (inside, h.inside);
      content =
          h.content
          ∙ ap (cut wanted)
              (append_assoc before (bytes_of g file current) (read_clusters g file h.clusters));
      sized = h.sized;
    }

-- The chain stops with its cluster.
pub ended :
    (g : Geometry) (file : Bytes) (current : ℕ) (wanted : Option ℕ) (seen : List ℕ)
    (before out : Bytes)
    → is_member current seen ≡ false
    → IsInside g (length file) current
    → out ≡ cut wanted (before ++ bytes_of g file current)
    → IsSized wanted out
    → IsReadAfter g file current wanted seen before out
unfolding is_member
ended g file current wanted seen before out new inside content sized = record {
  clusters = current ∷ [];
  linked = last;
  distinct = (refl, tt);
  fresh = (new, tt);
  inside = (inside, tt);
  content =
      content ∙ ap (λ x. cut wanted (before ++ x)) (sym (append-nil (bytes_of g file current)));
  sized = sized;
}

pub cut-IsSized :
    (wanted : Option ℕ) (out : Bytes)
    → is_enough wanted (length out) ≡ true
    → IsSized wanted (cut wanted out)
cut-IsSized none out h = tt
cut-IsSized (some wanted) out h =
    omega (arith, length-take wanted out, leb→le wanted (length out) h)

pub finish_chain-ok :
    (wanted : Option ℕ) (out r : Bytes)
    → finish_chain wanted out ≡ ok r
    → (r ≡ cut wanted out) × IsSized wanted r
unfolding finish_chain
finish_chain-ok none out r h = let same : r ≡ out = cc in (same, tt)
finish_chain-ok (some wanted) out r h = elim (Bool-cases (ltb (length out) wanted)) [
  | inl e ↦ let no : err truncated_fat_file ≡ ok r = rw e at h in absurd cc
  | inr e ↦
      let whole : ok (take wanted out) ≡ ok r = rw e at h in
      let same : r ≡ take wanted out = cc in
      (same, rw same (omega (arith, length-take wanted out, ltb→le (length out) wanted e)))
]

pub unwanted : (wanted : Option ℕ) → is_wanted wanted ≡ false → IsSized wanted []
unwanted none h = tt
unwanted (some zero) h = refl
unwanted (some (suc n)) h = ground arith
