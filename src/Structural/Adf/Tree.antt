-- ===== src/Structural/Adf/Tree.antt =====
-- The walk of src/avbox/analyzers/structural.py through an Amiga floppy image: it ends, and what it
-- accepts is a tree of blocks, each of which belongs to one entry.
use avbox.Prelude.{
  ℕ, zero, suc, ◌+◌, ◌*◌, ◌≤◌, ◌<◌, ◌≡◌, refl, sym, ◌∙◌, ◌≢◌, inl, inr, true, false, ap, not, ◌||◌,
  List, [], ◌∷◌, ◌++◌, arith, ltb, leb, ◌==◌, ltb→le, Bool-cases, or_false, length, All,
  length-append, append_assoc, All-append, ok, err, Result-cases, if◌then◌else◌,
}
use avbox.Prelude.Bytes.{Bytes, be32}
use avbox.Prelude.Distinct.{Distinct}
use avbox.Prelude.Fueled.{
  Ends, Ends-mono, Ends-bind, Ends-of_result, Ends-guard, Ends-Bool, returns,
}
use avbox.DiskImages.Types.{
  cyclic_block_list, truncated_adf_file, invalid_ofs_block, Filesystem, fat12, fat16, fat32, ofs,
  ffs,
}
use avbox.DiskImages.Adf.{blocks, block}
use avbox.DiskImages.Adf.Walks.{block-ok}
use avbox.Structural.Adf.Entries.{
  block_checksum, Walk, data_size, data_at, Held, check_data, check_file,
}

-- A block of the image that holds `count` bytes of the file with the header in block `key`.
abbrev pub IsData : Bytes → Filesystem → ℕ → ℕ → Type 0
IsData file fs key pointer = (count : ℕ) × (data_at file fs key pointer ≡ ok count) × (count ≤ 512)

abbrev pub IsHeader : Bytes → ℕ → Bytes → Type 0
IsHeader file key header =
    (block file key ≡ ok header) × (be32 header 0 ≡ 2) × (block_checksum header ≡ true)

-- The pointers in the table of a header that are not null, from place `n` - 1 down to the first.
abbrev pub listed : ℕ → Bytes → List ℕ
listed zero header = []
listed (suc n) header =
    (if be32 header (24 + 4 * n) == 0 then [] else be32 header (24 + 4 * n) ∷ []) ++ listed n header

-- The first list, which has the last one first, before the second.
abbrev pub onto : List ℕ → List ℕ → List ℕ
onto [] ys = ys
onto (x ∷ xs) ys = onto xs (x ∷ ys)

-- The data blocks of a file are the first ones that the table of its header lists, and have room for
-- as much as the header declares.
pub record IsStored (file : Bytes) (fs : Filesystem) (key : ℕ) (header : Bytes) (ps : List ℕ)
    : Type 0 where
  pub blocks_of : All (IsData file fs key) ps
  pub few : length ps ≤ 72
  pub left : List ℕ
  pub in_table : listed 72 header ≡ onto ps left
  pub whole : be32 header 324 ≤ 512 * length ps

mutual
  -- The entries of a hash chain from `key` on, with all the blocks that belong to them, the last one
  -- first.
  pub data IsChain (file : Bytes) (fs : Filesystem) : ℕ → List ℕ → Type 0 where
    chain_end : IsChain file fs 0 []
    chain_dir :
        {key : ℕ} {header : Bytes} {ds ks : List ℕ}
        → IsHeader file key header
        → be32 header 508 ≡ 2
        → IsTable file fs header 72 24 ds
        → IsChain file fs (be32 header 496) ks
        → IsChain file fs key (ks ++ (ds ++ (key ∷ [])))
    chain_file :
        {key : ℕ} {header : Bytes} {ps ks : List ℕ}
        → IsHeader file key header
        → be32 header 508 ≡ 0xFFFFFFFD
        → IsStored file fs key header ps
        → IsChain file fs (be32 header 496) ks
        → IsChain file fs key (ks ++ (ps ++ (key ∷ [])))
    chain_other :
        {key : ℕ} {header : Bytes} {ks : List ℕ}
        → IsHeader file key header
        → be32 header 508 ≢ 2
        → be32 header 508 ≢ 0xFFFFFFFD
        → IsChain file fs (be32 header 496) ks
        → IsChain file fs key (ks ++ ([] ++ (key ∷ [])))

  -- The chains of a directory, with `n` places left from `pos` on.
  pub data IsTable (file : Bytes) (fs : Filesystem) : Bytes → ℕ → ℕ → List ℕ → Type 0 where
    table_end : {directory : Bytes} {pos : ℕ} → IsTable file fs directory 0 pos []
    table_next :
        {directory : Bytes} {n pos : ℕ} {ks ds : List ℕ}
        → IsChain file fs (be32 directory pos) ks
        → IsTable file fs directory n (pos + 4) ds
        → IsTable file fs directory (suc n) pos (ds ++ ks)

-- Different blocks of the image.
abbrev pub IsGood : List ℕ → Type 0
IsGood seen = Distinct seen × All (λ k. k < blocks) seen

onto-snoc : (ps : List ℕ) (p : ℕ) (ys : List ℕ) → onto (ps ++ (p ∷ [])) ys ≡ p ∷ onto ps ys
onto-snoc [] p ys = refl
onto-snoc (x ∷ ps) p ys = onto-snoc ps p (x ∷ ys)

-- A walk that has added the blocks of which `P` holds.
unfoldable pub Adds : (List ℕ → Type 0) → List ℕ → Walk → Type 0
Adds P seen w = IsGood w.seen × ((ks : List ℕ) × P ks × (w.seen ≡ ks ++ seen))

unfoldable pub HasFuel : ℕ → List ℕ → Type 0
HasFuel fuel seen = blocks + 1 ≤ fuel + length seen

pub more_fuel :
    (fuel : ℕ) (ks seen later : List ℕ)
    → later ≡ ks ++ seen
    → HasFuel fuel seen
    → HasFuel fuel later
unfolding HasFuel
more_fuel fuel ks seen later e h = rw e (omega (arith, h, length-append ks seen))

data_size-le :
    (fs : Filesystem) (key : ℕ) (payload : Bytes) (count : ℕ)
    → data_size fs key payload ≡ ok count
    → count ≤ 512
unfolding data_size
data_size-le ofs key payload count h =
    elim (Bool-cases (
      not (be32 payload 0 == 8)
      || (not (be32 payload 4 == key)
          || (ltb 488 (be32 payload 12) || not (block_checksum payload))))) [
            | inl e ↦ let no : err invalid_ofs_block ≡ ok count = rw e at h in absurd cc
            | inr e ↦
                let same : ok (be32 payload 12) ≡ ok count = rw e at h in
                let (_, rest) = or_false (not (be32 payload 0 == 8)) _ e in
                let (_, last) = or_false (not (be32 payload 4 == key)) _ rest in
                let (small, _) = or_false (ltb 488 (be32 payload 12)) _ last in
                let at_most = ltb→le _ _ small in
                let one : be32 payload 12 ≡ count = cc in omega (arith, at_most, one)
          ]
data_size-le ffs key payload count h = let e : 512 ≡ count = cc in omega (arith, e)
data_size-le fat12 key payload count h = let e : 512 ≡ count = cc in omega (arith, e)
data_size-le fat16 key payload count h = let e : 512 ≡ count = cc in omega (arith, e)
data_size-le fat32 key payload count h = let e : 512 ≡ count = cc in omega (arith, e)

data_at-ok :
    (file : Bytes) (fs : Filesystem) (key pointer count : ℕ)
    → data_at file fs key pointer ≡ ok count
    → (pointer < blocks) × (count ≤ 512)
unfolding data_at
data_at-ok file fs key pointer count h = elim (Result-cases (block file pointer)) [
  | inl (payload, e) ↦
      (block-ok file pointer payload e, data_size-le fs key payload count (rw (e, data_at) at h))
  | inr (x, e) ↦ let no : err x ≡ ok count = rw (e, data_at) at h in absurd cc
]

module _ (file : Bytes) (fs : Filesystem) (key : ℕ) (header : Bytes) where
  -- The data blocks that have been added.
  Holds : ℕ → ℕ → List ℕ → Held → Type 0
  Holds n total seen held =
      IsGood held.seen
      × ((ps : List ℕ) × All (IsData file fs key) ps
          × (length ps ≤ n)
          × (held.total ≤ total + 512 * length ps)
          × ((left : List ℕ) × (listed n header ≡ onto ps left))
          × (held.seen ≡ ps ++ seen))

  listed-null :
      (n : ℕ) → (be32 header (24 + 4 * n) == 0) ≡ true → listed (suc n) header ≡ listed n header
  listed-null n null = rw null

  listed-given :
      (n : ℕ)
      → (be32 header (24 + 4 * n) == 0) ≡ false
      → listed (suc n) header ≡ be32 header (24 + 4 * n) ∷ listed n header
  listed-given n given = rw given

  check_data-Holds :
      (n total : ℕ) (seen : List ℕ)
      → IsGood seen
      → Ends (Holds n total seen) (check_data file fs key header n total seen)
  unfolding check_data Holds
  check_data-Holds zero total seen good =
      returns (good, ([], tt, omega arith, omega arith, ([], refl), refl))
  check_data-Holds (suc n) total seen good =
      let pointer = be32 header (24 + 4 * n) in
      Ends-Bool (pointer == 0) _ _
        (λ null.
          Ends-mono (check_data-Holds n total seen good)
            (λ held (g, (ps, data_ok, few, sum, (left, whole), at)).
              (g, (ps, data_ok, omega (arith, few), sum, (left, listed-null n null ∙ whole), at))))
        (λ given. Ends-guard _ cyclic_block_list (λ new.
          Ends-bind (λ count. data_at file fs key pointer ≡ ok count)
            (Ends-of_result _ (λ count e. e))
            (λ count e.
              let (low, small) = data_at-ok file fs key pointer count e in
              let good1 : IsGood (pointer ∷ seen) = ((new, good.0), (low, good.1)) in
              Ends-Bool (leb (be32 header 324) (total + count)) _ _
                (λ _. returns (
                  good1,
                  (
                    pointer ∷ [],
                    ((count, e, small), tt),
                    omega arith,
                    omega (arith, small),
                    (listed n header, listed-given n given),
                    refl,
                  ),
                ))
                (λ _.
                  Ends-mono (check_data-Holds n (total + count) (pointer ∷ seen) good1)
                    (λ held (g, (ps, data_ok, few, sum, (left, whole), at)). (
                      g,
                      (
                        ps ++ (pointer ∷ []),
                        All-append (IsData file fs key) ps (pointer ∷ []) data_ok
                            ((count, e, small), tt),
                        omega (arith, few, length-append ps (pointer ∷ [])),
                        omega (arith, sum, small, length-append ps (pointer ∷ [])),
                        (
                          left,
                          listed-given n given
                              ∙ ap (λ l. pointer ∷ l) whole
                              ∙ sym (onto-snoc ps pointer left),
                        ),
                        at ∙ sym (append_assoc ps (pointer ∷ []) seen),
                      ),
                    ))))))

  pub check_file-Adds :
      (w : Walk)
      → IsGood w.seen
      → Ends (Adds (IsStored file fs key header) w.seen) (check_file file fs key header w)
  unfolding check_file Adds Holds
  check_file-Adds w good =
      Ends-bind _ (check_data-Holds 72 0 w.seen good)
        (λ held (g, (ps, data_ok, few, sum, (left, in_table), at)).
          Ends-guard _ truncated_adf_file (λ enough. returns (
            g,
            (
              ps,
              record {
                blocks_of = data_ok;
                few = few;
                left = left;
                in_table = in_table;
                whole = omega (arith, sum, ltb→le _ _ enough);
              },
              at,
            ),
          )))
