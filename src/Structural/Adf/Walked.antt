-- ===== src/Structural/Adf/Walked.antt =====
-- `_walk_adf` of src/avbox/analyzers/structural.py ends, and what it accepts is a tree.
use avbox.Prelude.{
  ℕ, zero, suc, ◌+◌, ◌≡◌, refl, sym, ap, ◌∙◌, not, List, [], ◌∷◌, ◌++◌, arith, ◌==◌, ==→eq,
  or_false, append_assoc, is_member, ok,
}
use avbox.Prelude.Bytes.{Bytes, be32}
use avbox.Prelude.Distinct.{length-Distinct}
use avbox.Prelude.Fueled.{
  Fueled, of_result, ◌>>=◌, Ends, Ends-mono, Ends-if, Ends-bind, Ends-of_result, Ends-guard,
  returns,
}
use avbox.DiskImages.Types.{
  DiskImageError, cyclic_hash_chain, invalid_entry_header, node_limit, Filesystem,
}
use avbox.DiskImages.Adf.{blocks, root_key, block, fs_of}
use avbox.DiskImages.Adf.Walks.{block-ok}
use avbox.Structural.Facts.{same_number, not-false}
use avbox.Structural.Adf.{root_of}
use avbox.Structural.Adf.Entries.{Walk, check_table, check_entry, check_chain, walk_adf}
use avbox.Structural.Adf.Tree.{
  IsHeader, IsChain, chain_end, chain_dir, chain_file, chain_other, IsTable, table_end, table_next,
  IsGood, Adds, HasFuel, more_fuel, check_file-Adds,
}

joined :
    (ks ds : List ℕ) (key : ℕ) (seen : List ℕ)
    → ks ++ (ds ++ (key ∷ seen)) ≡ (ks ++ (ds ++ (key ∷ []))) ++ seen
joined ks ds key seen =
    ap (λ xs. ks ++ xs) (sym (append_assoc ds (key ∷ []) seen))
    ∙ sym (append_assoc ks (ds ++ (key ∷ [])) seen)

module _ (file : Bytes) (fs : Filesystem) where
  -- The blocks inside an entry, and how the chain goes on behind it.
  IsInner : ℕ → Bytes → List ℕ → Type 0
  IsInner key header ds =
      (ks : List ℕ)
      → IsChain file fs (be32 header 496) ks
      → IsChain file fs key (ks ++ (ds ++ (key ∷ [])))

  module _ (fuel : ℕ) (follow : ℕ → Walk → Fueled DiskImageError Walk)
      (deeper : (key : ℕ) (w : Walk)
        → IsGood w.seen
        → HasFuel fuel w.seen
        → Ends (Adds (IsChain file fs key) w.seen) (follow key w)) where
    check_table-Adds :
        (directory : Bytes) (n pos : ℕ) (w : Walk)
        → IsGood w.seen
        → HasFuel fuel w.seen
        → Ends
            (Adds (IsTable file fs directory n pos) w.seen)
            (check_table follow directory n pos w)
    unfolding check_table Adds
    check_table-Adds directory zero pos w good enough = returns (good, ([], table_end, refl))
    check_table-Adds directory (suc n) pos w good enough =
        Ends-bind _ (deeper (be32 directory pos) w good enough) (λ w1 (good1, (ks, chain, at)).
          Ends-mono
            (check_table-Adds directory n (pos + 4) w1 good1
              (more_fuel fuel ks w.seen w1.seen at enough))
            (λ w2 (good2, (ds, table, at2)). (
              good2,
              (ds ++ ks, table_next chain table, rw (at2, at) (sym (append_assoc ds ks w.seen))),
            )))

    check_entry-Adds :
        (key : ℕ) (header : Bytes) (w : Walk)
        → IsHeader file key header
        → IsGood w.seen
        → HasFuel fuel w.seen
        → Ends (Adds (IsInner key header) w.seen) (check_entry follow file fs key header w)
    unfolding check_entry Adds IsInner
    check_entry-Adds key header w head good enough =
        Ends-if (be32 header 508 == 2)
          (λ dir.
            Ends-mono (check_table-Adds header 72 24 w good enough) (λ w1 (good1, (ds, table, at)).
              (good1, (ds, (λ ks chain. chain_dir head (==→eq _ _ dir) table chain), at))))
          (λ no_dir.
            Ends-if (be32 header 508 == 0xFFFFFFFD)
              (λ plain.
                Ends-mono (check_file-Adds file fs key header w good)
                  (λ w1 (good1, (ps, stored, at)). (
                    good1,
                    (ps, (λ ks chain. chain_file head (==→eq _ _ plain) stored chain), at),
                  )))
              (λ no_file. returns (
                good,
                (
                  [],
                  (λ ks chain.
                      chain_other head (λ e. ground (arith, no_dir, e))
                        (λ e. ground (arith, no_file, e)) chain),
                  refl,
                ),
              )))

  check_chain-Adds :
      (max_nodes fuel key : ℕ) (w : Walk)
      → IsGood w.seen
      → HasFuel fuel w.seen
      → Ends (Adds (IsChain file fs key) w.seen) (check_chain max_nodes file fs fuel key w)
  unfolding check_chain HasFuel Adds IsInner
  check_chain-Adds m zero key w good enough =
      absurd (omega (arith, enough, length-Distinct blocks w.seen good.0 good.1))
  check_chain-Adds m (suc fuel) key w good enough =
      Ends-if (key == 0)
        (λ null. let e = ==→eq key 0 null in returns (good, ([], rw e chain_end, refl)))
        (λ _. Ends-guard _ node_limit (λ _. Ends-guard _ cyclic_hash_chain (λ new.
          Ends-bind (λ header. block file key ≡ ok header) (Ends-of_result _ (λ header e. e))
            (λ header found. Ends-guard _ invalid_entry_header (λ fits.
              let (kind, sum) = or_false (not (be32 header 0 == 2)) _ fits in
              let head : IsHeader file key header =
                (found, same_number _ _ kind, not-false _ sum) in
              let w1 : Walk = record { seen = key ∷ w.seen; nodes = w.nodes + 1 } in
              let good1 : IsGood w1.seen =
                ((new, good.0), (block-ok file key header found, good.1)) in
              Ends-bind (Adds (IsInner key header) w1.seen)
                (check_entry-Adds fuel (check_chain m file fs fuel) (check_chain-Adds m fuel) key
                  header w1 head good1 (omega (arith, enough)))
                (λ w2 (good2, (ds, inner, at)).
                  Ends-mono
                    (check_chain-Adds m fuel (be32 header 496) w2 good2
                      (more_fuel fuel ds w1.seen w2.seen at (omega (arith, enough))))
                    (λ w3 (good3, (ks, chain, at3)). (
                      good3,
                      (
                        ks ++ (ds ++ (key ∷ [])),
                        inner ks chain,
                        rw (at3, at) (joined ks ds key w.seen),
                      ),
                    ))))))))

pub walk_adf-Adds :
    (max_nodes : ℕ) (file : Bytes)
    → Ends
        (Adds (IsTable file (fs_of file) (root_of file) 72 24) (root_key ∷ []))
        (walk_adf max_nodes file (fs_of file))
unfolding walk_adf block HasFuel is_member of_result ◌>>=◌
walk_adf-Adds m file =
    (check_table-Adds file (fs_of file) (blocks + 2) (check_chain m file (fs_of file) (blocks + 2))
      (check_chain-Adds file (fs_of file) m (blocks + 2)) (root_of file) 72 24
      (record { seen = root_key ∷ []; nodes = 0 }) ((refl, tt), (omega arith, tt)) (omega arith))
