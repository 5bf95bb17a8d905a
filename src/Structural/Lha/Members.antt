-- ===== src/Structural/Lha/Members.antt =====
-- What an LHA archive of stored members is, and the rounds of `_lha` of
-- src/avbox/analyzers/structural.py set against it.
use avbox.Prelude.{
  ℕ, suc, ◌+◌, ◌%◌, ◌≤◌, ◌≡◌, refl, sym, ◌∙◌, ◌≢◌, Bool, true, false, not, ◌||◌, List, [], ◌∷◌,
  ◌++◌, arith, ltb, ◌==◌, ltb→le, ==→eq, and_true, or_false, length,
}
use avbox.Prelude.{if_by}
use avbox.Prelude.Bytes.{Bytes, byte, slice, length-slice, le16, le32, starts_with}
use avbox.Structural.Types.{Finding}
use avbox.Structural.Facts.{snoc_apart, same_number}
use avbox.Structural.Lha.{
  crc16, sum, lh0, Scan, Step, leave, next, finding_when, read_member, check_method, check_member,
}

-- A stored member at `p`: its header, of which the first byte gives the size and the second the sum,
-- and behind it the bytes that the CRC in the header is of.
pub record IsMember (file : Bytes) (p : ℕ) (header : Bytes) : Type 0 where
  pub header_at : header ≡ slice file p (p + byte file p + 2)
  pub whole : p + byte file p + 2 ≤ length file
  pub sized : 22 ≤ byte file p
  pub method : slice header 2 7 ≡ lh0
  pub summed : sum (slice header 2 (length header)) % 256 ≡ byte header 1
  pub named : 22 + byte header 21 + 2 ≤ length header
  pub inside : p + length header + le32 header 7 ≤ length file
  pub checked :
      crc16 (slice file (p + length header) (p + length header + le32 header 7))
      ≡ le16 header (22 + byte header 21)

-- A member goes from `p` to `q`.
abbrev pub IsNext : Bytes → ℕ → ℕ → Type 0
IsNext file p q =
    (header : Bytes) × IsMember file p header × (q ≡ p + length header + le32 header 7)

clean_when :
    (xs : List Finding) (c : Bool) (f : Finding)
    → xs ++ finding_when c f ≡ []
    → (xs ≡ []) × (c ≡ false)
clean_when xs true f h = absurd (snoc_apart xs f h)
clean_when [] false f h = (refl, refl)
clean_when (x ∷ xs) false f h = absurd cc

starts-same : (ps xs : Bytes) → length xs ≤ length ps → starts_with ps xs ≡ true → xs ≡ ps
unfolding starts_with
starts-same [] [] h e = refl
starts-same [] (x ∷ xs) h e = absurd (omega arith)
starts-same (p ∷ ps) [] h e = absurd cc
starts-same (p ∷ ps) (x ∷ xs) h e =
    let (here, there) = and_true (x == p) _ e in
    let one : x ≡ p = ==→eq x p here in rw (one, starts-same ps xs (omega arith) there)

-- What a round does: it leaves the loop with a finding, or it goes on behind at least 24 bytes, and
-- where it has found nothing it has passed a member.
unfoldable pub Passes : Bytes → Scan → Step → Type 0
Passes file s (leave t) = t.findings ≢ []
Passes file s (next t) =
    (s.position + 24 ≤ t.position)
    × (t.position ≤ length file)
    × (t.members ≡ suc s.members)
    × (t.findings ≡ [] → (s.findings ≡ []) × IsNext file s.position t.position)

module _ (file : Bytes) (s : Scan) (header : Bytes)
    (header_at : header ≡ slice file s.position (s.position + byte file s.position + 2))
    (whole : s.position + byte file s.position + 2 ≤ length file)
    (sized : 22 ≤ byte file s.position) where
  length-header : length header ≡ byte file s.position + 2
  length-header =
      rw header_at
        (omega (arith, length-slice file s.position (s.position + byte file s.position + 2)))

  read_member-Passes :
      (t : Scan)
      → t.position ≡ s.position
      → t.members ≡ s.members
      → t.findings ≡ s.findings
      → slice header 2 7 ≡ lh0
      → Passes file s (read_member file header t)
  unfolding Passes read_member
  read_member-Passes t at count same method =
      if_by (Passes file s) (ltb (length header) (22 + byte header 21 + 2)) (λ _. snoc_apart _ _)
        (λ named.
          if_by (Passes file s) (ltb (length file) (t.position + length header + le32 header 7))
            (λ _. snoc_apart _ _)
            (λ inside. (
              omega (arith, length-header, at),
              ltb→le _ _ inside,
              omega (arith, count),
              λ clean.
                  let (left, crc) = clean_when _ _ _ clean in
                  let (empty, total) = clean_when t.findings _ _ left in
                  (
                    sym same ∙ empty,
                    (
                      header,
                      record {
                        header_at = header_at;
                        whole = whole;
                        sized = sized;
                        method = method;
                        summed = same_number _ _ total;
                        named = ltb→le _ _ named;
                        inside = rw at at (ltb→le _ _ inside);
                        checked = rw at at (same_number _ _ crc);
                      },
                      rw at,
                    ),
                  ),
            )))

  check_method-Passes : Passes file s (check_method file header s)
  unfolding Passes check_method
  check_method-Passes =
      if_by (Passes file s) (starts_with lh0 (slice header 2 7))
        (λ so.
          read_member-Passes _ refl refl refl
            (starts-same lh0 (slice header 2 7) (omega (arith, length-slice header 2 7)) so))
        (λ _. snoc_apart _ _)

pub check_member-Passes : (file : Bytes) (s : Scan) → Passes file s (check_member file s)
unfolding Passes check_member
check_member-Passes file s =
    if_by (Passes file s) (ltb (length file) (s.position + 22)) (λ _. snoc_apart _ _)
      (λ _.
        if_by (Passes file s)
          (ltb (byte file s.position) 22
            || ltb (length file) (s.position + byte file s.position + 2))
          (λ _. snoc_apart _ _)
          (λ fits.
            let (sized, whole) = or_false (ltb (byte file s.position) 22) _ fits in
            check_method-Passes file s _ refl (ltb→le _ _ whole) (ltb→le _ _ sized)))

lt-false : (a b : ℕ) → b ≤ a → ltb a b ≡ false
lt-false a b h = ground arith

not_eq-false : (a b : ℕ) → a ≡ b → not (a == b) ≡ false
not_eq-false a b h = ground arith

-- A round that meets a member passes it without a finding.
pub check_member-next :
    (file : Bytes) (s : Scan) (header : Bytes)
    → IsMember file s.position header
    → s.findings ≡ []
    → (t : Scan) × (check_member file s ≡ next t)
      × (t.position ≡ s.position + length header + le32 header 7)
      × (t.members ≡ suc s.members)
      × (t.findings ≡ [])
unfolding check_member check_method read_member starts_with
check_member-next file s header m empty =
    let a : ltb (length file) (s.position + 22) ≡ false =
      lt-false _ _ (omega (arith, m.whole, m.sized)) in
    let b : ltb (byte file s.position) 22 ≡ false = lt-false _ _ m.sized in
    let c : ltb (length file) (s.position + byte file s.position + 2) ≡ false =
      lt-false _ _ m.whole in
    let d = not_eq-false _ _ m.summed in
    let e : ltb (length header) (22 + byte header 21 + 2) ≡ false = lt-false _ _ m.named in
    let f : ltb (length file) (s.position + length header + le32 header 7) ≡ false =
      lt-false _ _ m.inside in
    let g = not_eq-false _ _ m.checked in
    rw (a, b, c, ← m.header_at, m.method, d, e, f, g) (_, refl, refl, omega arith, rw empty refl)
