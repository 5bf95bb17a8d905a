-- ===== src/Prelude/Distinct.antt =====
-- Lists of different numbers, as sets of numbers that were seen are.
use avbox.Prelude.{
  ℕ, zero, suc, ◌≤◌, ◌<◌, ◌≡◌, refl, sym, ◌∙◌, ◌≢◌, inl, inr, true, false, List, [], ◌∷◌, arith,
  ◌==◌, if◌then◌else◌, ==→eq, eq→==, Bool-cases, or_false, length, All, is_member,
}

-- No number occurs twice.
abbrev pub Distinct : List ℕ → Type 0
Distinct [] = Unit
Distinct (x ∷ xs) = (is_member x xs ≡ false) × Distinct xs

bool_apart : false ≢ true
bool_apart h = cc

below : (x n : ℕ) → x < suc n → x ≢ n → x < n
below x n h k = omega arith

less : ℕ → List ℕ → List ℕ
less n [] = []
less n (x ∷ xs) = let rest = less n xs in if x == n then rest else x ∷ rest

less-absent : (n : ℕ) (xs : List ℕ) → is_member n xs ≡ false → less n xs ≡ xs
unfolding less is_member
less-absent n [] h = refl
less-absent n (x ∷ xs) h =
    let (here, there) = or_false (x == n) (is_member n xs) h in rw (here, less-absent n xs there)

length-less : (n : ℕ) (xs : List ℕ) → Distinct xs → length xs ≤ suc (length (less n xs))
unfolding less
length-less n [] h = omega arith
length-less n (x ∷ xs) h = elim (Bool-cases (x == n)) [
  | inl e ↦
      let same : x ≡ n = ==→eq x n e in
      let absent : is_member n xs ≡ false = rw same at h.0 in
      rw (e, less-absent n xs absent) (omega arith)
  | inr e ↦ rw e (omega (arith, length-less n xs h.1))
]

less-is_member : (m n : ℕ) (xs : List ℕ) → is_member m xs ≡ false → is_member m (less n xs) ≡ false
unfolding less is_member
less-is_member m n [] h = refl
less-is_member m n (x ∷ xs) h =
    let (here, there) = or_false (x == m) (is_member m xs) h in
    let rest = less-is_member m n xs there in
    elim (Bool-cases (x == n)) [ inl e ↦ rw e rest | inr e ↦ rw (e, here) rest ]

less-Distinct : (n : ℕ) (xs : List ℕ) → Distinct xs → Distinct (less n xs)
unfolding less
less-Distinct n [] h = tt
less-Distinct n (x ∷ xs) h = elim (Bool-cases (x == n)) [
  | inl e ↦ rw e (less-Distinct n xs h.1)
  | inr e ↦ rw e (less-is_member x n xs h.0, less-Distinct n xs h.1)
]

less-bounded : (n : ℕ) (xs : List ℕ) → All (λ x. x < suc n) xs → All (λ x. x < n) (less n xs)
unfolding less
less-bounded n [] h = tt
less-bounded n (x ∷ xs) h = elim (Bool-cases (x == n)) [
  | inl e ↦ rw e (less-bounded n xs h.1)
  | inr e ↦
      let apart : x ≢ n = λ p. absurd (bool_apart (sym e ∙ eq→== x n p)) in
      rw e (below x n h.0 apart, less-bounded n xs h.1)
]

-- Different numbers below `n` are at most `n`.
pub length-Distinct : (n : ℕ) (xs : List ℕ) → Distinct xs → All (λ x. x < n) xs → length xs ≤ n
length-Distinct n [] h k = omega arith
length-Distinct zero (x ∷ xs) h k = absurd (omega (arith, k.0))
length-Distinct (suc n) (x ∷ xs) h k = omega (
  arith,
  length-less n (x ∷ xs) h,
  length-Distinct n (less n (x ∷ xs)) (less-Distinct n (x ∷ xs) h) (less-bounded n (x ∷ xs) k),
)
