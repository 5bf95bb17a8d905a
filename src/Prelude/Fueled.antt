-- ===== src/Prelude/Fueled.antt =====
-- Code with a loop on fuel that may raise: a value, an error, or no result because the fuel ran out.
use mathlib.Core.Path.{◌≡◌, refl}
use mathlib.Core.Bool.{Bool, true, false}
use mathlib.Core.Option.{Option, none, some}
use avbox.Prelude.Tests.{if◌then◌else◌}
use avbox.Prelude.Results.{Result, ok, err}

pub data Fueled (E A : Type 0) : Type 0 where
  done : A → Fueled E A
  raised : E → Fueled E A
  out_of_fuel : Fueled E A

infixl 5 ◌>>=◌ ◌>>◌
unfoldable pub ◌>>=◌ : {E A B : Type 0} → Fueled E A → (A → Fueled E B) → Fueled E B
done a >>= f = f a
raised e >>= f = raised e
out_of_fuel >>= f = out_of_fuel

unfoldable pub ◌>>◌ : {E B : Type 0} → Fueled E (Unit {0}) → Fueled E B → Fueled E B
unfolding ◌>>=◌
m >> k = m >>= λ _. k

-- Code without a loop.
unfoldable pub of_result : {E A : Type 0} → Result E A → Fueled E A
of_result (ok a) = done a
of_result (err e) = raised e

-- `if c: raise e`
unfoldable pub raise_when : {E : Type 0} → Bool → E → Fueled E (Unit {0})
raise_when true e = raised e
raise_when false e = done tt

-- The fuel was enough: the code ends with a value that satisfies `P`, or it raises.
pub data Ends {E A : Type 0} (P : A → Type 0) : Fueled E A → Type 0 where
  returns : {a : A} → P a → Ends P (done a)
  raises : {e : E} → Ends P (raised e)

module _ {E A : Type 0} where
  pub Ends-mono : {P Q : A → Type 0} {m : Fueled E A} → Ends P m → ((a : A) → P a → Q a) → Ends Q m
  Ends-mono (returns h) k = returns (k _ h)
  Ends-mono raises k = raises

  pub Ends-if :
      {P : A → Type 0} (b : Bool) {m n : Fueled E A}
      → (b ≡ true → Ends P m)
      → (b ≡ false → Ends P n)
      → Ends P (if b then m else n)
  Ends-if true h k = h refl
  Ends-if false h k = k refl

  pub Ends-of_result :
      {P : A → Type 0} (r : Result E A) → ((a : A) → r ≡ ok a → P a) → Ends P (of_result r)
  unfolding of_result
  Ends-of_result (ok a) k = returns (k a refl)
  Ends-of_result (err e) k = raises

pub Ends-Option :
    {E A B : Type 0} {P : B → Type 0} (o : Option A) (m : Fueled E B) (f : A → Fueled E B)
    → (o ≡ none → Ends P m)
    → ((a : A) → o ≡ some a → Ends P (f a))
    → Ends P (elim o as (λ _. Fueled E B) [ none ↦ m | some a ↦ f a ])
Ends-Option none m f h k = h refl
Ends-Option (some a) m f h k = k a refl

-- The cases of an `elim`, which wait for it.
pub Ends-Bool :
    {E B : Type 0} {P : B → Type 0} (b : Bool) (m n : Fueled E B)
    → (b ≡ true → Ends P m)
    → (b ≡ false → Ends P n)
    → Ends P (elim b as (λ _. Fueled E B) [ true ↦ m | false ↦ n ])
Ends-Bool true m n h k = h refl
Ends-Bool false m n h k = k refl

pub Ends-bind :
    {E A B : Type 0} (P : A → Type 0) {Q : B → Type 0} {m : Fueled E A} {f : A → Fueled E B}
    → Ends P m
    → ((a : A) → P a → Ends Q (f a))
    → Ends Q (m >>= f)
unfolding ◌>>=◌
Ends-bind P (returns h) k = k _ h
Ends-bind P raises k = raises

pub Ends-guard :
    {E B : Type 0} {Q : B → Type 0} (b : Bool) (e : E) {m : Fueled E B}
    → (b ≡ false → Ends Q m)
    → Ends Q (raise_when b e >> m)
unfolding ◌>>◌ ◌>>=◌ raise_when
Ends-guard true e h = raises
Ends-guard false e h = h refl

-- What ends with a value ends with one that satisfies the predicate.
Holding : {E A : Type 0} → (A → Type 0) → Fueled E A → Type 0
Holding P (done a) = P a
Holding P (raised e) = Unit
Holding P out_of_fuel = Unit

Ends-Holding : {E A : Type 0} {P : A → Type 0} {m : Fueled E A} → Ends P m → Holding P m
unfolding Holding
Ends-Holding (returns h) = h
Ends-Holding raises = tt

pub Ends-done :
    {E A : Type 0} (P : A → Type 0) (m : Fueled E A) (a : A) → Ends P m → m ≡ done a → P a
unfolding Holding
Ends-done P m a h e = let r : Holding P m = Ends-Holding h in rw e at r
