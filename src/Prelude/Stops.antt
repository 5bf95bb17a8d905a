-- ===== src/Prelude/Stops.antt =====
-- Code on fuel that ends: with a value of which `P` holds, or with an error of which `R` holds.
use mathlib.Core.Path.{◌≡◌, refl}
use mathlib.Core.Bool.{Bool, true, false}
use mathlib.Core.List.{List, [], ◌∷◌}
use avbox.Prelude.Tests.{if◌then◌else◌}
use avbox.Prelude.Fueled.{Fueled, done, raised, ◌>>=◌}

pub data Stops {E A : Type 0} (P : A → Type 0) (R : E → Type 0) : Fueled E A → Type 0 where
  gives : {a : A} → P a → Stops P R (done a)
  fails : {e : E} → R e → Stops P R (raised e)

module _ {E A : Type 0} {R : E → Type 0} where
  pub Stops-mono :
      {P Q : A → Type 0} {m : Fueled E A} → Stops P R m → ((a : A) → P a → Q a) → Stops Q R m
  Stops-mono (gives h) k = gives (k _ h)
  Stops-mono (fails r) k = fails r

  pub Stops-if :
      {P : A → Type 0} (b : Bool) {m n : Fueled E A}
      → (b ≡ true → Stops P R m)
      → (b ≡ false → Stops P R n)
      → Stops P R (if b then m else n)
  Stops-if true h k = h refl
  Stops-if false h k = k refl

pub Stops-bind :
    {E A B : Type 0} {R : E → Type 0} (P : A → Type 0) {Q : B → Type 0} {m : Fueled E A}
    {f : A → Fueled E B}
    → Stops P R m
    → ((a : A) → P a → Stops Q R (f a))
    → Stops Q R (m >>= f)
unfolding ◌>>=◌
Stops-bind P (gives h) k = k _ h
Stops-bind P (fails r) k = fails r

-- The cases of an `elim`, which wait for it.
pub Stops-List :
    {E A B : Type 0} {P : B → Type 0} {R : E → Type 0} (xs : List A) (m : Fueled E B)
    (f : A → List A → Fueled E B)
    → (xs ≡ [] → Stops P R m)
    → ((x : A) (rest : List A) → xs ≡ x ∷ rest → Stops P R (f x rest))
    → Stops P R (elim xs as (λ _. Fueled E B) [ [] ↦ m | x ∷ rest ↦ f x rest ])
Stops-List [] m f h k = h refl
Stops-List (x ∷ xs) m f h k = k x xs refl

pub Stops-Bool :
    {E B : Type 0} {P : B → Type 0} {R : E → Type 0} (b : Bool) (m n : Fueled E B)
    → (b ≡ true → Stops P R m)
    → (b ≡ false → Stops P R n)
    → Stops P R (elim b as (λ _. Fueled E B) [ true ↦ m | false ↦ n ])
Stops-Bool true m n h k = h refl
Stops-Bool false m n h k = k refl
