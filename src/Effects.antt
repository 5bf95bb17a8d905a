-- ===== src/Effects.antt =====
-- Methods that change an object and may raise: what was written before a raise stays written, so the
-- state comes back beside the exception too.
pub mod Keeps
pub mod Triples
use avbox.Prelude.{
  str_eq, eq_iff, str_append, ℕ, zero, suc, ◌+◌, ◌-◌, ◌*◌, ◌/◌, ◌%◌, ◌^◌, ◌≤◌, ◌<◌, min, max,
  String, ◌≡◌, refl, sym, ap, ◌∙◌, fun_ext, ◌≢◌, ◌↔◌, ◌⊎◌, inl, inr, Bool, true, false, not, ◌&&◌,
  ◌||◌, Option, none, some, List, [], ◌∷◌, ◌++◌, map, arith, ltb, leb, ◌==◌, if◌then◌else◌, ltb→lt,
  ltb→le, leb→le, leb→lt, lt→ltb, le→leb, ==→eq, eq→==, ne→==, tests, Bool-cases, Option-cases,
  and_true, or_false, if_both, length, get_or, take, drop, replicate, All, any, all, select,
  length-append, append-nil, append_assoc, take-append-drop, length-take, length-drop,
  length-replicate, take-all, drop-nil, take-nil, drop-drop, take-append-take, All-append, All-take,
  length-map, is_member, Result, ok, err, raise_if, Result-cases,
}

-- An exception: `type(exc).__name__` and `str(exc)`.
pub record Raised : Type 0 where
  pub kind : String
  pub text : String

abbrev pub Action {ℓ} : Type 0 → Type ℓ → Type ℓ
Action S A = S → Result Raised A × S

module _ {ℓ} {S : Type 0} {A : Type ℓ} where
  unfoldable pub pure : A → Action S A
  pure a r = (ok a, r)

  unfoldable pub raise : Raised → Action S A
  raise e r = (err e, r)

  unfoldable pub lift : Result Raised A → Action S A
  lift x r = (x, r)

  unfoldable pub gets : (S → A) → Action S A
  gets f r = (ok (f r), r)

module _ {ℓ κ} {S : Type 0} {A : Type ℓ} {B : Type κ} where
  unfoldable pub continue : (A → Action S B) → Result Raised A → Action S B
  continue f (ok a) r = f a r
  continue f (err e) r = (err e, r)

  infixl 5 ◌>>=◌
  -- One statement after another.
  unfoldable pub ◌>>=◌ : Action S A → (A → Action S B) → Action S B
  unfolding continue
  ◌>>=◌ m f r = let (x, r') = m r in continue f x r'

infixl 5 ◌>>◌
unfoldable pub ◌>>◌ {κ} : {S : Type 0} {B : Type κ} → Action S (Unit {0}) → Action S B → Action S B
unfolding ◌>>=◌
m >> k = m >>= λ _. k

-- `for x in xs: body(x)`
unfoldable pub for_each {ℓ} :
    {S : Type 0} {A : Type ℓ} → List A → (A → Action S (Unit {0})) → Action S (Unit {0})
unfolding pure
for_each [] body = pure tt
for_each (x ∷ xs) body = body x >> for_each xs body

-- `try: m except Exception as exc: handler(exc)`
unfoldable pub handle :
    {S : Type 0} → (Raised → Action S (Unit {0})) → Result Raised (Unit {0}) → Action S (Unit {0})
handle handler (ok _) r = (ok tt, r)
handle handler (err e) r = handler e r

unfoldable pub try_except :
    {S : Type 0} → Action S (Unit {0}) → (Raised → Action S (Unit {0})) → Action S (Unit {0})
unfolding handle
try_except m handler r = let (x, r') = m r in handle handler x r'

-- `try: m finally: k`: what `k` raises takes the place of what `m` did.
unfoldable pub after_finally :
    Result Raised (Unit {0}) → Result Raised (Unit {0}) → Result Raised (Unit {0})
after_finally x (ok _) = x
after_finally x (err e) = err e

unfoldable pub finally :
    {S : Type 0} → Action S (Unit {0}) → Action S (Unit {0}) → Action S (Unit {0})
unfolding after_finally
finally m k r = let (x, r') = m r in let (y, r'') = k r' in (after_finally x y, r'')
