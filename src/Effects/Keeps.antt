-- ===== src/Effects/Keeps.antt =====
-- Facts about the state that an action keeps, one rule for each way to build an action.
use avbox.Prelude.{Bool, List, [], ◌∷◌, if◌then◌else◌, if_both, Result, ok, err}
use avbox.Effects.{
  Raised, Action, pure, raise, lift, gets, continue, ◌>>=◌, ◌>>◌, for_each, handle, try_except,
  finally,
}

-- `m` keeps `P`, whether it returns or raises.
pub record Keeps {ℓ} {S : Type 0} {A : Type ℓ} (P : S → Type 0) (m : Action S A) : Type ℓ where
  pub at : (r : S) → P r → P (m r).1

module _ {ℓ} {A : Type ℓ} {S : Type 0} {P : S → Type 0} where
  pub Keeps-pure : (a : A) → Keeps P (pure a)
  unfolding pure
  Keeps-pure a = record { at = λ r h. h }

  pub Keeps-raise : (e : Raised) → Keeps P (raise {A = A} e)
  unfolding raise
  Keeps-raise e = record { at = λ r h. h }

  pub Keeps-lift : (x : Result Raised A) → Keeps P (lift x)
  unfolding lift
  Keeps-lift x = record { at = λ r h. h }

  pub Keeps-gets : (f : S → A) → Keeps P (gets f)
  unfolding gets
  Keeps-gets f = record { at = λ r h. h }

  pub Keeps-if :
      (b : Bool) (m n : Action S A) → Keeps P m → Keeps P n → Keeps P (if b then m else n)
  Keeps-if b m n = if_both (Keeps P) b

module _ {ℓ κ} {A : Type ℓ} {B : Type κ} {S : Type 0} {P : S → Type 0} where
  Keeps-continue :
      (f : A → Action S B) (x : Result Raised A) (r : S)
      → ((a : A) → Keeps P (f a))
      → P r
      → P (continue f x r).1
  unfolding continue
  Keeps-continue f (ok a) r kf h = (kf a).at r h
  Keeps-continue f (err e) r kf h = h

  pub Keeps-bind :
      (m : Action S A) (f : A → Action S B)
      → Keeps P m
      → ((a : A) → Keeps P (f a))
      → Keeps P (m >>= f)
  unfolding ◌>>=◌
  Keeps-bind m f km kf = record {
    at = λ r h. let (x, r') = m r in Keeps-continue f x r' kf (km.at r h);
  }

module _ {κ} {B : Type κ} {S : Type 0} {P : S → Type 0} where
  pub Keeps-then :
      (m : Action S (Unit {0})) (k : Action S B) → Keeps P m → Keeps P k → Keeps P (m >> k)
  unfolding ◌>>◌
  Keeps-then m k km kk = Keeps-bind m (λ _. k) km (λ _. kk)

module _ {ℓ} {A : Type ℓ} {S : Type 0} {P : S → Type 0} where
  pub Keeps-for_each :
      (xs : List A) (body : A → Action S (Unit {0}))
      → ((a : A) → Keeps P (body a))
      → Keeps P (for_each xs body)
  unfolding for_each
  Keeps-for_each [] body kb = Keeps-pure tt
  Keeps-for_each (x ∷ xs) body kb =
      Keeps-then (body x) (for_each xs body) (kb x) (Keeps-for_each xs body kb)

module _ {S : Type 0} {P : S → Type 0} where
  Keeps-handle :
      (handler : Raised → Action S (Unit {0})) (x : Result Raised (Unit {0})) (r : S)
      → ((e : Raised) → Keeps P (handler e))
      → P r
      → P (handle handler x r).1
  unfolding handle
  Keeps-handle handler (ok _) r kh h = h
  Keeps-handle handler (err e) r kh h = (kh e).at r h

  pub Keeps-try_except :
      (m : Action S (Unit {0})) (handler : Raised → Action S (Unit {0}))
      → Keeps P m
      → ((e : Raised) → Keeps P (handler e))
      → Keeps P (try_except m handler)
  unfolding try_except
  Keeps-try_except m handler km kh = record {
    at = λ r h. let (x, r') = m r in Keeps-handle handler x r' kh (km.at r h);
  }

  pub Keeps-finally : (m k : Action S (Unit {0})) → Keeps P m → Keeps P k → Keeps P (finally m k)
  unfolding finally
  Keeps-finally m k km kk = record { at = λ r h. kk.at (m r).1 (km.at r h) }

pub ruleset keeps_rules = (
  Keeps-pure, Keeps-raise, Keeps-lift, Keeps-gets, Keeps-if, Keeps-bind, Keeps-then, Keeps-for_each,
  Keeps-try_except, Keeps-finally,
)
