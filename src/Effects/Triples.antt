-- ===== src/Effects/Triples.antt =====
-- Where a statement leads: what holds of its value and the state after it, and of the state where it
-- raises.
use avbox.Prelude.{◌≡◌, refl, Bool, true, false, if◌then◌else◌, Result, ok, err}
use avbox.Effects.{Raised, Action, pure, raise, gets, continue, ◌>>=◌, ◌>>◌}

module _ {S A : Type 0} where
  unfoldable pub Outcome : (A → S → Type 0) → (S → Type 0) → Result Raised A → S → Type 0
  Outcome Q E (ok a) s = Q a s
  Outcome Q E (err e) s = E s

  pub record Leads (Q : A → S → Type 0) (E : S → Type 0) (m : Action S A) (s : S) : Type 0 where
    pub outcome : Outcome Q E (m s).0 (m s).1

  pub Leads-pure :
      (Q : A → S → Type 0) (E : S → Type 0) (a : A) (s : S) → Q a s → Leads Q E (pure a) s
  unfolding Outcome pure
  Leads-pure Q E a s h = record { outcome = h }

  pub Leads-raise :
      (Q : A → S → Type 0) (E : S → Type 0) (e : Raised) (s : S) → E s → Leads Q E (raise e) s
  unfolding Outcome raise
  Leads-raise Q E e s h = record { outcome = h }

  pub Leads-gets :
      (Q : A → S → Type 0) (E : S → Type 0) (f : S → A) (s : S) → Q (f s) s → Leads Q E (gets f) s
  unfolding Outcome gets
  Leads-gets Q E f s h = record { outcome = h }

  Outcome-mono :
      {Q R : A → S → Type 0} {E F : S → Type 0} (x : Result Raised A) (s : S)
      → Outcome Q E x s
      → ((a : A) (s' : S) → Q a s' → R a s')
      → ((s' : S) → E s' → F s')
      → Outcome R F x s
  unfolding Outcome
  Outcome-mono (ok a) s h f g = f a s h
  Outcome-mono (err e) s h f g = g s h

  pub Leads-mono :
      {Q R : A → S → Type 0} {E F : S → Type 0} {m : Action S A} {s : S}
      → Leads Q E m s
      → ((a : A) (s' : S) → Q a s' → R a s')
      → ((s' : S) → E s' → F s')
      → Leads R F m s
  Leads-mono {m = m} {s = s} h f g = record { outcome = Outcome-mono (m s).0 (m s).1 h.outcome f g }

  pub Leads-if :
      {Q : A → S → Type 0} {E : S → Type 0} (b : Bool) {m n : Action S A} {s : S}
      → (b ≡ true → Leads Q E m s)
      → (b ≡ false → Leads Q E n s)
      → Leads Q E (if b then m else n) s
  Leads-if true h k = h refl
  Leads-if false h k = k refl

  -- What a run that did not raise, or did, has.
  pub Leads-ok :
      {Q : A → S → Type 0} {E : S → Type 0} {m : Action S A} {s : S} (a : A) (s' : S)
      → Leads Q E m s
      → m s ≡ (ok a, s')
      → Q a s'
  unfolding Outcome
  Leads-ok a s' h e = rw e at h.outcome

  pub Leads-err :
      {Q : A → S → Type 0} {E : S → Type 0} {m : Action S A} {s : S} (e : Raised) (s' : S)
      → Leads Q E m s
      → m s ≡ (err e, s')
      → E s'
  unfolding Outcome
  Leads-err e s' h k = rw k at h.outcome

module _ {S A B : Type 0} {Q : A → S → Type 0} {R : B → S → Type 0} {E : S → Type 0} where
  Outcome-continue :
      (f : A → Action S B) (x : Result Raised A) (s : S)
      → Outcome Q E x s
      → ((a : A) (s' : S) → Q a s' → Leads R E (f a) s')
      → Outcome R E (continue f x s).0 (continue f x s).1
  unfolding Outcome continue
  Outcome-continue f (ok a) s h k = (k a s h).outcome
  Outcome-continue f (err e) s h k = h

  -- One statement after another.
  pub Leads-bind :
      {m : Action S A} (f : A → Action S B) (s : S)
      → Leads Q E m s
      → ((a : A) (s' : S) → Q a s' → Leads R E (f a) s')
      → Leads R E (m >>= f) s
  unfolding ◌>>=◌
  Leads-bind {m} f s h k = record { outcome = Outcome-continue f (m s).0 (m s).1 h.outcome k }

module _ {S B : Type 0} {Q : S → Type 0} {R : B → S → Type 0} {E : S → Type 0} where
  pub Leads-then :
      {m : Action S (Unit {0})} (k : Action S B) (s : S)
      → Leads (λ _. Q) E m s
      → ((s' : S) → Q s' → Leads R E k s')
      → Leads R E (m >> k) s
  unfolding ◌>>◌
  Leads-then k s h g = Leads-bind (λ _. k) s h (λ _. g)
