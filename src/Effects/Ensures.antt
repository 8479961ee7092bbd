-- ===== src/Effects/Ensures.antt =====
-- Postconditions of actions: what holds of the value, if the action returns one.
use fac_lpr_engine.Prelude.{◌≡◌, refl, subst}
use fac_lpr_engine.Effects.{
  Outcome, returns, throws, Exception, Action, pure, throw, lift, resume, ◌>>=◌, settle, attempt,
}

pub record Ensures {W A : Type 0} (Q : A → Type 0) (m : Action W A) : Type 0 where
  pub returned : (w w' : W) (a : A) → m w ≡ (returns a, w') → Q a

-- A call that was made in some world, and what it returned there.
pub record Returned {W A : Type 0} (m : Action W A) (a : A) : Type 0 where
  pub before : W
  pub after : W
  pub ran : m before ≡ (returns a, after)

abbrev Holds : {W A : Type 0} → (A → Type 0) → Outcome A × W → Type 0
Holds Q (returns a, w) = Q a
Holds Q (throws e, w) = Unit

module _ {W A : Type 0} {Q : A → Type 0} where
  pub from_Holds : (m : Action W A) → ((w : W) → Holds Q (m w)) → Ensures Q m
  from_Holds m h = record {
    returned = λ w w' a e. subst (λ (r : Outcome A × W). Holds Q r) e (h w);
  }

  Holds-outcome : (r : Outcome A × W) → ((w' : W) (a : A) → r ≡ (returns a, w') → Q a) → Holds Q r
  Holds-outcome (returns a, w) h = h w a refl
  Holds-outcome (throws e, w) h = tt

  pub Holds-run : (m : Action W A) → Ensures Q m → (w : W) → Holds Q (m w)
  Holds-run m h w = Holds-outcome (m w) (h.returned w)

  pub Ensures-pure : (a : A) → Q a → Ensures {W = W} Q (pure a)
  unfolding pure
  Ensures-pure a h = from_Holds (pure a) (λ w. h)

  pub Ensures-throw : (e : Exception) → Ensures {W = W} Q (throw e)
  unfolding throw
  Ensures-throw e = from_Holds (throw e) (λ w. tt)

  pub Ensures-lift : (r : Outcome A) → ((a : A) → r ≡ returns a → Q a) → Ensures {W = W} Q (lift r)
  unfolding lift
  Ensures-lift (returns a) h = from_Holds (lift (returns a)) (λ w. h a refl)
  Ensures-lift (throws e) h = from_Holds (lift (throws e)) (λ w. tt)

  pub Ensures-both :
      {P : A → Type 0} (m : Action W A) → Ensures P m → Ensures Q m → Ensures (λ a. P a × Q a) m
  Ensures-both m h g = record { returned = λ w w' a e. (h.returned w w' a e, g.returned w w' a e) }

  pub Ensures-weaken :
      {P : A → Type 0} (m : Action W A) → Ensures P m → ((a : A) → P a → Q a) → Ensures Q m
  Ensures-weaken m h k = record { returned = λ w w' a e. k a (h.returned w w' a e) }

  pub Ensures-Returned : (m : Action W A) → ((a : A) → Returned m a → Q a) → Ensures Q m
  Ensures-Returned m h = record {
    returned = λ w w' a e. h a (record { before = w; after = w'; ran = e });
  }

module _ {W A B : Type 0} {Q : B → Type 0} where
  resume-Holds :
      (P : A → Type 0) (f : A → Action W B) (r : Outcome A × W)
      → Holds P r
      → ((a : A) → P a → Ensures Q (f a))
      → Holds Q (resume f r)
  unfolding resume
  resume-Holds P f (returns a, w) h k = Holds-run (f a) (k a h) w
  resume-Holds P f (throws e, w) h k = tt

  -- The rest of a block may use what its first action ensures.
  pub Ensures-bind :
      (P : A → Type 0) (m : Action W A) (f : A → Action W B)
      → Ensures P m
      → ((a : A) → P a → Ensures Q (f a))
      → Ensures Q (m >>= f)
  unfolding ◌>>=◌
  Ensures-bind P m f h k = from_Holds (m >>= f) (λ w. resume-Holds P f (m w) (Holds-run m h w) k)

  pub Ensures-then :
      (m : Action W A) (f : A → Action W B) → ((a : A) → Ensures Q (f a)) → Ensures Q (m >>= f)
  Ensures-then m f k =
      Ensures-bind (λ _. Unit {0}) m f (record { returned = λ _ _ _ _. tt }) (λ a _. k a)

  -- The rest of a block may use that its first action returned the value.
  pub Ensures-call :
      (m : Action W A) (f : A → Action W B)
      → ((a : A) → Returned m a → Ensures Q (f a))
      → Ensures Q (m >>= f)
  Ensures-call m f k = Ensures-bind (Returned m) m f (Ensures-Returned m (λ a r. r)) k

  settle-Holds :
      (P : A → Type 0) (handler : Outcome A → Action W B) (r : Outcome A × W)
      → Holds P r
      → ((a : A) → P a → Ensures Q (handler (returns a)))
      → ((e : Exception) → Ensures Q (handler (throws e)))
      → Holds Q (settle handler r)
  unfolding settle
  settle-Holds P handler (returns a, w) h k x = Holds-run (handler (returns a)) (k a h) w
  settle-Holds P handler (throws e, w) h k x = Holds-run (handler (throws e)) (x e) w

  pub Ensures-attempt :
      (P : A → Type 0) (m : Action W A) (handler : Outcome A → Action W B)
      → Ensures P m
      → ((a : A) → P a → Ensures Q (handler (returns a)))
      → ((e : Exception) → Ensures Q (handler (throws e)))
      → Ensures Q (attempt m handler)
  unfolding attempt
  Ensures-attempt P m handler h k x =
      from_Holds (attempt m handler) (λ w. settle-Holds P handler (m w) (Holds-run m h w) k x)
