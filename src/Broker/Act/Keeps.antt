-- ===== src/Broker/Act/Keeps.antt =====
-- Invariants of actions, one rule for each way to build an action.
use cpp_client_rabbit_mq.Common.{Bool, true, false, Option, none, some}
use cpp_client_rabbit_mq.Broker.Act.{
  Outcome, returned, threw, exited, aborted, faulted, Act, pure, finish, deref, assert, continue,
  ◌>>=◌,
}

-- `m` keeps `P` of the state, however it ends.
pub record Keeps {ℓ} {S A : Type ℓ} (P : S → Type ℓ) (m : Act S A) : Type ℓ where
  pub at : (s : S) → P s → P (m s).1

module _ {ℓ} {S A : Type ℓ} {P : S → Type ℓ} where
  pub Keeps-pure : (a : A) → Keeps P (pure a)
  Keeps-pure a = record { at = λ s h. h }

  pub Keeps-finish : (r : Outcome A) → Keeps P (finish r)
  Keeps-finish r = record { at = λ s h. h }

  pub Keeps-deref : (o : Option A) → Keeps P (deref o)
  Keeps-deref none = record { at = λ s h. h }
  Keeps-deref (some a) = record { at = λ s h. h }

module _ {ℓ} {S A B : Type ℓ} {P : S → Type ℓ} where
  Keeps-continue :
      (r : Outcome A) (f : A → Act S B)
      → ((a : A) → Keeps P (f a))
      → (s : S) → P s
      → P (continue r f s).1
  Keeps-continue (returned a) f kf s h = (kf a).at s h
  Keeps-continue (threw e) f kf s h = h
  Keeps-continue (exited d) f kf s h = h
  Keeps-continue aborted f kf s h = h
  Keeps-continue faulted f kf s h = h

  pub Keeps-bind :
      (m : Act S A) (f : A → Act S B) → Keeps P m → ((a : A) → Keeps P (f a)) → Keeps P (m >>= f)
  Keeps-bind m f km kf = record { at = λ s h. Keeps-continue (m s).0 f kf (m s).1 (km.at s h) }

pub Keeps-assert : {S : Type 0} {P : S → Type 0} (b : Bool) → Keeps P (assert {S = S} b)
Keeps-assert true = record { at = λ s h. h }
Keeps-assert false = record { at = λ s h. h }

pub ruleset keeps_rules = (Keeps-pure, Keeps-finish, Keeps-deref, Keeps-assert, Keeps-bind)
