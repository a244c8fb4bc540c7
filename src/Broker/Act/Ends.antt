-- ===== src/Broker/Act/Ends.antt =====
-- How an action may end: a condition on each regular end, and no failed assertion or null pointer.
use cpp_client_rabbit_mq.Common.{◌≡◌}
use cpp_client_rabbit_mq.Broker.Act.{
  Outcome, returned, threw, exited, aborted, faulted, BrokerException, Act, continue, ◌>>=◌,
}

module _ {S A : Type 0} where
  -- `P` holds of a result, `Q` of an exception; `exit(1)` is allowed.
  abbrev pub Ends : (A → S → Type 0) → (BrokerException → S → Type 0) → Outcome A → S → Type 0
  Ends P Q (returned a) s = P a s
  Ends P Q (threw e) s = Q e s
  Ends P Q (exited d) s = Unit {0}
  Ends P Q aborted s = ⊥
  Ends P Q faulted s = ⊥

module _ {S A B : Type 0} where
  Ends-continue :
      (P : B → S → Type 0) (Q : BrokerException → S → Type 0) (R : A → S → Type 0) (r : Outcome A)
      (f : A → Act S B) (s : S)
      → Ends R Q r s
      → ((a : A) (t : S) → R a t → Ends P Q (f a t).0 (f a t).1)
      → Ends P Q (continue r f s).0 (continue r f s).1
  Ends-continue P Q R (returned a) f s h k = k a s h
  Ends-continue P Q R (threw e) f s h k = h
  Ends-continue P Q R (exited d) f s h k = h
  Ends-continue P Q R aborted f s h k = h
  Ends-continue P Q R faulted f s h k = h

  -- A condition on the first action's end is what the second may start from.
  pub Ends-bind :
      (P : B → S → Type 0) (Q : BrokerException → S → Type 0) (R : A → S → Type 0) (m : Act S A)
      (f : A → Act S B) (s : S)
      → Ends R Q (m s).0 (m s).1
      → ((a : A) (t : S) → R a t → Ends P Q (f a t).0 (f a t).1)
      → Ends P Q ((m >>= f) s).0 ((m >>= f) s).1
  Ends-bind P Q R m f s h k = Ends-continue P Q R (m s).0 f (m s).1 h k

module _ {S A : Type 0} where
  pub Ends-threw :
      (P : A → S → Type 0) (Q : BrokerException → S → Type 0) (r : Outcome A) (s : S)
      {e : BrokerException}
      → Ends P Q r s
      → r ≡ threw e
      → Q e s
  Ends-threw P Q r s h k = rw k at h
