-- ===== src/Broker/Act.antt =====
-- How a C++ function of the broker module ends, and the actions that the methods are made of.
-- (include/Broker/MessageBrokerException.hpp)
pub mod Ends
pub mod Keeps
use mathlib.Core.Path.{◌≡◌, refl}
use cpp_client_rabbit_mq.Common.{ℕ, Bool, true, false, Option, none, some, String, ℤ, Bytes}

-- The two exceptions that `DECL_EXCEPTION_BROKER` declares.
pub data BrokerException : Type 0 where
  create_socket open_socket : BrokerException

-- The argument of the constructor of `MessageBrokerException`.
abbrev pub what : BrokerException → String
what create_socket = "Creating TCP socket"
what open_socket = "Opening TCP socket"

-- The line that is printed to stderr before `exit(1)`, with what it shows.
pub data Diagnostic : Type 0 where
  missing_reply : String → Diagnostic
  library_error : String → ℤ → Diagnostic
  server_connection_error : String → ℕ → Bytes → Diagnostic
  server_channel_error : String → ℕ → Bytes → Diagnostic
  unknown_server_error : String → ℕ → Diagnostic

-- `aborted` is a failed `assert`, `faulted` a use of a null pointer.
pub data Outcome {ℓ} (A : Type ℓ) : Type ℓ where
  returned : A → Outcome A
  threw : BrokerException → Outcome A
  exited : Diagnostic → Outcome A
  aborted : Outcome A
  faulted : Outcome A

-- What was done before an action ended otherwise stays done.
abbrev pub Act {ℓ} : Type ℓ → Type ℓ → Type ℓ
Act S A = S → Outcome A × S

module _ {ℓ} {S A : Type ℓ} where
  abbrev pub pure : A → Act S A
  pure a s = (returned a, s)

  abbrev pub finish : Outcome A → Act S A
  finish r s = (r, s)

  -- *ptr
  abbrev pub deref : Option A → Act S A
  deref none s = (faulted, s)
  deref (some a) s = (returned a, s)

-- assert( test )
abbrev pub assert : {S : Type 0} → Bool → Act S (Unit {0})
assert true s = (returned tt, s)
assert false s = (aborted, s)

module _ {ℓ} {S A B : Type ℓ} where
  abbrev pub continue : Outcome A → (A → Act S B) → Act S B
  continue (returned a) f s = f a s
  continue (threw e) f s = (threw e, s)
  continue (exited d) f s = (exited d, s)
  continue aborted f s = (aborted, s)
  continue faulted f s = (faulted, s)

  infixl 10 ◌>>=◌ ◌>>◌
  abbrev pub ◌>>=◌ : Act S A → (A → Act S B) → Act S B
  ◌>>=◌ m f s = let r = m s in continue r.0 f r.1

  abbrev pub ◌>>◌ : Act S A → Act S B → Act S B
  m >> n = m >>= λ _. n

  -- An action in front of another has returned where the whole returns.
  returned-continue :
      (r : Outcome A) (f : A → Act S B) (s : S) {b : B}
      → (continue r f s).0 ≡ returned b
      → (a : A) × (r ≡ returned a) × (continue r f s ≡ f a s)
  returned-continue (returned a) f s h = (a, refl, refl)
  returned-continue (threw e) f s h = cc
  returned-continue (exited d) f s h = cc
  returned-continue aborted f s h = cc
  returned-continue faulted f s h = cc

  pub returned-bind :
      (m : Act S A) (f : A → Act S B) (s : S) {b : B}
      → ((m >>= f) s).0 ≡ returned b
      → (a : A) × ((m s).0 ≡ returned a) × ((m >>= f) s ≡ f a (m s).1)
  returned-bind m f s h = returned-continue (m s).0 f (m s).1 h

  continue-returned :
      (r : Outcome A) (f : A → Act S B) (s : S) {a : A} → r ≡ returned a → continue r f s ≡ f a s
  continue-returned r f s h = rw h

  -- Where both actions return, the whole returns.
  pub bind-returned :
      (m : Act S A) (f : A → Act S B) (s : S) {a : A} {b : B}
      → (m s).0 ≡ returned a
      → (f a (m s).1).0 ≡ returned b
      → ((m >>= f) s).0 ≡ returned b
  bind-returned m f s h k = rw (continue-returned (m s).0 f (m s).1 h) k

  -- Where the first action throws, the second is not reached.
  pub bind-threw :
      (m : Act S A) (f : A → Act S B) (s : S) {e : BrokerException}
      → (m s).0 ≡ threw e
      → (m >>= f) s ≡ (threw e, (m s).1)
  bind-threw m f s h = rw (h, continue)
