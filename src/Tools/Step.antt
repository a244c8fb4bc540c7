-- ===== src/Tools/Step.antt =====
-- A member function as a step on its object and on the calls that were made so far: how it ends,
-- and what it leaves.
use cpp_client_rabbit_mq.Common.{Bool, true, false, Bytes, List, ◌∷◌, ◌≡◌, refl}

-- `raised` is a `std::runtime_error` with its text, `aborted` a failed `assert`.
pub data Ending {ℓ} (A : Type ℓ) : Type ℓ where
  returned : A → Ending A
  raised : Bytes → Ending A
  aborted : Ending A

-- The object, and the calls of foreign code, the newest first.
pub record State (S C : Type 0) : Type 0 where
  pub object : S
  pub calls : List C

abbrev pub Step : Type 0 → Type 0 → Type 0 → Type 0
Step S C A = State S C → Ending A × State S C

module _ {S C A : Type 0} where
  abbrev pub pure : A → Step S C A
  pure a s = (returned a, s)

  abbrev pub raise : Bytes → Step S C A
  raise message s = (raised message, s)

  -- Makes a call and takes its answer.
  abbrev pub invoke : C → (List C → A) → Step S C A
  invoke c answer s = (returned (answer (c ∷ s.calls)), record s { calls = c ∷ s.calls })

module _ {S C : Type 0} where
  abbrev pub this : Step S C S
  this s = (returned s.object, s)

  abbrev pub put : S → Step S C (Unit {0})
  put o s = (returned tt, record s { object = o })

  -- Makes a call and drops its answer.
  abbrev pub run : C → Step S C (Unit {0})
  run c s = (returned tt, record s { calls = c ∷ s.calls })

  -- assert( test )
  abbrev pub assert : Bool → Step S C (Unit {0})
  assert true s = (returned tt, s)
  assert false s = (aborted, s)

module _ {S C A B : Type 0} where
  abbrev pub continue : Ending A → (A → Step S C B) → Step S C B
  continue (returned a) f s = f a s
  continue (raised m) f s = (raised m, s)
  continue aborted f s = (aborted, s)

  infixl 10 ◌>>=◌ ◌>>◌
  abbrev pub ◌>>=◌ : Step S C A → (A → Step S C B) → Step S C B
  ◌>>=◌ m f s = let r = m s in continue r.0 f r.1

  abbrev pub ◌>>◌ : Step S C A → Step S C B → Step S C B
  m >> n = m >>= λ _. n

  continue-returned :
      (r : Ending A) (f : A → Step S C B) (s : State S C) {b : B}
      → (continue r f s).0 ≡ returned b
      → (a : A) × (r ≡ returned a) × (continue r f s ≡ f a s)
  continue-returned (returned a) f s h = (a, refl, refl)
  continue-returned (raised m) f s h = cc
  continue-returned aborted f s h = cc

  -- An action in front of another has returned where the whole returns.
  pub returned-bind :
      (m : Step S C A) (f : A → Step S C B) (s : State S C) {b : B}
      → ((m >>= f) s).0 ≡ returned b
      → (a : A) × ((m s).0 ≡ returned a) × ((m >>= f) s ≡ f a (m s).1)
  returned-bind m f s h = continue-returned (m s).0 f (m s).1 h
