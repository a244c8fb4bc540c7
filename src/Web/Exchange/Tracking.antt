-- ===== src/Web/Exchange/Tracking.antt =====
-- The subscriptions are the sessions that run.
use cpp_client_rabbit_mq.Common.{
  ◌≡◌, refl, Bool, true, false, Bytes, List, [], ◌∷◌, Option, some, none, bytes_eq, bytes_eq_iff,
  Bool-cases, inl, inr, if◌then◌else◌, arith,
}
use cpp_client_rabbit_mq.Web.Exchange.{
  Action, started, stopped, ClientExchange, has_symbol, erase, subscribe, unsubscribe, stop_all,
  stop,
}

-- The session of the symbol was started and not stopped since.
abbrev pub is_running : Bytes → List Action → Bool
is_running symbol [] = false
is_running symbol (started k target ∷ actions) =
    if bytes_eq k symbol then true else is_running symbol actions
is_running symbol (stopped k ∷ actions) =
    if bytes_eq k symbol then false else is_running symbol actions

-- The sessions that run are those of the symbols that are subscribed.
abbrev pub IsTracked : ClientExchange → Type 0
IsTracked c = (symbol : Bytes) → is_running symbol c.actions ≡ has_symbol symbol c.subscriptions

pub bytes_eq-same :
    (k symbol other : Bytes) → bytes_eq k symbol ≡ true → bytes_eq k other ≡ bytes_eq symbol other
bytes_eq-same k symbol other h = rw ((bytes_eq_iff k symbol).0 h) refl

pub bytes_eq-other :
    (k symbol other : Bytes) → bytes_eq symbol other ≡ true → bytes_eq k symbol ≡ bytes_eq k other
bytes_eq-other k symbol other h = rw ((bytes_eq_iff symbol other).0 h) refl

has_symbol-erase :
    (symbol other : Bytes) (ks : List Bytes)
    → has_symbol other (erase symbol ks)
      ≡ (if bytes_eq symbol other then false else has_symbol other ks)
has_symbol-erase symbol other [] = ground arith
has_symbol-erase symbol other (k ∷ ks) = ground (
  arith,
  has_symbol-erase symbol other ks,
  bytes_eq-same k symbol other,
  bytes_eq-other k symbol other,
)

is_running-stop_all :
    (symbol : Bytes) (ks : List Bytes) (actions : List Action)
    → is_running symbol (stop_all ks actions)
      ≡ (if has_symbol symbol ks then false else is_running symbol actions)
unfolding stop_all
is_running-stop_all symbol [] actions = refl
is_running-stop_all symbol (k ∷ ks) actions =
    ground (arith, is_running-stop_all symbol ks (stopped k ∷ actions))

-- What holds of the exchange after an operation that may fail its assertion.
abbrev pub IsTrackedAfter : Option ClientExchange → Type 0
IsTrackedAfter none = Unit {0}
IsTrackedAfter (some c) = IsTracked c

subscribe-IsTracked :
    (symbol target : Bytes) (c : ClientExchange)
    → IsTracked c
    → IsTrackedAfter (subscribe symbol target c)
unfolding subscribe
subscribe-IsTracked symbol target c h = elim (Bool-cases (has_symbol symbol c.subscriptions)) [
  | inl e ↦ rw e tt
  | inr e ↦ rw e (λ other. ground (arith, h other))
]

-- All operations keep the subscriptions and the running sessions together, so that none runs
-- unknown to the exchange: subscribing, where the assertion holds, unsubscribing a symbol that is
-- there or not, and stopping, after which no session runs.
pub operations-IsTracked :
    (symbol target : Bytes) (c : ClientExchange)
    → IsTracked c
    → IsTrackedAfter (subscribe symbol target c)
      × IsTracked (unsubscribe symbol c)
      × ((other : Bytes) → is_running other (stop c).actions ≡ false)
unfolding unsubscribe stop
operations-IsTracked symbol target c h = (
  subscribe-IsTracked symbol target c h,
  λ other. ground (arith, h other, has_symbol-erase symbol other c.subscriptions),
  λ other. ground (arith, h other, is_running-stop_all other c.subscriptions c.actions),
)
