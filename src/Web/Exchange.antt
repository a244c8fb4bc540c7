-- ===== src/Web/Exchange.antt =====
-- The exchange client: one session per symbol.
-- (include/Web/ClientExchange.h, Modules/Web/ClientExchange.cpp; the console is left out)
pub mod Tracking
use cpp_client_rabbit_mq.Common.{
  Bool, true, false, ◌||◌, not, Bytes, List, [], ◌∷◌, Option, some, none, bytes_eq, if◌then◌else◌,
}

-- What was done to the session of a symbol.
pub data Action : Type 0 where
  started : (symbol target : Bytes) → Action
  stopped : (symbol : Bytes) → Action

-- The keys of `_cryptoCurrencySubscriptions`, and what was done to the sessions, the newest first.
pub record ClientExchange : Type 0 where
  pub subscriptions : List Bytes
  pub actions : List Action

abbrev pub fresh_exchange : ClientExchange
fresh_exchange = record { subscriptions = []; actions = [] }

-- find(symbol) != end()
abbrev pub has_symbol : Bytes → List Bytes → Bool
has_symbol symbol [] = false
has_symbol symbol (k ∷ ks) = bytes_eq k symbol || has_symbol symbol ks

-- erase(symbol)
abbrev pub erase : Bytes → List Bytes → List Bytes
erase symbol [] = []
erase symbol (k ∷ ks) = let rest = erase symbol ks in if bytes_eq k symbol then rest else k ∷ rest

-- `none` is the assertion that fails for a symbol that is there already.
unfoldable pub subscribe : (symbol target : Bytes) → ClientExchange → Option ClientExchange
subscribe symbol target c =
    if has_symbol symbol c.subscriptions
    then none
    else some (record {
      subscriptions = symbol ∷ c.subscriptions;
      actions = Action.started symbol target ∷ c.actions;
    })

unfoldable pub unsubscribe : (symbol : Bytes) → ClientExchange → ClientExchange
unsubscribe symbol c =
    if has_symbol symbol c.subscriptions
    then record {
      subscriptions = erase symbol c.subscriptions;
      actions = Action.stopped symbol ∷ c.actions;
    }
    else c

-- The loop of `stop` over the map.
stop_all : List Bytes → List Action → List Action
stop_all [] actions = actions
stop_all (k ∷ ks) actions = stop_all ks (Action.stopped k ∷ actions)

-- `stop`, which the destructor calls too
unfoldable pub stop : ClientExchange → ClientExchange
unfolding stop_all
stop c = record { subscriptions = []; actions = stop_all c.subscriptions c.actions }

-- WebSocketMessageReceived: the call of the callback, if there is one.
abbrev pub web_socket_message_received :
    (callback : Option (Bytes × Bytes → Bytes)) (session_name json_result : Bytes) → Option Bytes
web_socket_message_received none session_name json_result = none
web_socket_message_received (some f) session_name json_result = some (f (session_name, json_result))
