-- ===== src/Web/Sessions/Refinement.antt =====
-- The exchange with its sessions does what the operations on the subscriptions say.
use cpp_client_rabbit_mq.Common.{Bytes, List, [], Option, none, some}
use cpp_client_rabbit_mq.Web.Exchange.{Action, ClientExchange, subscribe, unsubscribe, stop}
use cpp_client_rabbit_mq.Web.Session.{Session}
use cpp_client_rabbit_mq.Web.Sessions.{
  Sessions, Exchange, symbols_of, ◌⟹◌, subscribes, unsubscribes, unsubscribed, stops, asks, joins,
  clears, works,
}

-- The subscriptions that an exchange stands for.
abbrev pub client_of : List Action → Exchange → ClientExchange
client_of actions w = record { subscriptions = symbols_of w.sessions; actions = actions }

abbrev pub subscriptions_of : Option ClientExchange → Option (List Bytes)
subscriptions_of none = none
subscriptions_of (some c) = some c.subscriptions

-- What a step is on the subscriptions alone. `none` is the assertion of `subscribe`.
abbrev pub effect : {w v : Exchange} → w ⟹ v → ClientExchange → Option (List Bytes)
effect (subscribes k w p q) c = subscriptions_of (subscribe k [] c)
effect (unsubscribes k s w p q) c = some c.subscriptions
effect (unsubscribed k s w p q e) c = some (unsubscribe k c).subscriptions
effect (stops w p) c = some c.subscriptions
effect (asks k ks s w p q) c = some c.subscriptions
effect (joins k ks s w p q e) c = some c.subscriptions
effect (clears w p) c = some (stop c).subscriptions
effect (works k s t w q e r) c = some c.subscriptions
