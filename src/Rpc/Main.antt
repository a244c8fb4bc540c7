-- ===== src/Rpc/Main.antt =====
-- The `main` of both programs: the options of the command line, the setup, and the loop.
-- (src/rpc_server/Main.cpp, src/rpc_client/Main.cpp, `parseOptions` of
-- Modules/Tools/ProgramOptionsUtils.cpp)
pub mod Producing
pub mod Meeting
pub mod Conversation
pub mod Answered
use cpp_client_rabbit_mq.Common.{
  ℕ, zero, suc, ◌+◌, ◌%◌, ◌^◌, Bool, false, Bytes, List, [], ◌∷◌, codes, bytes_eq, ℤ, Option, none,
  some, ◌||◌, if◌then◌else◌, ◌==◌,
}
use cpp_client_rabbit_mq.Broker.Act.{Outcome, Act, pure, ◌>>=◌, ◌>>◌}
use cpp_client_rabbit_mq.Broker.Amqp.{Amqp}
use cpp_client_rabbit_mq.Rpc.Program.{Program}
use cpp_client_rabbit_mq.Rpc.Server.{serve}
use cpp_client_rabbit_mq.Rpc.Client.{Memory, call_once}
use cpp_client_rabbit_mq.Rpc.Setup.{
  Options, default_options, server_setup, client_setup, client_app_id,
}

-- The variables of `main` that an option is stored in.
pub data TextVariable : Type 0 where
  hostname_var exchange_type_var exchange_name_var consumer_queue_name_var routing_key_request_var
        routing_key_response_var :
      TextVariable

pub data NumberVariable : Type 0 where
  port_var ttl_expires_var : NumberVariable

-- The second argument of an option: `value(&variable)`, or nothing.
pub data Semantic : Type 0 where
  text_to : TextVariable → Semantic
  number_to : NumberVariable → Semantic
  flag : Semantic

abbrev pub Description : Type 0
Description = List (Bytes × Semantic)

abbrev pub server_description : Description
server_description =
    (codes "hostname,h", text_to hostname_var)
    ∷ (codes "port,p", number_to port_var)
    ∷ (codes "exchange_type,t", text_to exchange_type_var)
    ∷ (codes "exchange_name,n", text_to exchange_name_var)
    ∷ (codes "consumerQueueName,q", text_to consumer_queue_name_var)
    ∷ (codes "routing_key_request,s", text_to routing_key_request_var)
    ∷ (codes "routing_key_response,r", text_to routing_key_response_var)
    ∷ (codes "timeToLive-expires,e", number_to ttl_expires_var)
    ∷ (codes "help,h", flag)
    ∷ []

-- `appId` is stored in the variable of a key.
abbrev pub client_description : Description
client_description =
    (codes "hostname,h", text_to hostname_var)
    ∷ (codes "port,p", number_to port_var)
    ∷ (codes "exchange_type,t", text_to exchange_type_var)
    ∷ (codes "exchange_name,n", text_to exchange_name_var)
    ∷ (codes "consumerQueueName,q", text_to consumer_queue_name_var)
    ∷ (codes "routing_key_request,s", text_to routing_key_request_var)
    ∷ (codes "routing_key_response,r", text_to routing_key_response_var)
    ∷ (codes "appId,r", text_to routing_key_response_var)
    ∷ (codes "timeToLive-expires,e", number_to ttl_expires_var)
    ∷ (codes "help,h", flag)
    ∷ []

-- The library that reads the options: what it makes of a command line, where `none` is an
-- exception; the values it then stores in the variables; and how often an option was given.
pub record OptionLibrary : Type 1 where
  pub VariablesMap : Type 0
  pub store : Description → List Bytes → Option VariablesMap
  pub notify : VariablesMap → Options → Options
  pub count : VariablesMap → Bytes → ℕ

-- The call of `store`, and then that of `notify`.
unfoldable pub parse_options :
    (library : OptionLibrary)
    → Description
    → List Bytes
    → Options
    → Option (library.VariablesMap × Options)
parse_options library description arguments o = elim (library.store description arguments) [
  | none ↦ none
  | some vm ↦ some (vm, library.notify vm o)
]

-- How `main` ends: with the exception of the library, after the help, or as its clients do.
pub data Run (A : Type 0) : Type 0 where
  refused : Run A
  helped : Run A
  ran : Outcome A → Run A

-- The part that both have in front of their clients.
unfoldable pub with_options :
    {A : Type 0}
    → OptionLibrary
    → Description
    → List Bytes
    → (Options → Act Program A)
    → Program
    → Run A × Program
unfolding parse_options
with_options library description arguments act p =
    elim (parse_options library description arguments default_options) [
      | none ↦ (refused, p)
      | some (vm, o) ↦
          if library.count vm (codes "help") == 0
          then (let r = act o p in (ran r.0, r.1))
          else (helped, p)
    ]

module _ (amqp : Amqp) (library : OptionLibrary) (arguments : List Bytes) where
  -- With the first rounds of the loop.
  unfoldable pub server_main : (rounds : ℕ) → Program → Run (Unit {0}) × Program
  unfolding with_options
  server_main rounds =
      with_options library server_description arguments
        (λ o. server_setup amqp o >> serve amqp o.ttl_expires rounds)

-- The first rounds of the client's loop, with fuel for the messages that each waits for; `none`
-- means that the fuel ran out.
unfoldable pub call_loop :
    Amqp
    → Memory
    → (fuel : ℕ) → ℤ
    → (own_key app_id : Bytes) → (rounds sequence : ℕ) → Act Program (Option (Unit {0}))
call_loop amqp mem fuel ttl own_key app_id zero sequence = pure (some tt)
call_loop amqp mem fuel ttl own_key app_id (suc rounds) sequence = do
  found ← call_once amqp mem fuel ttl own_key app_id sequence
  let rest = call_loop amqp mem fuel ttl own_key app_id rounds ((sequence + 1) % 2 ^ 64)
  elim found [ none ↦ pure none | some e ↦ rest ]

module _ (amqp : Amqp) (mem : Memory) (library : OptionLibrary) (arguments : List Bytes)
    (own : Bytes) where
  unfoldable pub client_main : (fuel rounds : ℕ) → Program → Run (Option (Unit {0})) × Program
  unfolding with_options call_loop
  client_main fuel rounds = with_options library client_description arguments (λ o.
      client_setup amqp own o
      >> call_loop amqp mem fuel o.ttl_expires o.routing_key_response (client_app_id own o) rounds
          0)
