-- ===== src/Broker/Errors/Laws.antt =====
-- Which answers let the caller go on, and what the others print.
use cpp_client_rabbit_mq.Common.{◌≡◌, ◌↔◌, ◌⊎◌, Option, none, some, String, arith}
use cpp_client_rabbit_mq.Broker.Act.{
  Outcome, returned, exited, Diagnostic, missing_reply, library_error, server_connection_error,
  server_channel_error, unknown_server_error,
}
use cpp_client_rabbit_mq.Broker.Amqp.{RpcReply, normal}
use cpp_client_rabbit_mq.Broker.Errors.{die_on_amqp_error}

-- What the line begins with.
abbrev pub context_of : Diagnostic → String
context_of (missing_reply c) = c
context_of (library_error c x) = c
context_of (server_connection_error c n t) = c
context_of (server_channel_error c n t) = c
context_of (unknown_server_error c n) = c

-- The context that is printed before the process ends, if it ends.
abbrev pub printed_context : Outcome (Unit {0}) → Option String
printed_context (exited d) = some (context_of d)
printed_context _ = none

-- `die_on_amqp_error` returns exactly when the reply is normal, and else ends the process with a
-- line that begins with the given context.
pub die_on_amqp_error_total :
    (x : RpcReply) (context : String)
    → let r = die_on_amqp_error x context in
      ((r ≡ returned tt) ↔ (x.reply_type ≡ normal))
      × ((r ≡ returned tt) ⊎ (printed_context r ≡ some context))
unfolding die_on_amqp_error
die_on_amqp_error_total x context = ground arith
