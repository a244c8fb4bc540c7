-- ===== src/Broker/Errors.antt =====
-- What is done with an answer that reports an error. (Modules/Broker/utils.cpp)
use cpp_client_rabbit_mq.Common.{String, ℤ, ◌==◌, is_negative, if◌then◌else◌}
use cpp_client_rabbit_mq.Broker.Act.{
  Outcome, returned, exited, Diagnostic, missing_reply, library_error, server_connection_error,
  server_channel_error, unknown_server_error,
}
use cpp_client_rabbit_mq.Broker.Amqp.{
  RpcReply, ResponseType, none_response, normal, library_exception, server_exception,
  connection_close_method, channel_close_method,
}
pub mod Laws

unfoldable pub die_on_error : ℤ → String → Outcome (Unit {0})
die_on_error x context = if is_negative x then exited (library_error context x) else returned tt

-- The inner switch, over `x.reply.id`.
server_error : RpcReply → String → Diagnostic
server_error x context =
    if x.reply_id == connection_close_method
    then server_connection_error context x.reply_code x.reply_text
    else if x.reply_id == channel_close_method
    then server_channel_error context x.reply_code x.reply_text
    else unknown_server_error context x.reply_id

-- The outer switch, over `x.reply_type`.
by_type : ResponseType → RpcReply → String → Outcome (Unit {0})
by_type normal x context = returned tt
by_type none_response x context = exited (missing_reply context)
by_type library_exception x context = exited (library_error context x.library_error)
by_type server_exception x context = exited (server_error x context)

unfoldable pub die_on_amqp_error : RpcReply → String → Outcome (Unit {0})
unfolding by_type server_error
die_on_amqp_error x context = by_type x.reply_type x context
