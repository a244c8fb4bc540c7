-- ===== src/Rpc/Client.antt =====
-- The client: a request is published, and messages are read until one answers it.
-- (src/rpc_client/Main.cpp; what it prints to the console and the pause are left out)
pub mod Waiting
pub mod Answers
pub mod Calling
use cpp_client_rabbit_mq.Common.{
  [], ◌∷◌, ℕ, zero, suc, ◌+◌, ◌%◌, ◌^◌, ◌++◌, ◌&&◌, Bool, true, false, Bytes, codes, ℤ, Option,
  none, some, c_string, bytes_eq, if◌then◌else◌,
}
use cpp_client_rabbit_mq.Broker.Act.{Act, pure, deref, assert, ◌>>=◌, ◌>>◌}
use cpp_client_rabbit_mq.Broker.Info.{
  MessagePublishInfo, default_property, default_message, default_delivery,
}
use cpp_client_rabbit_mq.Broker.Amqp.{Amqp, Envelope}
use cpp_client_rabbit_mq.Broker.Consumer.{read, ack_message}
use cpp_client_rabbit_mq.Broker.Producer.{publish}
use cpp_client_rabbit_mq.Rpc.Program.{Program, on_consumer, on_producer, expiration_of}
use cpp_client_rabbit_mq.Tools.Decimal.{decimal}

-- !strcmp( text.c_str(), (char*) bytes ): the bytes of a message have a length and no NUL of their
-- own, so that the comparison goes on in the memory behind them. A member that is absent or empty has
-- a null pointer, and `none` is its use.
unfoldable pub same_text : (text bytes behind : Bytes) → Option Bool
same_text text [] behind = none
same_text text (c ∷ bytes) behind = some (bytes_eq (c_string text) (c_string (c ∷ bytes ++ behind)))

-- The memory behind the two members of a message that are compared.
pub record Memory : Type 0 where
  pub behind_app_id : Envelope → Bytes
  pub behind_correlation_id : Envelope → Bytes

-- The value of `found`: the second member is looked at only if the first is the same.
unfoldable pub is_answer : Memory → (app_id correlation_id : Bytes) → Envelope → Option Bool
is_answer mem app_id correlation_id e =
    elim (same_text app_id e.properties.app_id (mem.behind_app_id e)) [
      | none ↦ none
      | some false ↦ some false
      | some true ↦
          same_text correlation_id e.properties.correlation_id (mem.behind_correlation_id e)
    ]

-- The request with a sequence number, by a client that waits for answers under `own_key`.
unfoldable pub request : ℤ → (own_key app_id correlation_id : Bytes) → MessagePublishInfo
request ttl own_key app_id correlation_id = record {
  property = record default_property {
    reply_to = own_key;
    app_id = app_id;
    correlation_id = correlation_id;
    expiration = expiration_of ttl;
  };
  message = record default_message { body = codes "Consumer producer new message" };
  delivery = default_delivery;
}

module _ (amqp : Amqp) where
  -- One round of the loop of `wait_for_message`.
  unfoldable pub next_message : Act Program Envelope
  next_message = do
    wrapper ← on_consumer (read amqp)
    on_consumer (ack_message amqp wrapper)
    deref wrapper

module _ (amqp : Amqp) (mem : Memory) where
  -- The loop, with fuel; `none` means that the fuel ran out.
  unfoldable pub wait_for_message :
      ℕ → (app_id correlation_id : Bytes) → Act Program (Option Envelope)
  wait_for_message zero app_id correlation_id = pure none
  wait_for_message (suc fuel) app_id correlation_id = do
    e ← next_message amqp
    let rest = wait_for_message fuel app_id correlation_id
    found ← deref (is_answer mem app_id correlation_id e)
    if found then pure (some e) else rest

  -- The body of `while( true )`; the sequence number is a `size_t`.
  unfoldable pub call_once : ℕ → ℤ → (own_key app_id : Bytes) → ℕ → Act Program (Option Envelope)
  call_once fuel ttl own_key app_id sequence = do
    let correlation_id = decimal ((sequence + 1) % 2 ^ 64)
    on_producer (publish amqp (request ttl own_key app_id correlation_id))
    found ← wait_for_message fuel app_id correlation_id
    elim found [
      | none ↦ pure none
      | some e ↦ (do
        same_app_id ← deref (same_text app_id e.properties.app_id (mem.behind_app_id e))
        assert same_app_id
        same_correlation_id ←
            deref
              (same_text correlation_id e.properties.correlation_id (mem.behind_correlation_id e))
        assert same_correlation_id
        pure (some e))
    ]
