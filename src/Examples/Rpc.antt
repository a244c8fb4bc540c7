-- ===== src/Examples/Rpc.antt =====
-- The sample programs.
use cpp_client_rabbit_mq.Common.{
  none, bytes_eq, c_string, ℕ, ◌≡◌, ◌↔◌, ◌∷◌, [], some, refl, true, codes, pos, arith,
}
use cpp_client_rabbit_mq.Broker.Act.{returned}
use cpp_client_rabbit_mq.Broker.Amqp.{Envelope}
use cpp_client_rabbit_mq.Broker.Errors.{die_on_error}
use cpp_client_rabbit_mq.Broker.Base.{fresh_broker, MessageBroker}
use cpp_client_rabbit_mq.Broker.Consumer.{read, ack_message}
use cpp_client_rabbit_mq.Broker.Producer.{publish, publish_routing_key, publish_properties}
use cpp_client_rabbit_mq.Rpc.Program.{Program}
use cpp_client_rabbit_mq.Rpc.Server.{response, serve_request, serve}
use cpp_client_rabbit_mq.Rpc.Server.Ends.{round_script, serve_request-round_script}
use cpp_client_rabbit_mq.Rpc.Client.{
  same_text, Memory, is_answer, next_message, wait_for_message, call_once,
}
use cpp_client_rabbit_mq.Rpc.Client
use cpp_client_rabbit_mq.Rpc.Client.Waiting.{next_envelope, after, answers}
use cpp_client_rabbit_mq.Rpc.Client.Calling.{correlation_id, requested, call_once_first}
use cpp_client_rabbit_mq.Rpc.Client.Answers.{
  is_answer-response_iff, wait_for_message_unterminated, IsTerminated, IsUnterminated,
}
use cpp_client_rabbit_mq.Tools.Decimal.{decimal}
use cpp_client_rabbit_mq.Examples.Servers.{accepting, config, request}

abbrev client : MessageBroker
client = record (fresh_broker config) { conn = some 10; socket = some 20 }

abbrev program : Program
program = record { consumer = client; producer = client; calls = [] }

serves : (serve accepting (pos 0) 2 program).0 ≡ returned tt
unfolding serve serve_request read ack_message publish publish_routing_key response die_on_error
serves = refl

serves_once : (serve_request accepting (pos 0) program).0 ≡ returned tt
unfolding serve_request read ack_message publish publish_routing_key response die_on_error
serves_once = refl

serve_request-round_script_example :
    let (ending, calls) = round_script accepting (pos 0) program in
    serve_request accepting (pos 0) program ≡ (ending, record program { calls = calls })
serve_request-round_script_example = serve_request-round_script accepting (pos 0) program

abbrev terminated : Memory
terminated = record { behind_app_id = λ e. 0 ∷ []; behind_correlation_id = λ e. 0 ∷ [] }

-- The octet that ends a frame stands behind the application's name.
abbrev unterminated : Memory
unterminated = record { behind_app_id = λ e. 206 ∷ []; behind_correlation_id = λ e. 0 ∷ [] }

terminated-IsTerminated : IsTerminated terminated
terminated-IsTerminated = record { app_id = λ e. ([], refl); correlation_id = λ e. ([], refl) }

answered_at_once : answers accepting terminated (codes "app") (codes "1") program ≡ some true
unfolding is_answer same_text bytes_eq c_string
answered_at_once = refl

-- The first call, with an answer at once.
abbrev sent : Program
sent = requested accepting terminated (pos 0) (codes "r") (codes "app") 0 program

answered_call :
    answers accepting terminated
      (codes "app")
      (correlation_id accepting terminated (pos 0) (codes "r") (codes "app") 0)
      sent
    ≡ some true
unfolding is_answer same_text bytes_eq c_string decimal
answered_call = refl

call_once_first_example :
    call_once accepting terminated 5 (pos 0) (codes "r") (codes "app") 0 program
    ≡ (returned (some (next_envelope accepting (after accepting 0 sent))), after accepting 1 sent)
call_once_first_example =
    call_once_first accepting terminated (pos 0) (codes "r") (codes "app") 0 0 5 program
      (omega arith) refl refl (λ k h. refl) (λ k h. absurd (omega arith)) answered_call

-- The request with number 1, as it is received, and its answer.
abbrev received : Envelope
received = record request {
  properties =
      publish_properties (Client.request (pos 0) (codes "task_response") (codes "app") (decimal 1));
}

abbrev answer : Envelope
answer = record request {
  properties = publish_properties (response (pos 0) (codes "task_request") received);
}

is_answer-response_iff_example :
    (is_answer terminated (codes "app") (decimal 2) answer ≡ some true) ↔ (◌≡◌ {A = ℕ} 2 1)
unfolding c_string
is_answer-response_iff_example =
    is_answer-response_iff terminated terminated-IsTerminated (pos 0) (pos 0) (codes "task_request")
      (codes "task_response") (codes "app") 2 1 received answer refl refl refl

unterminated-IsUnterminated : IsUnterminated unterminated (codes "app")
unterminated-IsUnterminated = record {
  behind = λ e named. (206, [], refl, λ p. absurd (omega arith));
}

wait_for_message_unterminated_example :
    wait_for_message accepting unterminated 100 (codes "app") (codes "1") program
    ≡ (returned none, after accepting 100 program)
wait_for_message_unterminated_example =
    wait_for_message_unterminated accepting unterminated (codes "app") (codes "1") (ground arith)
      refl unterminated-IsUnterminated 100 program (λ k lt. (refl, refl))
