-- ===== src/Tools/HttpRequest.antt =====
-- One request over TLS. (Modules/Tools/HttpRequest.cpp)
pub mod Laws
use cpp_client_rabbit_mq.Common.{
  ℕ, Bool, Bytes, List, [], ◌∷◌, codes, c_string, is_empty, Option, some, none, if◌then◌else◌,
}
use cpp_client_rabbit_mq.Tools.Step.{Step, returned, pure, raise, invoke, run, ◌>>=◌, ◌>>◌}

-- http::request<http::string_body>, with the fields that were set
pub record Request : Type 0 where
  pub method : Bytes
  pub target : Bytes
  pub version : ℕ
  pub fields : List (Bytes × Bytes)
  pub body : Bytes

-- The calls of OpenSSL and of boost; a connection is made to what the host's name was resolved to.
pub data Call : Type 0 where
  set_verify_none : Call
  set_host_name : (host : Bytes) → Call
  get_error : Call
  resolve : (host port : Bytes) → Call
  connect : (results : List Bytes) → Call
  handshake : Call
  write : Request → Call
  read : Call
  shutdown : Call

-- The answers, as functions of all calls so far. A call of boost fails with a `system_error`, whose
-- text is given; `agent` is BOOST_BEAST_VERSION_STRING.
pub record Network : Type 1 where
  pub Response : Type 0
  pub agent : Bytes
  pub host_name_set_of : List Call → Bool
  pub error_of : List Call → Bytes
  pub failure_of : List Call → Option Bytes
  pub results_of : List Call → List Bytes
  pub response_of : List Call → Response

abbrev HttpStep : Type 0 → Type 0
HttpStep A = Step (Unit {0}) Call A

module _ (network : Network) where
  abbrev check : Option Bytes → HttpStep (Unit {0})
  check none = pure tt
  check (some message) = raise message

  -- A call that may throw.
  abbrev attempt : Call → HttpStep (Unit {0})
  attempt c = invoke c (network.failure_of) >>= check

  -- A call that may throw, and its answer.
  abbrev ask : {A : Type 0} → Call → (List Call → A) → HttpStep A
  ask c answer = attempt c >>= λ _ s. (returned (answer s.calls), s)

  -- The request with its two fields; the message is cut at its first NUL.
  unfoldable pub request_of : (method host target message : Bytes) → Request
  request_of method host target message = record {
    method = method;
    target = target;
    version = 11;
    fields = (codes "Host", host) ∷ (codes "User-Agent", network.agent) ∷ [];
    body = if is_empty message then [] else c_string message;
  }

  -- The error of the shutdown is not looked at.
  unfoldable pub send_https :
      (method host port target message : Bytes) → HttpStep (network.Response)
  send_https method host port target message = do
    run Call.set_verify_none
    named ← invoke (Call.set_host_name (c_string host)) (network.host_name_set_of)
    if named then pure tt else (do error ← invoke Call.get_error (network.error_of); raise error)
    results ← ask (Call.resolve host port) (network.results_of)
    attempt (Call.connect results)
    attempt Call.handshake
    attempt (Call.write (request_of method host target message))
    response ← ask Call.read (network.response_of)
    run Call.shutdown
    pure response
