-- ===== src/Examples/Http.antt =====
-- Requests over TLS at concrete networks. (Modules/Tools/HttpRequest.cpp)
use cpp_client_rabbit_mq.Common.{
  ℕ, ◌≡◌, refl, true, Bytes, List, [], ◌∷◌, codes, Option, none, some,
}
use cpp_client_rabbit_mq.Tools.Step.{raised}
use cpp_client_rabbit_mq.Tools.HttpRequest.{Network, Call, send_https}

-- A host that answers with 200.
abbrev reachable : Network
reachable = record {
  Response = ℕ;
  agent = codes "Beast";
  host_name_set_of = λ calls. true;
  error_of = λ calls. [];
  failure_of = λ calls. none;
  results_of = λ calls. codes "10.0.0.1" ∷ [];
  response_of = λ calls. 200;
}

abbrev failure_at_handshake : List Call → Option Bytes
failure_at_handshake (Call.handshake ∷ calls) = some (codes "handshake")
failure_at_handshake _ = none

refused :
    (send_https
      (record reachable { failure_of = failure_at_handshake })
      (codes "GET")
      (codes "h")
      (codes "443")
      (codes "/")
      []
      (record { object = tt; calls = [] })).0
    ≡ raised (codes "handshake")
unfolding send_https
refused = refl
