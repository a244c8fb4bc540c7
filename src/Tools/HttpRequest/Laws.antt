-- ===== src/Tools/HttpRequest/Laws.antt =====
-- When a request has a response, and what was sent for it.
use cpp_client_rabbit_mq.Common.{◌≡◌, ◌↔◌, true, Bytes, List, ◌∷◌, c_string, none, arith}
use cpp_client_rabbit_mq.Tools.Step.{returned}
use cpp_client_rabbit_mq.Tools.HttpRequest.{Network, Call, request_of, send_https}

module _ (network : Network) (method host port target message : Bytes) (calls : List Call) where
  -- The calls up to each point.
  abbrev pub named : List Call
  named = Call.set_host_name (c_string host) ∷ Call.set_verify_none ∷ calls

  abbrev pub resolved : List Call
  resolved = Call.resolve host port ∷ named

  abbrev pub connected : List Call
  connected = Call.connect (network.results_of resolved) ∷ resolved

  abbrev pub greeted : List Call
  greeted = Call.handshake ∷ connected

  abbrev pub written : List Call
  written = Call.write (request_of network method host target message) ∷ greeted

  abbrev pub answered : List Call
  answered = Call.read ∷ written

  -- Every call up to the response succeeds.
  abbrev pub Succeeds : Type 0
  Succeeds =
      (network.host_name_set_of named ≡ true)
      × (network.failure_of resolved ≡ none)
      × (network.failure_of connected ≡ none)
      × (network.failure_of greeted ≡ none)
      × (network.failure_of written ≡ none)
      × (network.failure_of answered ≡ none)

  -- `send_https` returns the response, after the calls of a request in their order and a shutdown,
  -- exactly if the host name is set and no call up to the response fails. The request is written
  -- once, after the handshake.
  pub send_https_iff :
      (send_https network method host port target message (record { object = tt; calls = calls })
        ≡ (
          returned (network.response_of answered),
          record { object = tt; calls = Call.shutdown ∷ answered },
        ))
      ↔ Succeeds
  unfolding send_https
  send_https_iff = ground arith
