-- ===== src/Rpc/Client/Answers.antt =====
-- Which messages are taken for answers.
use cpp_client_rabbit_mq.Rpc.Client.Waiting.{
  ReadsWell, after, next_envelope, next_program, wait_step,
}
use cpp_client_rabbit_mq.Rpc.Program.{Program}
use cpp_client_rabbit_mq.Broker.Act.{returned}
use cpp_client_rabbit_mq.Common.{
  ◌<◌, ◌≢◌, refl, none, zero, suc, is_empty, some, ℕ, ◌≡◌, ◌↔◌, ◌∷◌, [], ◌∙◌, ap, Bytes, true,
  false, ◌&&◌, ◌++◌, ℤ, arith, bytes_eq, bytes_eq_iff, bytes_eq_refl, c_string, c_string_id,
  c_string-c_string, c_string-append_nul, c_string-append_ne, HasNoNul,
}
use cpp_client_rabbit_mq.Broker.Info.{MessagePublishInfo}
use cpp_client_rabbit_mq.Broker.Amqp.{Amqp, Envelope, BasicProperties}
use cpp_client_rabbit_mq.Broker.Producer.Publishing.{publish_properties-IsAnnounced}
use cpp_client_rabbit_mq.Broker.Producer.{publish_properties}
use cpp_client_rabbit_mq.Rpc.Server.{response}
use cpp_client_rabbit_mq.Rpc.Client.{wait_for_message, Memory, is_answer, same_text, request}
use cpp_client_rabbit_mq.Tools.Decimal.{decimal}
use cpp_client_rabbit_mq.Tools.Decimal.Laws.{
  AreDigits, decimal-AreDigits, decimal-injective, is_empty-decimal,
}

-- A NUL stands behind the members of every message.
pub record IsTerminated (mem : Memory) : Type 0 where
  pub app_id : (e : Envelope) → (t : Bytes) × (mem.behind_app_id e ≡ 0 ∷ t)
  pub correlation_id : (e : Envelope) → (t : Bytes) × (mem.behind_correlation_id e ≡ 0 ∷ t)

same_text-terminated :
    (text bytes behind t : Bytes)
    → is_empty bytes ≡ false
    → behind ≡ 0 ∷ t
    → same_text text bytes behind ≡ some (bytes_eq (c_string text) (c_string bytes))
unfolding same_text
same_text-terminated text [] behind t full h = cc
same_text-terminated text (c ∷ bytes) behind t full h = rw (h, c_string-append_nul (c ∷ bytes))

digits-HasNoNul : (s : Bytes) → AreDigits s → HasNoNul s
digits-HasNoNul [] h = tt
digits-HasNoNul (c ∷ s) (hc, hs) = (omega arith, digits-HasNoNul s hs)

c_string-decimal : (n : ℕ) → c_string (decimal n) ≡ decimal n
c_string-decimal n = c_string_id (decimal n) (digits-HasNoNul (decimal n) (decimal-AreDigits n))

module _ (mem : Memory) where
  is_answer-terminated :
      IsTerminated mem
      → (app corr : Bytes) (e : Envelope) → is_empty e.properties.app_id ≡ false
      → is_empty e.properties.correlation_id ≡ false
      → is_answer mem app corr e
        ≡ some (
            bytes_eq (c_string app) (c_string e.properties.app_id)
            && bytes_eq (c_string corr) (c_string e.properties.correlation_id))
  unfolding is_answer
  is_answer-terminated z app corr e named numbered =
      let (t, p) = z.app_id e in
      let (u, q) = z.correlation_id e in
      ground (
        arith,
        same_text-terminated app e.properties.app_id _ t named p,
        same_text-terminated corr e.properties.correlation_id _ u numbered q,
      )

full_of_c_string : (s : Bytes) → is_empty (c_string s) ≡ false → is_empty s ≡ false
unfolding c_string
full_of_c_string [] h = h
full_of_c_string (c ∷ s) h = refl

app_id_member :
    (m : MessagePublishInfo) → (publish_properties m).app_id ≡ c_string m.property.app_id
app_id_member m = (publish_properties-IsAnnounced m).5.1

correlation_id_member :
    (m : MessagePublishInfo)
    → (publish_properties m).correlation_id ≡ c_string m.property.correlation_id
correlation_id_member m = (publish_properties-IsAnnounced m).1.1

c_string_thrice : (s : Bytes) → c_string (c_string (c_string s)) ≡ c_string s
c_string_thrice s = c_string-c_string (c_string s) ∙ c_string-c_string s

-- An answer carries the members of its request, up to their first NUL.
module _ (ttl ttl' : ℤ) (own key app corr : Bytes) (e : Envelope)
    (received : e.properties ≡ publish_properties (request ttl key app corr)) where
  abbrev answer : MessagePublishInfo
  answer = response ttl' own e

  response-app_id : c_string (publish_properties answer).app_id ≡ c_string app
  unfolding response request
  response-app_id =
      ap c_string (
        app_id_member answer
        ∙ ap c_string (
            ap (λ (p : BasicProperties). p.app_id) received
            ∙ app_id_member (request ttl key app corr)))
      ∙ c_string_thrice app

  response-correlation_id : c_string (publish_properties answer).correlation_id ≡ c_string corr
  unfolding response request
  response-correlation_id =
      ap c_string (
        correlation_id_member answer
        ∙ ap c_string (
            ap (λ (p : BasicProperties). p.correlation_id) received
            ∙ correlation_id_member (request ttl key app corr)))
      ∙ c_string_thrice corr

same_number : (m n : ℕ) → (some (bytes_eq (decimal m) (decimal n)) ≡ some true) ↔ (m ≡ n)
same_number m n = (
  λ h. decimal-injective m n ((bytes_eq_iff (decimal m) (decimal n)).0 (cc h)),
  λ e. ap some ((bytes_eq_iff (decimal m) (decimal n)).1 (ap decimal e)),
)

-- End to end: let a server with any settings receive the request with number `n` and publish its
-- answer, and let the client receive a message with the properties of that answer, with NULs
-- behind the compared members. The client, whose name does not begin with a NUL and is not empty,
-- takes it while it waits for number `m` exactly if `m` is `n`.
pub is_answer-response_iff :
    (mem : Memory)
    → IsTerminated mem
    → (ttl ttl' : ℤ) (own key app : Bytes) (m n : ℕ) (e a : Envelope)
    → is_empty (c_string app) ≡ false
    → e.properties ≡ publish_properties (request ttl key app (decimal n))
    → a.properties ≡ publish_properties (response ttl' own e)
    → (is_answer mem app (decimal m) a ≡ some true) ↔ (m ≡ n)
is_answer-response_iff mem z ttl ttl' own key app m n e a named received answered =
    let app_eq : c_string a.properties.app_id ≡ c_string app =
      rw answered (response-app_id ttl ttl' own key app (decimal n) e received) in
    let corr_eq : c_string a.properties.correlation_id ≡ decimal n =
      rw answered (
        response-correlation_id ttl ttl' own key app (decimal n) e received ∙ c_string-decimal n) in
    rw
      (
        is_answer-terminated mem z app (decimal m) a
            (full_of_c_string a.properties.app_id (rw app_eq named))
            (full_of_c_string a.properties.correlation_id (rw corr_eq (is_empty-decimal n))),
        app_eq,
        corr_eq,
        c_string-decimal,
        bytes_eq_refl,
      )
      (same_number m n)

-- A character other than NUL stands behind the name `app` in a message that carries it.
pub record IsUnterminated (mem : Memory) (app : Bytes) : Type 0 where
  pub behind :
      (e : Envelope)
      → e.properties.app_id ≡ app
      → (c : ℕ) × (t : Bytes) × (mem.behind_app_id e ≡ c ∷ t) × (c ≢ 0)

same_text-unterminated :
    (text bytes behind : Bytes) (c : ℕ) (t : Bytes)
    → HasNoNul text
    → is_empty text ≡ false
    → bytes ≡ text
    → behind ≡ c ∷ t
    → c ≢ 0
    → same_text text bytes behind ≡ some false
unfolding same_text
same_text-unterminated [] bytes behind c t no_nul named same next ne = cc
same_text-unterminated (d ∷ s) bytes behind c t no_nul named same next ne =
    let name : Bytes = d ∷ s in
    simp (same, next, c_string_id name no_nul)
      (ground (
        arith,
        bytes_eq_iff name (c_string (name ++ c ∷ t)),
        λ (p : c_string (name ++ c ∷ t) ≡ name). c_string-append_ne name c t no_nul ne p,
      ))

is_answer_unterminated :
    (mem : Memory) (app corr : Bytes) (e : Envelope)
    → HasNoNul app
    → is_empty app ≡ false
    → IsUnterminated mem app
    → e.properties.app_id ≡ app
    → is_answer mem app corr e ≡ some false
unfolding is_answer
is_answer_unterminated mem app corr e no_nul named u same =
    let (c, t, behind, ne) = u.behind e same in
    rw (is_answer, same_text-unterminated app e.properties.app_id _ c t no_nul named same behind ne)
      refl

module _ (amqp : Amqp) (mem : Memory) (app corr : Bytes) where
  -- Without the NUL the wait has no end: let the name of the application hold no NUL and not be
  -- empty, and let a character other than NUL stand behind it in each message that carries it. However
  -- many messages with this name come and can be read, and whatever numbers they carry, the loop
  -- takes none of them for an answer, has read and acknowledged each, and goes on.
  pub wait_for_message_unterminated :
      HasNoNul app
      → is_empty app ≡ false
      → IsUnterminated mem app
      → (fuel : ℕ) (p : Program)
      → ((k : ℕ)
          → k < fuel
          → ReadsWell amqp (after amqp k p)
            × ((next_envelope amqp (after amqp k p)).properties.app_id ≡ app))
      → wait_for_message amqp mem fuel app corr p ≡ (returned none, after amqp fuel p)
  unfolding wait_for_message
  wait_for_message_unterminated no_nul named u zero p comes = refl
  wait_for_message_unterminated no_nul named u (suc fuel) p comes =
      let (well, same) = comes 0 (omega arith) in
      wait_step amqp mem app corr fuel p well
        (is_answer_unterminated mem app corr (next_envelope amqp p) no_nul named u same)
      ∙ wait_for_message_unterminated no_nul named u fuel (next_program amqp p)
          (λ k lt. comes (suc k) (omega arith))
