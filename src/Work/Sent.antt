-- ===== src/Work/Sent.antt =====
-- The pieces of the state machine's step in coap/server/lobaro-coap/coap_main.c keep well-formed
-- interactions.
use mathlib.Core.Path.{subst, sym}
use sming_coap.Work.WellFormed.{
  IsSoundBehind, Fits, IsWellFormed, IsSound, Present, send_msg-Frame, Yields, YieldsUnless, Frame,
}
use sming_coap.Base.{
  ◌<◌, ◌≡◌, refl, arith, Bool, true, false, Option, none, some, if◌then◌else◌, inr, inl, Bool-cases,
  and_then,
}
use sming_coap.CoapResult.{is_ok}
use sming_coap.Message.{Message}
use sming_coap.Interaction.{Interaction, client, InteractionState, max_retransmit}
use sming_coap.Stack.{Stack, send_msg, SendState}
use sming_coap.Work.{
  send_resp, send_req, after_resp, after_req, count_retry, resend_resp, resend_req,
  after_resp_retry, after_req_retry, resp_sent_as, req_sent_as, delete_logged,
}
use sming_coap.Work.Stored.{
  enqueue_last-IsSound, delete_interaction-IsSound, put_head-IsSound, Frame-IsSoundBehind,
  Fits-answered, resp_sent_as-IsWellFormed, req_sent_as-IsWellFormed, count_retry-IsWellFormed,
}

pub IsSound-if : (b : Bool) (s t : Stack) → IsSound s → IsSound t → IsSound (if b then s else t)
IsSound-if true s t p q = p
IsSound-if false s t p q = q

-- A well-formed interaction stays so in the stack after a message was sent.
kept :
    (s t : Stack) (ia : Interaction)
    → Frame s t
    → IsWellFormed s.resources ia
    → IsWellFormed t.resources ia
kept s t ia f w = rw f.same_resources w

-- A step on a message that is there.
Yields-present :
    (o : Option Message) (f : Message → Option Stack)
    → Present o
    → ((m : Message) → Yields (f m))
    → Yields (elim o [ none ↦ none | some m ↦ f m ])
Yields-present none f p sound = elim p [ ]
Yields-present (some m) f p sound = sound m

unless-present :
    (P : Type 0) (o : Option Message) (f : Message → Option Stack)
    → Present o
    → ((m : Message) → o ≡ some m → YieldsUnless P (f m))
    → YieldsUnless P (elim o [ none ↦ none | some m ↦ f m ])
unless-present P none f p fate = elim p [ ]
unless-present P (some m) f p fate = fate m refl

-- Without a request the log line reads through NULL.
delete_logged-YieldsUnless :
    (P : Type 0) (req : Option Message) (ia : Interaction) (s : Stack)
    → IsSoundBehind s
    → (req ≡ none → P)
    → YieldsUnless P (delete_logged req ia s)
unfolding delete_logged
delete_logged-YieldsUnless P none ia s b why = inr (refl, why refl)
delete_logged-YieldsUnless P (some m) ia s b why = inl (_, refl, delete_interaction-IsSound ia s b)

-- The interaction's response is there, and the sending of it fails.
abbrev pub RespUnsent : Stack → Interaction → Type 0
RespUnsent s ia =
    (m : Message) × (x : SendState) × (ia.resp_msg ≡ some m)
    × (send_msg m ia.if_id ia.remote_ep s ≡ some x)
    × (is_ok x.0 ≡ false)

-- A response was not sent, and there is no request.
abbrev pub Unsent : Stack → Interaction → Type 0
Unsent s ia = (ia.req_msg ≡ none) × RespUnsent s ia

has_request :
    (o : Option Message) (P : Type 0) (step : Option Stack)
    → Present o
    → YieldsUnless ((o ≡ none) × P) step
    → Yields step
has_request none P step p fate = elim p [ ]
has_request (some m) P step p (inl y) = y
has_request (some m) P step p (inr (e, (n, r))) = absurd (ground (arith, n))

module _ (ia : Interaction) (s : Stack) (w : IsWellFormed s.resources ia) (b : IsSoundBehind s)
    (k : Present (s.network.socket ia.if_id)) where
  pub send_resp-YieldsUnless :
      (next : InteractionState)
      → Present ia.resp_msg
      → YieldsUnless (Unsent s ia) (send_resp ia next s)
  unfolding send_resp after_resp
  send_resp-YieldsUnless next p = unless-present (Unsent s ia) ia.resp_msg _ p (λ m there.
      let (x, sent, f) = send_msg-Frame m ia.if_id ia.remote_ep s k in
      let b' = Frame-IsSoundBehind s x.2 f b in
      subst (λ y. YieldsUnless (Unsent s ia) (and_then (after_resp ia next) y)) (sym sent)
        (elim (Bool-cases (is_ok x.0)) [
          | inl e ↦ rw e (
              inl (
                _,
                refl,
                enqueue_last-IsSound (resp_sent_as x.1.type x.2.now ia x.1 next) x.2 b' (
                    resp_sent_as-IsWellFormed x.1.type x.2.now x.2.resources ia x.1 next
                      (kept s x.2 ia f w)),
              ))
          | inr e ↦ rw e (
              delete_logged-YieldsUnless (Unsent s ia) ia.req_msg
                (record ia { resp_msg = some x.1 }) x.2 b' (λ n. (n, (m, x, there, sent, e))))
        ]))

  pub send_resp-IsSound :
      (next : InteractionState)
      → Present ia.resp_msg
      → Present ia.req_msg
      → Yields (send_resp ia next s)
  send_resp-IsSound next p q =
      has_request ia.req_msg (RespUnsent s ia) (send_resp ia next s) q
        (send_resp-YieldsUnless next p)

  pub send_req-IsSound :
      (next : InteractionState)
      → ia.role ≡ client
      → Present ia.req_msg
      → Yields (send_req ia next s)
  unfolding send_req after_req
  send_req-IsSound next c p = Yields-present ia.req_msg _ p (λ m.
      let (x, sent, f) = send_msg-Frame m ia.if_id ia.remote_ep s k in
      let b' = Frame-IsSoundBehind s x.2 f b in
      subst (λ y. Yields (and_then (λ z. some (after_req ia next z)) y)) (sym sent)
        (
          _,
          refl,
          IsSound-if (is_ok x.0) _ _
              (enqueue_last-IsSound (req_sent_as x.1.type x.2.now ia x.1 next) x.2 b'
                (req_sent_as-IsWellFormed x.1.type x.2.now x.2.resources ia x.1 next c w.0))
              (delete_interaction-IsSound (record ia { req_msg = some x.1 }) x.2 b'),
        ))

  pub resend_resp-YieldsUnless :
      ia.retrans_counter < max_retransmit
      → Present ia.resp_msg
      → YieldsUnless (Unsent s ia) (resend_resp ia s)
  unfolding resend_resp after_resp_retry
  resend_resp-YieldsUnless l p = unless-present (Unsent s ia) ia.resp_msg _ p (λ m there.
      let (x, sent, f) = send_msg-Frame m ia.if_id ia.remote_ep s k in
      let b' = Frame-IsSoundBehind s x.2 f b in
      let (c, d) = kept s x.2 ia f w in
      let again = record ia { resp_msg = some x.1 } in
      let fits =
        Fits-answered ia.role x.2.resources ia.req_msg ia.resp_msg ia.resource ia.state ia.state x.1
          d in
      subst (λ y. YieldsUnless (Unsent s ia) (and_then (after_resp_retry ia) y)) (sym sent)
        (elim (Bool-cases (is_ok x.0)) [
          | inl e ↦ rw e (
              inl (
                _,
                refl,
                put_head-IsSound (count_retry x.2.now again) x.2 b'
                    (count_retry-IsWellFormed x.2.now x.2.resources again l (c, fits)),
              ))
          | inr e ↦ rw e (
              delete_logged-YieldsUnless (Unsent s ia) ia.req_msg again x.2 b'
                (λ n. (n, (m, x, there, sent, e))))
        ]))

  pub resend_resp-IsSound :
      ia.retrans_counter < max_retransmit
      → Present ia.resp_msg
      → Present ia.req_msg
      → Yields (resend_resp ia s)
  resend_resp-IsSound l p q =
      has_request ia.req_msg (RespUnsent s ia) (resend_resp ia s) q (resend_resp-YieldsUnless l p)

  pub resend_req-IsSound :
      ia.retrans_counter < max_retransmit
      → ia.role ≡ client
      → Present ia.req_msg
      → Yields (resend_req ia s)
  unfolding resend_req after_req_retry
  resend_req-IsSound l c p = Yields-present ia.req_msg _ p (λ m.
      let (x, sent, f) = send_msg-Frame m ia.if_id ia.remote_ep s k in
      let b' = Frame-IsSoundBehind s x.2 f b in
      let fits : Fits ia.role x.2.resources (some x.1) ia.resource ia.state ia.resp_msg = rw c tt in
      subst (λ y. Yields (and_then (λ z. some (after_req_retry ia z)) y)) (sym sent)
        (
          _,
          refl,
          IsSound-if (is_ok x.0) _ _
              (put_head-IsSound (count_retry x.2.now (record ia { req_msg = some x.1 })) x.2 b' (
                count_retry-IsWellFormed x.2.now x.2.resources (record ia { req_msg = some x.1 }) l
                  (w.0, fits)))
              (delete_interaction-IsSound (record ia { req_msg = some x.1 }) x.2 b'),
        ))
