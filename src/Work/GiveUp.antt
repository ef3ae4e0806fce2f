-- ===== src/Work/GiveUp.antt =====
-- A confirmable request that nobody answers, in CoAP_doWork of
-- coap/server/lobaro-coap/coap_main.c.
use sming_coap.Base.{
  ℕ, zero, suc, ◌+◌, ◌^◌, ◌%◌, ◌≤◌, ◌<◌, ◌≡◌, refl, sym, arith, List, [], ◌∷◌, Bool, true, false,
  Option, none, some, ltb, Bool-cases, inl, inr, ◌⊎◌, leb, length, take, if◌then◌else◌, lt→ltb, ◌∙◌,
  le→ltb, ltb→le,
}
use mathlib.Core.Path.{subst, ap}
use sming_coap.Heap.{Heap, mem_get, mem_release}
use sming_coap.CoapResult.{is_ok, err_out_of_attempts, retry}
use sming_coap.Endpoint.{NetEp}
use sming_coap.Message.{Message, con}
use sming_coap.Message.Build.{build_datagram, get_raw_size_of_message}
use sming_coap.Interaction.{
  Interaction, not_set, client, waiting_response, max_retransmit, wait_time, enable_ack_timeout,
  get_longest_pending_interaction, unlink_interaction_from_list,
}
use sming_coap.Stack.{Stack, SendState, send_msg, transmit_datagram, send_in_buffer, send_through}
use sming_coap.Work.{
  behind, put_head, delete_interaction, retry_status, req_status, check_req_status, unless_reset,
  is_ack_set, count_retry, after_req_retry, resend_req,
}
use sming_coap.Work.WellFormed.{send_msg-Frame, Present}
use sming_coap.Work.Client.{on_req_status, client_step}
use sming_coap.Work.DoWork.{role_step, work_on, do_work}

-- A step at each reading of the clock.
abbrev pub steps : List ℕ → Stack → Option Stack
steps [] s = some s
steps (t ∷ ts) s = elim (do_work (record s { now = t })) [ none ↦ none | some s' ↦ steps ts s' ]

-- The first reading is later than a time, each other one more than 32 seconds later than the one
-- before it, and none near the end of the counter.
abbrev pub AreLate : ℕ → List ℕ → Type 0
AreLate d [] = Unit
AreLate d (t ∷ ts) = (d < t) × (t + 32 < 2 ^ 32) × AreLate (t + 32) ts

-- A client waits for the answer to a confirmable request that was neither acknowledged nor reset.
pub record IsUnanswered (ia : Interaction) (m : Message) : Type 0 where
  pub is_client : ia.role ≡ client
  pub is_waiting : ia.state ≡ waiting_response
  pub no_answer : ia.req_reliability_state ≡ not_set
  pub is_awake : ia.sleep_until ≡ 0
  pub is_con : m.type ≡ con
  pub has_request : ia.req_msg ≡ some m

AreLate-mono : (d e : ℕ) (ts : List ℕ) → e ≤ d → AreLate d ts → AreLate e ts
AreLate-mono d e [] l late = tt
AreLate-mono d e (t ∷ ts) l (a, b, c) = (omega arith, b, c)

abbrev SameType : Message → SendState → Type 0
SameType m x = x.1.type ≡ m.type

SameType-if :
    (m : Message) (b : Bool) (x y : SendState)
    → SameType m x
    → SameType m y
    → SameType m (if b then x else y)
SameType-if m true x y p q = p
SameType-if m false x y p q = q

transmit_datagram-SameType :
    (f : Heap → Heap) (size i : ℕ) (ep : NetEp) (d : List ℕ × Message × ℕ) (s : Stack)
    → SameType d.1 (transmit_datagram f size i ep d s)
unfolding transmit_datagram
transmit_datagram-SameType f size i ep (bytes, m, built) s =
    SameType-if m (s.network.transmit (length s.network.log) _) _ _ refl refl

build_datagram-type : (m : Message) → (build_datagram m).1.type ≡ m.type
unfolding build_datagram
build_datagram-type m = ground arith

send_in_buffer-SameType :
    (m : Message) (size i : ℕ) (ep : NetEp) (s : Stack) (a : Bool × Heap)
    → SameType m (send_in_buffer m size i ep s a)
unfolding send_in_buffer
send_in_buffer-SameType m size i ep s (false, h) = refl
send_in_buffer-SameType m size i ep s (true, h) =
    transmit_datagram-SameType mem_release size i ep (build_datagram m) (record s { heap = h })
    ∙ build_datagram-type m

send_through-SameType :
    (m : Message) (i : ℕ) (ep : NetEp) (s : Stack) (has_tx : Bool)
    → SameType m (send_through m i ep s has_tx)
unfolding send_through
send_through-SameType m i ep s has_tx =
    let size = get_raw_size_of_message m % 65536 in
    SameType-if m has_tx _ _
      (SameType-if m (leb size 16) _ _
        (transmit_datagram-SameType (λ h. h) size i ep (build_datagram m) s ∙ build_datagram-type m)
        (send_in_buffer-SameType m size i ep s (mem_get size s.heap)))
      refl

send_msg-SameType :
    (m : Message) (i : ℕ) (ep : NetEp) (s : Stack) (x : SendState)
    → send_msg m i ep s ≡ some x
    → SameType m x
unfolding send_msg
send_msg-SameType m i ep s x e = on (s.network.socket i) e
  where
    on :
        (o : Option Bool)
        → elim o [ none ↦ none | some has_tx ↦ some (send_through m i ep s has_tx) ] ≡ some x
        → SameType m x
    on none f = ground (arith, f)
    on (some has_tx) f =
        sym (ap (λ y. elim y [ none ↦ m.type | some z ↦ z.1.type ]) f)
        ∙ send_through-SameType m i ep s has_tx

-- No time to wait in the five attempts is longer than 32 seconds.
wait_time-bound : (c : ℕ) → c < max_retransmit → wait_time ((c + 1) % 256) ≤ 32
unfolding wait_time
wait_time-bound zero l = omega arith
wait_time-bound (suc zero) l = omega arith
wait_time-bound (suc (suc zero)) l = omega arith
wait_time-bound (suc (suc (suc zero))) l = omega arith
wait_time-bound (suc (suc (suc (suc c)))) l = absurd (omega (arith, l))

check_req_status-overdue :
    (now : ℕ) (ia : Interaction) (m : Message)
    → IsUnanswered ia m
    → ia.ack_timeout < now
    → check_req_status now ia
      ≡ some (if ltb max_retransmit (ia.retrans_counter + 1) then err_out_of_attempts else retry)
unfolding check_req_status unless_reset req_status retry_status is_ack_set
check_req_status-overdue now ia m u l =
    rw u.no_answer
      (rw u.has_request (rw u.is_con (rw u.no_answer (rw (lt→ltb ia.ack_timeout now l) refl))))

-- After the step the interaction is gone, or it stays at the head with one more attempt made,
-- and its interface has a socket.
abbrev Outcome : Interaction → List Interaction → ℕ → Stack → Type 0
Outcome ia rest now s =
    (s.interactions ≡ rest)
    ⊎ ((ia' : Interaction) × (m : Message) × IsUnanswered ia' m
        × (ia'.retrans_counter ≡ suc ia.retrans_counter)
        × (ia'.retrans_counter ≤ max_retransmit)
        × (ia'.ack_timeout ≤ now + 32)
        × Present (s.network.socket ia'.if_id)
        × (s.interactions ≡ ia' ∷ rest))

again-Outcome :
    (ia : Interaction) (rest : List Interaction) (n : Message) (s : Stack)
    → IsUnanswered ia n
    → behind s.interactions ≡ rest
    → ia.retrans_counter < max_retransmit
    → s.now + 32 < 2 ^ 32
    → Present (s.network.socket ia.if_id)
    → Outcome ia rest s.now (put_head (count_retry s.now ia) s)
unfolding count_retry enable_ack_timeout
again-Outcome ia rest n s u e l small k =
    let w = wait_time-bound ia.retrans_counter l in
    inr (
      count_retry s.now ia,
      n,
      record {
        is_client = u.is_client;
        is_waiting = u.is_waiting;
        no_answer = u.no_answer;
        is_awake = u.is_awake;
        is_con = u.is_con;
        has_request = u.has_request;
      },
      omega (arith, l),
      omega (arith, l),
      omega (arith, w, small),
      k,
      rw e refl,
    )

module _ (ia : Interaction) (rest : List Interaction) (m : Message) (s : Stack)
    (u : IsUnanswered ia m) (e : s.interactions ≡ ia ∷ rest) (small : s.now + 32 < 2 ^ 32)
    (k : Present (s.network.socket ia.if_id)) where
  -- The step yields a stack in which the interaction is gone or goes on.
  abbrev Yielded : Option Stack → Type 0
  Yielded o = (t : Stack) × (o ≡ some t) × Outcome ia rest s.now t

  resend-Yielded : ia.retrans_counter < max_retransmit → Yielded (resend_req ia s)
  unfolding resend_req after_req_retry delete_interaction unlink_interaction_from_list
  resend-Yielded l =
      let (sent, sends, f) = send_msg-Frame m ia.if_id ia.remote_ep s k in
      let ia' = record ia { req_msg = some sent.1 } in
      let u' : IsUnanswered ia' sent.1 = record {
        is_client = u.is_client;
        is_waiting = u.is_waiting;
        no_answer = u.no_answer;
        is_awake = u.is_awake;
        is_con = send_msg-SameType m ia.if_id ia.remote_ep s sent sends ∙ u.is_con;
        has_request = refl;
      } in
      rw (u.has_request, sends)
        (elim (Bool-cases (is_ok sent.0)) [
          | inl fine ↦ rw fine (
            _,
            refl,
            subst (λ x. Outcome ia rest x (put_head (count_retry sent.2.now ia') sent.2)) f.same_now
                (again-Outcome ia' rest sent.1 sent.2 u' (ap behind (f.same_interactions ∙ e)) l
                  (rw f.same_now small) (subst (λ g. Present (g ia.if_id)) (sym f.same_sockets) k)),
          )
          | inr refuses ↦ rw refuses (_, refl, inl (rw (f.same_interactions, e) refl))
        ])

  overdue-Yielded :
      ia.retrans_counter ≤ max_retransmit
      → Yielded (
          on_req_status ia s (
            some
              (if ltb max_retransmit (ia.retrans_counter + 1) then err_out_of_attempts else retry)))
  unfolding on_req_status delete_interaction unlink_interaction_from_list
  overdue-Yielded l = elim (Bool-cases (ltb max_retransmit (ia.retrans_counter + 1))) [
    | inl over ↦ rw over (_, refl, inl (rw e refl))
    | inr left ↦
        rw left
          (resend-Yielded (omega (arith, ltb→le max_retransmit (ia.retrans_counter + 1) left)))
  ]

  do_work-Yielded :
      ia.retrans_counter ≤ max_retransmit → ia.ack_timeout < s.now → Yielded (do_work s)
  unfolding do_work work_on role_step client_step get_longest_pending_interaction
  do_work-Yielded l late =
      let awake : ltb s.now ia.sleep_until ≡ false = rw u.is_awake (le→ltb s.now 0 (omega arith)) in
      subst (λ x. Yielded (work_on (get_longest_pending_interaction x) s)) (sym e)
        (rw awake (
          subst (λ x. Yielded (role_step x ia s)) (sym u.is_client)
            (subst (λ x. Yielded (client_step x ia s)) (sym u.is_waiting)
              (rw (check_req_status-overdue s.now ia m u late) (overdue-Yielded l)))))

-- A confirmable request is given up: its interaction, at the head, is neither acknowledged nor reset,
-- and the clock is read after its time to wait is over, and then each time more than 32 seconds later
-- without a wrap-around. Within as many steps as attempts are left, five at most, the interaction is
-- deleted and those behind it are as they were, whatever the network takes. The interface of the
-- interaction has a socket.
pub do_work-GivesUp :
    (ts : List ℕ) (ia : Interaction) (rest : List Interaction) (m : Message) (s : Stack)
    → s.interactions ≡ ia ∷ rest
    → IsUnanswered ia m
    → ia.retrans_counter ≤ max_retransmit
    → length ts + ia.retrans_counter ≡ 5
    → AreLate ia.ack_timeout ts
    → Present (s.network.socket ia.if_id)
    → (n : ℕ) × (t : Stack) × (n ≤ length ts)
      × (steps (take n ts) s ≡ some t)
      × (t.interactions ≡ rest)
do_work-GivesUp [] ia rest m s e u l five late k = absurd (omega (arith, l, five))
do_work-GivesUp (t ∷ ts) ia rest m s e u l five (d, small, late) k =
    let s' = record s { now = t } in
    let (s1, at, out) = do_work-Yielded ia rest m s' u e small k l d in
    elim out [
      | inl gone ↦ (1, s1, omega arith, rw (steps, at) refl, gone)
      | inr (ia1, m1, u1, more, l1, d1, k1, e1) ↦
          let (n, s2, few, run, gone) =
            do_work-GivesUp ts ia1 rest m1 s1 e1 u1 l1 (omega (arith, five, more))
              (AreLate-mono (t + 32) ia1.ack_timeout ts d1 late) k1 in
          (suc n, s2, omega (arith, few), rw (steps, at) run, gone)
    ]
