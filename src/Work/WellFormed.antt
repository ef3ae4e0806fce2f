-- ===== src/Work/WellFormed.antt =====
-- The well-formed interactions of coap/server/lobaro-coap/coap_interaction.c, and what sending a
-- message leaves as it was.
use sming_coap.Base.{
  ℕ, ◌%◌, ◌≤◌, ◌≡◌, refl, List, Bool, true, false, Option, none, some, if◌then◌else◌, get_elem?,
  All, length, leb, ◌⊎◌,
}
use sming_coap.Heap.{Heap, mem_get, mem_release}
use sming_coap.Endpoint.{NetEp}
use sming_coap.Message.{Message}
use sming_coap.Message.Build.{build_datagram, get_raw_size_of_message}
use sming_coap.Interaction.{
  Interaction, InteractionRole, role_not_set, server, notification, client, InteractionState,
  response_sent, max_retransmit,
}
use sming_coap.Resource.{Resource}
use sming_coap.Stack.{
  Stack, SendState, send_msg, send_through, transmit_datagram, send_in_buffer, Network,
}
use sming_coap.Work.{behind}

-- The pointer is not NULL.
abbrev pub Present {ℓ} : {A : Type ℓ} → Option A → Type 0
Present none = ⊥
Present (some a) = Unit {0}

-- The resource exists and has a handler.
abbrev pub Serves : List Resource → Option ℕ → Type 0
Serves rs none = ⊥
Serves rs (some i) = (r : Resource) × (get_elem? rs i ≡ some r) × Present r.handler

-- The resource exists and has a notifier.
abbrev pub Notifies : List Resource → Option ℕ → Type 0
Notifies rs none = ⊥
Notifies rs (some i) = (r : Resource) × (get_elem? rs i ≡ some r) × Present r.notifier

abbrev NotSent : InteractionState → Type 0
NotSent response_sent = ⊥
NotSent _ = Unit {0}

-- A response that was sent is there.
abbrev pub RespReady : InteractionState → Option Message → Type 0
RespReady st none = NotSent st
RespReady st (some m) = Unit {0}

-- What an interaction of a role needs: request, resource, state and response.
abbrev pub Fits :
    InteractionRole
    → List Resource
    → Option Message
    → Option ℕ
    → InteractionState
    → Option Message
    → Type 0
Fits role_not_set rs req res st resp = Unit {0}
Fits server rs req res st resp = Present req × Serves rs res × RespReady st resp
Fits notification rs req res st resp = Present resp × Notifies rs res
Fits client rs req res st resp = Present req

-- The interaction was sent again four times at most, and has what its role needs.
abbrev pub IsWellFormed : List Resource → Interaction → Type 0
IsWellFormed rs ia =
    (ia.retrans_counter ≤ max_retransmit)
    × Fits ia.role rs ia.req_msg ia.resource ia.state ia.resp_msg

abbrev pub IsSound : Stack → Type 0
IsSound s = All (IsWellFormed s.resources) s.interactions

abbrev pub IsSoundBehind : Stack → Type 0
IsSoundBehind s = All (IsWellFormed s.resources) (behind s.interactions)

-- The step meets no NULL pointer and leaves a sound stack.
abbrev pub Yields : Option Stack → Type 0
Yields o = (s : Stack) × (o ≡ some s) × IsSound s

-- The step yields a sound stack, or it meets a NULL pointer and this is why.
abbrev pub YieldsUnless : Type 0 → Option Stack → Type 0
YieldsUnless P o = Yields o ⊎ ((o ≡ none) × P)

-- The interactions, the resources, the time and the sockets are the same.
pub record Frame (s t : Stack) : Type 0 where
  pub same_interactions : t.interactions ≡ s.interactions
  pub same_resources : t.resources ≡ s.resources
  pub same_now : t.now ≡ s.now
  pub same_sockets : t.network.socket ≡ s.network.socket

Frame-if :
    (s : Stack) (b : Bool) (x y : SendState)
    → Frame s x.2
    → Frame s y.2
    → Frame s (if b then x else y).2
Frame-if s true x y f g = f
Frame-if s false x y f g = g

changed-Frame :
    (s : Stack) (h : Heap) (n : Network)
    → n.socket ≡ s.network.socket
    → Frame s (record s { heap = h; network = n })
changed-Frame s h n e = record {
  same_interactions = refl;
  same_resources = refl;
  same_now = refl;
  same_sockets = e;
}

transmit_datagram-Frame :
    (f : Heap → Heap) (size i : ℕ) (ep : NetEp) (d : List ℕ × Message × ℕ) (s : Stack)
    → Frame s (transmit_datagram f size i ep d s).2
unfolding transmit_datagram
transmit_datagram-Frame f size i ep (bytes, m, built) s =
    Frame-if s (s.network.transmit (length s.network.log) _) _ _ (changed-Frame s _ _ refl)
      (changed-Frame s _ _ refl)

send_in_buffer-Frame :
    (m : Message) (size i : ℕ) (ep : NetEp) (s : Stack) (a : Bool × Heap)
    → Frame s (send_in_buffer m size i ep s a).2
unfolding send_in_buffer
send_in_buffer-Frame m size i ep s (false, h) = record {
  same_interactions = refl;
  same_resources = refl;
  same_now = refl;
  same_sockets = refl;
}
send_in_buffer-Frame m size i ep s (true, h) =
    let f =
      transmit_datagram-Frame mem_release size i ep (build_datagram m) (record s { heap = h }) in
    record {
      same_interactions = f.same_interactions;
      same_resources = f.same_resources;
      same_now = f.same_now;
      same_sockets = f.same_sockets;
    }

send_through-Frame :
    (m : Message) (i : ℕ) (ep : NetEp) (s : Stack) (has_tx : Bool)
    → Frame s (send_through m i ep s has_tx).2
unfolding send_through
send_through-Frame m i ep s has_tx =
    let size = get_raw_size_of_message m % 65536 in
    Frame-if s has_tx _ _
      (Frame-if s (leb size 16) _ _
        (transmit_datagram-Frame (λ h. h) size i ep (build_datagram m) s)
        (send_in_buffer-Frame m size i ep s (mem_get size s.heap)))
      (changed-Frame s s.heap s.network refl)

-- What the sending leads to, if the interface has a socket.
abbrev pub Sends : Stack → Option SendState → Type 0
Sends s o = (x : SendState) × (o ≡ some x) × Frame s x.2

pub send_msg-Frame :
    (m : Message) (i : ℕ) (ep : NetEp) (s : Stack)
    → Present (s.network.socket i)
    → Sends s (send_msg m i ep s)
unfolding send_msg
send_msg-Frame m i ep s = on (s.network.socket i)
  where
    on :
        (o : Option Bool)
        → Present o
        → Sends s (elim o [ none ↦ none | some has_tx ↦ some (send_through m i ep s has_tx) ])
    on none p = elim p [ ]
    on (some has_tx) p = (send_through m i ep s has_tx, refl, send_through-Frame m i ep s has_tx)
