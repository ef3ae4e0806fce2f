-- ===== src/Work/Stored.antt =====
-- The changes of the head of the list of interactions in coap/server/lobaro-coap/coap_main.c keep
-- well-formed interactions.
use sming_coap.Work.WellFormed.{IsSoundBehind, Fits, IsWellFormed, IsSound, Frame}
use sming_coap.Base.{ℕ, ◌≤◌, ◌<◌, ◌≡◌, arith, List, [], ◌∷◌, Option, some, All-append}
use sming_coap.Message.{Message, MessageType, con, non, ack, rst}
use sming_coap.Interaction.{
  Interaction, InteractionRole, role_not_set, server, notification, client, InteractionState,
  max_retransmit, append_interaction_to_list, move_interaction_to_list_end,
  unlink_interaction_from_list, enable_ack_timeout,
}
use sming_coap.Resource.{Resource}
use sming_coap.Stack.{Stack}
use sming_coap.Work.{
  behind, put_head, enqueue_last, delete_interaction, count_retry, resp_sent_as, req_sent_as,
}

pub enqueue_last-IsSound :
    (ia : Interaction) (s : Stack)
    → IsSoundBehind s
    → IsWellFormed s.resources ia
    → IsSound (enqueue_last ia s)
unfolding enqueue_last move_interaction_to_list_end append_interaction_to_list
enqueue_last-IsSound ia s b w =
    All-append (IsWellFormed s.resources) (behind s.interactions) (ia ∷ []) b (w, tt)

pub delete_interaction-IsSound :
    (ia : Interaction) (s : Stack) → IsSoundBehind s → IsSound (delete_interaction ia s)
unfolding delete_interaction unlink_interaction_from_list
delete_interaction-IsSound ia s b = b

pub put_head-IsSound :
    (ia : Interaction) (s : Stack)
    → IsSoundBehind s
    → IsWellFormed s.resources ia
    → IsSound (put_head ia s)
put_head-IsSound ia s b w = (w, b)

-- The rest is sound after a message was sent.
pub Frame-IsSoundBehind : (s t : Stack) → Frame s t → IsSoundBehind s → IsSoundBehind t
Frame-IsSoundBehind s t f b = rw (f.same_interactions, f.same_resources) b

-- An interaction that has a response fits in every state.
pub Fits-answered :
    (role : InteractionRole) (rs : List Resource) (req old : Option Message) (res : Option ℕ)
    (st next : InteractionState) (m : Message)
    → Fits role rs req res st old
    → Fits role rs req res next (some m)
Fits-answered role_not_set rs req old res st next m f = tt
Fits-answered server rs req old res st next m (p, q, r) = (p, q, tt)
Fits-answered notification rs req old res st next m (p, q) = (tt, q)
Fits-answered client rs req old res st next m p = p

pub resp_sent_as-IsWellFormed :
    (t : MessageType) (now : ℕ) (rs : List Resource) (ia : Interaction) (m : Message)
    (next : InteractionState)
    → IsWellFormed rs ia
    → IsWellFormed rs (resp_sent_as t now ia m next)
unfolding resp_sent_as enable_ack_timeout
resp_sent_as-IsWellFormed con now rs ia m next (l, f) =
    (l, Fits-answered ia.role rs ia.req_msg ia.resp_msg ia.resource ia.state next m f)
resp_sent_as-IsWellFormed non now rs ia m next (l, f) =
    (l, Fits-answered ia.role rs ia.req_msg ia.resp_msg ia.resource ia.state next m f)
resp_sent_as-IsWellFormed ack now rs ia m next (l, f) =
    (l, Fits-answered ia.role rs ia.req_msg ia.resp_msg ia.resource ia.state next m f)
resp_sent_as-IsWellFormed rst now rs ia m next (l, f) =
    (l, Fits-answered ia.role rs ia.req_msg ia.resp_msg ia.resource ia.state next m f)

pub req_sent_as-IsWellFormed :
    (t : MessageType) (now : ℕ) (rs : List Resource) (ia : Interaction) (m : Message)
    (next : InteractionState)
    → ia.role ≡ client
    → ia.retrans_counter ≤ max_retransmit
    → IsWellFormed rs (req_sent_as t now ia m next)
unfolding req_sent_as enable_ack_timeout
req_sent_as-IsWellFormed con now rs ia m next e l = rw e (l, tt)
req_sent_as-IsWellFormed non now rs ia m next e l = rw e (l, tt)
req_sent_as-IsWellFormed ack now rs ia m next e l = rw e (l, tt)
req_sent_as-IsWellFormed rst now rs ia m next e l = rw e (l, tt)

pub count_retry-IsWellFormed :
    (now : ℕ) (rs : List Resource) (ia : Interaction)
    → ia.retrans_counter < max_retransmit
    → IsWellFormed rs ia
    → IsWellFormed rs (count_retry now ia)
unfolding count_retry enable_ack_timeout
count_retry-IsWellFormed now rs ia l (k, f) = (omega arith, f)
