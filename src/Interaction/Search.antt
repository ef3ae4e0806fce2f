-- ===== src/Interaction/Search.antt =====
-- The search for an interaction by a message id, and the time to wait for an acknowledgement, in
-- coap/server/lobaro-coap/coap_interaction.c.
use sming_coap.Base.{
  ℕ, zero, suc, ◌+◌, ◌^◌, ◌≤◌, ◌<◌, ◌≡◌, refl, arith, ap, List, [], ◌∷◌, ◌++◌, false, none, All,
}
use sming_coap.Interaction.{
  Interaction, has_message_id, search_before_last, get_interaction_by_message_id, wait_time,
  enable_ack_timeout, max_retransmit,
}

-- The interaction's request does not have this id.
abbrev pub Misses : ℕ → Interaction → Type 0
Misses id ia = has_message_id ia.req_msg id ≡ false

search_before_last-Misses :
    (id : ℕ) (ias : List Interaction) (last : Interaction)
    → All (Misses id) ias
    → search_before_last (ias ++ (last ∷ [])) id ≡ none
unfolding search_before_last
search_before_last-Misses id [] last a = refl
search_before_last-Misses id (ia ∷ []) last (e, a) = rw e refl
search_before_last-Misses id (ia ∷ (ib ∷ ias)) last (e, a) =
    rw e (search_before_last-Misses id (ib ∷ ias) last a)

-- The search never finds the last interaction of a list of more than one: if no interaction before
-- it has the id, the answer is NULL, whatever the last one's id is.
pub get_interaction_by_message_id-Misses :
    (id : ℕ) (ia : Interaction) (ias : List Interaction) (last : Interaction)
    → Misses id ia
    → All (Misses id) ias
    → get_interaction_by_message_id (ia ∷ (ias ++ (last ∷ []))) id ≡ none
unfolding get_interaction_by_message_id
get_interaction_by_message_id-Misses id ia ias last e a =
    rw e (search_before_last-Misses id (ia ∷ ias) last (e, a))

-- For each of the attempts that the stack makes, the time to wait doubles from two seconds on: the
-- timeout lies 2 ^ (n + 1) seconds ahead, for n of at most 4, as long as the clock does not wrap.
pub enable_ack_timeout_lem :
    (now n : ℕ) (ia : Interaction)
    → n ≤ max_retransmit
    → now + 32 < 2 ^ 32
    → enable_ack_timeout now ia n ≡ record ia { ack_timeout = now + 2 ^ suc n }
unfolding enable_ack_timeout wait_time
enable_ack_timeout_lem now zero ia h small = ap (λ t. record ia { ack_timeout = t }) (omega arith)
enable_ack_timeout_lem now (suc zero) ia h small =
    ap (λ t. record ia { ack_timeout = t }) (omega arith)
enable_ack_timeout_lem now (suc (suc zero)) ia h small =
    ap (λ t. record ia { ack_timeout = t }) (omega arith)
enable_ack_timeout_lem now (suc (suc (suc zero))) ia h small =
    ap (λ t. record ia { ack_timeout = t }) (omega arith)
enable_ack_timeout_lem now (suc (suc (suc (suc zero)))) ia h small =
    ap (λ t. record ia { ack_timeout = t }) (omega arith)
enable_ack_timeout_lem now (suc (suc (suc (suc (suc n))))) ia h small = ground arith
