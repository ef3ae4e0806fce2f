-- ===== src/Receive/Duplicate.antt =====
-- The detection of duplicated requests in CoAP_StartNewServerInteraction of
-- coap/server/lobaro-coap/coap_interaction.c.
use sming_coap.Base.{
  ℕ, zero, suc, ◌≡◌, refl, arith, List, [], ◌∷◌, ◌++◌, Bool, true, false, Option, none, some, sym,
  ap, and_then, if◌then◌else◌,
}
use sming_coap.Heap.{Heap, mem_get}
use sming_coap.CoapResult.{ok, err_existing, err_argument, CoapResult}
use sming_coap.Endpoint.{
  NetEp, NetInterfaceType, ep_are_equal, same_type, same_bytes, same_words, same_address,
}
use sming_coap.Endpoint.NetInterfaceType.{ipv6, ipv4, btle, uart}
use sming_coap.Message.{Message, msg_is_request}
use sming_coap.Interaction.{
  Interaction, append_interaction_to_list, sizeof_interaction, server, handle_request,
  new_interaction,
}
use sming_coap.Stack.{Stack}
use sming_coap.Receive.Start.{
  is_same_request, find_same_request, start_new_server_interaction, start_interaction,
  acknowledge_again, start_unless, comes_from,
}

same_bytes_refl : (i n : ℕ) (a : ℕ → ℕ) → same_bytes i n a a ≡ true
unfolding same_bytes
same_bytes_refl i zero a = refl
same_bytes_refl i (suc n) a = ground (arith, same_bytes_refl (suc i) n a)

same_words_refl : (i n : ℕ) (a : ℕ → ℕ) → same_words i n a a ≡ true
unfolding same_words
same_words_refl i zero a = refl
same_words_refl i (suc n) a = ground (arith, same_words_refl (suc i) n a)

same_address_refl : (t : NetInterfaceType) (a : ℕ → ℕ) → same_address t a a ≡ true
unfolding same_address
same_address_refl ipv6 a = same_words_refl 0 4 a
same_address_refl ipv4 a = same_bytes_refl 0 4 a
same_address_refl btle a = same_bytes_refl 0 16 a
same_address_refl uart a = same_bytes_refl 0 16 a

same_type_refl : (t : NetInterfaceType) → same_type t t ≡ true
unfolding same_type
same_type_refl ipv6 = refl
same_type_refl ipv4 = refl
same_type_refl btle = refl
same_type_refl uart = refl

ep_are_equal_refl : (ep : NetEp) → ep_are_equal ep ep ≡ true
unfolding ep_are_equal
ep_are_equal_refl ep =
    ground (arith, same_type_refl ep.net_type, same_address_refl ep.net_type ep.address)

-- A request that was not found in a list is found where it is added to it.
find_same_request-append :
    (id if_id : ℕ) (ep : NetEp) (ias : List Interaction) (ia : Interaction)
    → find_same_request id if_id ep ias ≡ some none
    → is_same_request id if_id ep ia ≡ some true
    → find_same_request id if_id ep (ias ++ (ia ∷ [])) ≡ some (some ia)
unfolding find_same_request
find_same_request-append id if_id ep [] ia none_there e = rw e refl
find_same_request-append id if_id ep (ib ∷ ias) ia none_there e =
    behind_first (λ f. find_same_request-append id if_id ep ias ia f e)
      (is_same_request id if_id ep ib) none_there
  where
    behind_first :
        (find_same_request id if_id ep ias ≡ some none
          → find_same_request id if_id ep (ias ++ (ia ∷ [])) ≡ some (some ia))
        → (o : Option Bool)
        → and_then (λ same. if same then some (some ib) else find_same_request id if_id ep ias) o
          ≡ some none
        → and_then
            (λ same.
              if same then some (some ib) else find_same_request id if_id ep (ias ++ (ia ∷ [])))
            o
          ≡ some (some ia)
    behind_first later none f = ground (arith, f)
    behind_first later (some true) f = ground (arith, f)
    behind_first later (some false) f = later f

some-injective : {x y : CoapResult × Stack} → some x ≡ some y → x ≡ y
some-injective {x} e = ap (λ o. elim o [ none ↦ x | some z ↦ z ]) e

-- A new interaction stands at the end of the list.
start_interaction_ok :
    (ia : Interaction) (s t : Stack) (a : Bool × Heap)
    → start_interaction ia s a ≡ (ok, t)
    → t.interactions ≡ s.interactions ++ (ia ∷ [])
unfolding start_interaction append_interaction_to_list
start_interaction_ok ia s t (false, h) e = ground (arith, e)
start_interaction_ok ia s t (true, h) e = sym (ap (λ x. x.1.interactions) e)

-- The interaction of a request that is taken.
abbrev taken_as : Message → Option ℕ → ℕ → NetEp → Option (ℕ × ℕ) → Interaction
taken_as req resource if_id ep meta = record (new_interaction ep) {
  if_id = if_id;
  resource = resource;
  role = server;
  state = handle_request;
  meta_info = meta;
  req_msg = some req;
}

-- The first start was done, so that the request was in no interaction before and is in the last one.
module _ (req : Message) (resource : Option ℕ) (if_id : ℕ) (ep : NetEp) (meta : Option (ℕ × ℕ))
    (s t : Stack) where
  abbrev Taken : Option (Option Interaction) → Type 0
  Taken o =
      (o ≡ some none)
      × (t.interactions ≡ s.interactions ++ (taken_as req resource if_id ep meta ∷ []))

  -- A request that was found is not answered with COAP_OK.
  found_not_ok :
      (o : Option Stack)
      → and_then {B = CoapResult × Stack} (λ u. some (err_existing, u)) o ≡ some (ok, t)
      → ⊥
  found_not_ok none e = ground (arith, e)
  found_not_ok (some u) e = ground (arith, e)

  start_unless-Taken :
      (o : Option (Option Interaction))
      → and_then (λ found. start_unless found req resource if_id ep meta s) o ≡ some (ok, t)
      → Taken o
  unfolding start_unless
  start_unless-Taken none e = ground (arith, e)
  start_unless-Taken (some none) e = (
    refl,
    start_interaction_ok (taken_as req resource if_id ep meta) s t
        (mem_get sizeof_interaction s.heap) (some-injective e),
  )
  start_unless-Taken (some (some ia)) e =
      absurd (found_not_ok (acknowledge_again ia s ia.req_msg) e)

  start_new-Taken :
      start_new_server_interaction req resource if_id ep meta s ≡ some (ok, t)
      → Taken (find_same_request req.message_id if_id ep s.interactions)
  unfolding start_new_server_interaction
  start_new-Taken e = by_kind (msg_is_request req) e
    where
      by_kind :
          (b : Bool)
          → (if b
              then and_then
                  (λ found. start_unless found req resource if_id ep meta s)
                  (find_same_request req.message_id if_id ep s.interactions)
              else some (err_argument, s))
            ≡ some (ok, t)
          → Taken (find_same_request req.message_id if_id ep s.interactions)
      by_kind true f =
          start_unless-Taken (find_same_request req.message_id if_id ep s.interactions) f
      by_kind false f = ground (arith, f)

  is_same_request-taken :
      is_same_request req.message_id if_id ep (taken_as req resource if_id ep meta) ≡ some true
  unfolding is_same_request comes_from new_interaction
  is_same_request-taken = ground (arith, ep_are_equal_refl ep)

  -- A request that was taken is recognised when it comes again: with the same id on the same
  -- interface from the same endpoint, whatever else the message holds, the answer is
  -- COAP_ERR_EXISTING, no NULL pointer is read, and the stack stays as it is.
  pub start_new_server_interaction_again :
      (req' : Message) (resource' : Option ℕ) (meta' : Option (ℕ × ℕ))
      → start_new_server_interaction req resource if_id ep meta s ≡ some (ok, t)
      → req'.message_id ≡ req.message_id
      → msg_is_request req' ≡ true
      → start_new_server_interaction req' resource' if_id ep meta' t ≡ some (err_existing, t)
  unfolding start_new_server_interaction start_unless acknowledge_again new_interaction
  start_new_server_interaction_again req' resource' meta' e same valid =
      let (none_there, at) = start_new-Taken e in
      let found : find_same_request req'.message_id if_id ep t.interactions
          ≡ some (some (taken_as req resource if_id ep meta)) =
        rw (same, at)
          (find_same_request-append req.message_id if_id ep s.interactions
            (taken_as req resource if_id ep meta) none_there is_same_request-taken) in
      rw (valid, found) (ground arith)
