-- ===== src/Options.antt =====
-- The option list of coap/server/lobaro-coap/coap_options.c and .h. A linked list is a list of
-- its nodes, a pointer to a node is the node's position, and NULL is the position behind the end.
-- The node's `Length` is the length of its value, which append_OptionToListEnd copies whole.
pub mod Insert
pub mod Pack
pub mod Parse
pub mod Loop
pub mod Size
pub mod PackedOption
pub mod RoundTrip
pub mod Bounds
pub mod Heads
pub mod Equal
pub mod Validity
use sming_coap.Base.{
  ℕ, zero, suc, ◌+◌, ◌%◌, ◌≤◌, ◌<◌, Bool, true, false, ◌&&◌, List, [], ◌∷◌, ◌++◌, map, ltb, leb,
  ◌==◌, if◌then◌else◌, length, take, drop, remove_at, get_elem?,
}
use sming_coap.Heap.{Heap, mem_get, mem_release}
use sming_coap.CoapResult.{CoapResult, ok, err_out_of_memory}

pub record CoapOption : Type 0 where
  pub number : ℕ
  pub value : List ℕ

abbrev pub opt_num_uri_host : ℕ
opt_num_uri_host = 3

abbrev pub opt_num_etag : ℕ
opt_num_etag = 4

abbrev pub opt_num_observe : ℕ
opt_num_observe = 6

abbrev pub opt_num_uri_path : ℕ
opt_num_uri_path = 11

abbrev pub opt_num_content_format : ℕ
opt_num_content_format = 12

abbrev pub opt_num_uri_query : ℕ
opt_num_uri_query = 15

abbrev pub opt_block2 : ℕ
opt_block2 = 23

abbrev pub opt_block1 : ℕ
opt_block1 = 27

abbrev pub known_options : List ℕ
known_options =
    opt_num_uri_path ∷ opt_block2 ∷ opt_block1 ∷ opt_num_etag ∷ opt_num_content_format
    ∷ opt_num_uri_query ∷ []

abbrev pub max_option_value_size : ℕ
max_option_value_size = 1034

-- `sizeof(CoAP_option_t)` on the 32-bit target: next, Number, Length, Value.
abbrev pub sizeof_option : ℕ
sizeof_option = 12

-- What an operation on a list leaves: its result code, the list behind the pointer, the heap.
abbrev pub ListState : Type 0
ListState = CoapResult × List CoapOption × Heap

new_option : ℕ → List ℕ → CoapOption
new_option number buf = record { number = number; value = buf }

-- What follows an allocation: on NULL the list is `failed`, otherwise `made`.
alloc_node : Bool × Heap → List CoapOption → List CoapOption → ListState
alloc_node (false, h) failed made = (err_out_of_memory, failed, h)
alloc_node (true, h) failed made = (ok, made, h)

unfoldable pub append_option_to_list_end : List CoapOption → ℕ → List ℕ → Heap → ListState
unfolding new_option alloc_node mem_get
append_option_to_list_end [] number buf h =
    alloc_node (mem_get (sizeof_option + length buf) h) [] (new_option number buf ∷ [])
append_option_to_list_end (o ∷ os) number buf h =
    alloc_node (mem_get (sizeof_option + length buf) h) (o ∷ os)
      ((o ∷ os) ++ (new_option number buf ∷ []))

-- The pointer that the search loop stops at: the first option with a greater number.
unfoldable pub insert_point : List CoapOption → ℕ → ℕ
insert_point [] number = 0
insert_point (o ∷ os) number = if leb o.number number then suc (insert_point os number) else 0

-- The three cases of the insertion, by the pointer's place. In the second case the list's start
-- is overwritten by the allocation's result before that is tested.
unfoldable pub insert_at : ℕ → List CoapOption → ℕ → List ℕ → Heap → ListState
unfolding append_option_to_list_end new_option alloc_node mem_get
insert_at place opts number buf h =
    if place == length opts
    then append_option_to_list_end opts number buf h
    else if place == 0
    then alloc_node (mem_get (sizeof_option + length buf) h) [] (new_option number buf ∷ opts)
    else alloc_node (mem_get (sizeof_option + length buf) h) opts
        (take place opts ++ (new_option number buf ∷ drop place opts))

unfoldable pub append_option_to_list : List CoapOption → ℕ → List ℕ → Heap → ListState
unfolding insert_at insert_point append_option_to_list_end
append_option_to_list [] number buf h = append_option_to_list_end [] number buf h
append_option_to_list (o ∷ os) number buf h =
    insert_at (insert_point (o ∷ os) number) (o ∷ os) number buf h

unfoldable pub copy_option_to_list : List CoapOption → CoapOption → Heap → ListState
unfolding append_option_to_list
copy_option_to_list opts o h = append_option_to_list opts o.number o.value h

-- The node at a position is unlinked and released; a pointer that is not in the list does nothing.
unfoldable pub remove_option_from_list : List CoapOption → ℕ → Heap → ListState
unfolding mem_release
remove_option_from_list opts place h =
    if ltb place (length opts) then (ok, remove_at place opts, mem_release h) else (ok, opts, h)

-- The second node is released until there is none, then the first.
unfoldable pub free_option_list : List CoapOption → Heap → Heap
unfolding mem_release
free_option_list [] h = h
free_option_list (o ∷ []) h = mem_release h
free_option_list (o ∷ (p ∷ os)) h = free_option_list (o ∷ os) (mem_release h)

abbrev is_known : ℕ → List ℕ → Bool
is_known number [] = false
is_known number (k ∷ ks) = if number == k then true else is_known number ks

-- The number of the first option that is unknown and critical (an odd number), 0 if there is none.
unfoldable pub check_for_unknown_critical_option : List CoapOption → ℕ
check_for_unknown_critical_option [] = 0
check_for_unknown_critical_option (o ∷ os) =
    let rest = check_for_unknown_critical_option os in
    if is_known o.number known_options then rest else if o.number % 2 == 1 then o.number else rest

unfoldable pub bytes_are_equal : List ℕ → List ℕ → Bool
bytes_are_equal [] ys = true
bytes_are_equal (x ∷ xs) [] = false
bytes_are_equal (x ∷ xs) (y ∷ ys) = if x == y then bytes_are_equal xs ys else false
