-- ===== src/OptionTypes/Uri.antt =====
-- The path and query options of a uri string, and the value of a query option:
-- coap/server/lobaro-coap/option-types/coap_option_uri.c. A string is the list of its characters;
-- the list's end is the terminating NUL, and a pointer into the string is what stands from it on.
use sming_coap.Base.{
  ℕ, ◌+◌, ◌%◌, ◌^◌, Bool, true, false, ◌||◌, List, [], ◌∷◌, Option, none, some, ltb, leb, ◌==◌,
  if◌then◌else◌, length, take, drop,
}
use sming_coap.Heap.{Heap}
use sming_coap.CoapResult.{ok, err_argument}
use sming_coap.Options.{
  CoapOption, ListState, opt_num_uri_path, opt_num_uri_query, append_option_to_list,
}

-- The variables of the two loops: `part` is pCurUriPartBegin, `cnt` counts the characters of the
-- part so far.
pub record Splitting : Type 0 where
  pub part : List ℕ
  pub cnt : ℕ
  pub opts : List CoapOption
  pub heap : Heap

-- The option's length is an uint16_t. The result of the append is not looked at.
unfoldable pub append_part : ℕ → Splitting → Splitting
unfolding append_option_to_list
append_part number st =
    let after = append_option_to_list st.opts number (take (st.cnt % 65536) st.part) st.heap in
    record st { opts = after.1; heap = after.2 }

-- A part that begins with a delimiter is moved behind it; otherwise the part is added.
unfoldable pub at_delimiter : ℕ → Splitting → Splitting
unfolding append_part
at_delimiter number st =
    if st.cnt == 0
    then record st { part = drop 1 st.part }
    else record (append_part number st) { part = drop (st.cnt + 1) st.part; cnt = 0 }

unfoldable pub count_character : Splitting → Splitting
count_character st = record st { cnt = (st.cnt + 1) % 2 ^ 32 }

unfoldable pub last_part : ℕ → Splitting → ListState
unfolding append_part
last_part number st =
    let after = append_part number st in
    if st.cnt == 0 then (ok, st.opts, st.heap) else (ok, after.opts, after.heap)

unfoldable pub query_loop : List ℕ → Splitting → ListState
unfolding at_delimiter count_character last_part
query_loop [] st = last_part opt_num_uri_query st
query_loop (c ∷ cs) st =
    query_loop cs (if c == b'&' then at_delimiter opt_num_uri_query st else count_character st)

unfoldable pub parse_uri_query_from_string_to_option : List CoapOption → List ℕ → Heap → ListState
unfolding query_loop
parse_uri_query_from_string_to_option opts query h =
    query_loop query (record { part = query; cnt = 0; opts = opts; heap = h })

abbrev pub is_uri_delimiter : ℕ → Bool
is_uri_delimiter c = (c == b'/') || ((c == b' ') || (c == b'?'))

-- At a question mark the part that it ends is added, and the rest is the query.
unfoldable pub at_question_mark : List ℕ → Splitting → ListState
unfolding append_part parse_uri_query_from_string_to_option
at_question_mark query st =
    let after = append_part opt_num_uri_path st in
    if st.cnt == 0
    then parse_uri_query_from_string_to_option st.opts query st.heap
    else parse_uri_query_from_string_to_option after.opts query after.heap

unfoldable pub uri_string_loop : List ℕ → Splitting → ListState
unfolding at_delimiter count_character last_part at_question_mark
uri_string_loop [] st = last_part opt_num_uri_path st
uri_string_loop (c ∷ cs) st =
    let rest =
      uri_string_loop cs
        (if is_uri_delimiter c then at_delimiter opt_num_uri_path st else count_character st) in
    if c == b'?' then at_question_mark cs st else rest

-- `none` is the NULL pointer.
unfoldable pub append_uri_options_from_string : List CoapOption → Option (List ℕ) → Heap → ListState
unfolding uri_string_loop
append_uri_options_from_string opts none h = (err_argument, opts, h)
append_uri_options_from_string opts (some uri) h =
    uri_string_loop uri (record { part = uri; cnt = 0; opts = opts; heap = h })

-- The value behind a prefix that it has; the bytes are compared from the first on.
unfoldable pub after_prefix : List ℕ → List ℕ → Option (List ℕ)
after_prefix [] value = some value
after_prefix (p ∷ prefix) [] = none
after_prefix (p ∷ prefix) (v ∷ value) = if v == p then after_prefix prefix value else none

-- The value of a query option behind a prefix that is shorter than the option; no option is NULL.
unfoldable pub get_uri_query_val : Option CoapOption → List ℕ → Option (List ℕ)
unfolding after_prefix
get_uri_query_val none prefix = none
get_uri_query_val (some o) prefix =
    if o.number == opt_num_uri_query
    then (if (length o.value == 0) || ltb 255 (length o.value)
        then none
        else if leb (length o.value) (length prefix)
        then none
        else after_prefix prefix o.value)
    else none

unfoldable pub same_characters : List ℕ → List ℕ → Bool
same_characters [] [] = true
same_characters (x ∷ xs) (y ∷ ys) = if x == y then same_characters xs ys else false
same_characters _ _ = false

-- The number of the first string, counted from 1, that is the value; 0 if there is none.
unfoldable pub match_strings : ℕ → List ℕ → List (List ℕ) → ℕ
unfolding same_characters
match_strings i value [] = 0
match_strings i value (s ∷ strings) =
    let rest = match_strings (i + 1) value strings in if same_characters s value then i else rest

abbrev match_value : Option (List ℕ) → List (List ℕ) → ℕ
unfolding match_strings
match_value none strings = 0
match_value (some value) strings = match_strings 1 value strings

-- The variable arguments are a list of strings; the result is an int8_t, so that there are at most
-- 127 strings.
unfoldable pub find_uri_query_val : Option CoapOption → List ℕ → List (List ℕ) → ℕ
unfolding get_uri_query_val match_strings
find_uri_query_val o prefix strings = match_value (get_uri_query_val o prefix) strings
