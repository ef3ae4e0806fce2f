-- ===== src/Tests/Blocks.antt =====
-- Payloads in blocks at concrete inputs.
use sming_coap.OptionTypes.BlockRemoval.{releases, remove_all_block_options_lem}
use sming_coap.Tests.Options.{path_option}
use sming_coap.OptionTypes.FirstBlock.{First, set_payload-First}
use sming_coap.OptionTypes.NoBlock.{Refuses, set_payload-Refuses}
use sming_coap.Heap.{fresh_heap}
use sming_coap.OptionTypes.Blockwise.{Serves, set_payload-Serves}
use sming_coap.OptionTypes.Placed.{source_of}
use sming_coap.OptionTypes.Transfer.{fetch, asked, fetch-all, block_request, read_request}
use sming_coap.OptionTypes.SetPayload.{limit_block, asked_block, set_payload}
use sming_coap.OptionTypes.Block.{BlockOption, remove_all_block_options_from_msg}
use sming_coap.Message.{ack, in_message, Message, init_to_empty_reset_msg}
use sming_coap.Message.Create.{zeros}
use sming_coap.Options.{CoapOption}
use sming_coap.CoapResult.{ok}
use sming_coap.Base.{
  ℕ, ◌≡◌, refl, arith, true, false, List, [], ◌∷◌, none, some, inr, zero, suc, take, drop,
}

-- A response with a buffer of 16 bytes.
abbrev response : Message
response = record init_to_empty_reset_msg {
  type = ack;
  code = 69;
  payload_buf_size = 16;
  payload = in_message (zeros 16);
}

-- The numbers below `n`, downwards.
abbrev countdown : ℕ → List ℕ
countdown zero = []
countdown (suc n) = n ∷ countdown n

-- 40 bytes, which are three blocks of 16.
abbrev forty : List ℕ
forty = countdown 40

abbrev second : BlockOption
second = asked 16 1

abbrev block_option : CoapOption
block_option = record { number = 23; value = 8 ∷ [] }

set_payload-Serves_example :
    Serves second true
      (take 16 (drop 16 forty))
      (set_payload (some (block_request 16 1)) response (source_of true forty) 40 fresh_heap)
unfolding limit_block
set_payload-Serves_example =
    set_payload-Serves (block_request 16 1) response second true forty fresh_heap (λ k n. refl)
      (read_request 16 1 (inr refl, (0, omega arith, refl), omega arith))
      (inr refl, (0, omega arith, refl), omega arith) refl (omega arith) tt

fetch-all_example : fetch (λ _. response) (λ _. fresh_heap) false forty 16 3 0 ≡ some forty
fetch-all_example =
    fetch-all (λ _. response) (λ _. fresh_heap) false forty 0 3 (λ k. tt) (λ k m n. refl)
      (omega arith) (omega arith) (omega arith) (omega arith)

set_payload-First_example :
    First response
      (countdown 300)
      (set_payload none response (source_of true (countdown 300)) 300 fresh_heap)
unfolding asked_block init_to_empty_reset_msg
set_payload-First_example =
    set_payload-First none response true (countdown 300) fresh_heap (λ k n. refl) refl tt
      (omega arith) tt

set_payload-Refuses_example :
    Refuses response
      (set_payload (some (block_request 16 5)) response (source_of true forty) 40 fresh_heap)
unfolding limit_block asked_block
set_payload-Refuses_example =
    set_payload-Refuses (some (block_request 16 5)) response (asked 16 5) (source_of true forty) 40
      fresh_heap (λ k n. refl) (read_request 16 5 (inr refl, (0, omega arith, refl), omega arith))
      (omega arith) (omega arith) tt

remove_all_block_options_lem_example :
    remove_all_block_options_from_msg (block_option ∷ path_option ∷ block_option ∷ []) 23 fresh_heap
    ≡ (ok, path_option ∷ [], releases 2 fresh_heap)
remove_all_block_options_lem_example =
    remove_all_block_options_lem (block_option ∷ path_option ∷ block_option ∷ []) 23 fresh_heap
