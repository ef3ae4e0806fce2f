-- ===== src/Tests/OptionTypes.antt =====
-- The typed options, the comparisons of options and of endpoints at concrete inputs.
use sming_coap.Base.{ℕ, ◌≡◌, ◌↔◌, ◌⊎◌, inr, refl, arith, ◌<◌, true, false, [], ◌∷◌, All}
use sming_coap.Heap.{fresh_heap}
use sming_coap.CoapResult.{ok}
use sming_coap.Options.{check_for_unknown_critical_option}
use sming_coap.Options.Equal.{check_for_unknown_critical_option_lem, Tolerated, FirstCritical}
use sming_coap.OptionTypes.Block.{BlockOption, add_blk_option_to_msg, get_block_option_from_msg}
use sming_coap.OptionTypes.BlockCodec.{get_block-add_blk}
use sming_coap.OptionTypes.UriEqual.{uri_options_are_equal, uri_options_are_equal-Decides, Decides}
use sming_coap.Endpoint.{NetEp, ep_are_equal}
use sming_coap.Endpoint.NetInterfaceType.{ipv4}
use sming_coap.Endpoint.Equal.{ep_are_equal_iff}
use sming_coap.Tests.Options.{path_option, two_options}

-- Block 20 of 64 bytes each, with more to come.
abbrev block : BlockOption
block = record { block_type = 23; block_size = 64; more_flag = true; block_num = 20 }

abbrev no_block : BlockOption
no_block = record { block_type = 0; block_size = 0; more_flag = false; block_num = 0 }

get_block-add_blk_example :
    get_block_option_from_msg (add_blk_option_to_msg two_options block fresh_heap).1 23 no_block
    ≡ (ok, block)
get_block-add_blk_example =
    get_block-add_blk block no_block two_options fresh_heap
      (inr refl, (2, omega arith, refl), omega arith) refl (omega arith)

check_for_unknown_critical_option_lem_example :
    ((check_for_unknown_critical_option two_options ≡ 0) × All Tolerated two_options)
    ⊎ FirstCritical two_options (check_for_unknown_critical_option two_options)
check_for_unknown_critical_option_lem_example = check_for_unknown_critical_option_lem two_options

uri_options_are_equal-Decides_example :
    Decides (uri_options_are_equal two_options (path_option ∷ [])) two_options (path_option ∷ [])
uri_options_are_equal-Decides_example = uri_options_are_equal-Decides two_options (path_option ∷ [])

abbrev pub gateway : NetEp
gateway = record { net_type = ipv4; address = λ _. 10; port = 5683 }

ep_are_equal_iff_example : (ep_are_equal gateway gateway ≡ true) ↔ (
    (gateway.net_type ≡ gateway.net_type)
    × (gateway.port ≡ gateway.port)
    × ((j : ℕ) → j < 4 → gateway.address j ≡ gateway.address j))
ep_are_equal_iff_example = ep_are_equal_iff gateway gateway (λ _. omega arith) (λ _. omega arith)
