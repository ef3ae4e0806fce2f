-- ===== src/CoapResult.antt =====
-- The result codes of coap/server/lobaro-coap/coap.h.
use sming_coap.Base.{Bool, true, false}

pub data CoapResult : Type 0 where
  ok not_found : CoapResult
  parse_datagram_too_short parse_unknown_coap_version parse_message_format_error : CoapResult
  parse_too_many_options parse_too_long_option parse_too_much_payload : CoapResult
  pack_too_many_options pack_too_long_option : CoapResult
  err_argument err_socket err_network err_out_of_memory err_too_long_uri_path : CoapResult
  err_not_found err_wrong_option err_existing : CoapResult
  coap_true coap_false err_wrong_request bad_option_val bad_option_len : CoapResult
  removed err_unknown err_remote_rst err_out_of_attempts err_timeout : CoapResult
  waiting holding_back retry : CoapResult

-- `result == COAP_OK`
abbrev pub is_ok : CoapResult → Bool
is_ok ok = true
is_ok _ = false

-- `result == COAP_ERR_OUT_OF_MEMORY`
abbrev pub is_out_of_memory : CoapResult → Bool
is_out_of_memory err_out_of_memory = true
is_out_of_memory _ = false
