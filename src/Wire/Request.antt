-- ===== src/Wire/Request.antt =====
-- The checks of one command and of an external request (`validate_command`,
-- `validate_external_request` and `valid_external_request_target` in
-- native/strategy_core_v3/src/decision_v6.rs). Lengths in memory do not saturate.
use Prim.Native.String
use strategy_core.Common.{
  ℕ, ◌+◌, Bool, not, ◌&&◌, ◌||◌, String, List, [], ◌∷◌, length, any, ltb, ◌==◌, is_some,
  is_some_and, if◌then◌else◌, Result, ok, err, ◌>>=◌, ◌>>◌, fail_if,
}
use strategy_core.Common.Int.{pos, leb_ℤ}
use strategy_core.Wire.Bounds.{
  i64_max, max_command_metadata_bytes, max_short_text_bytes, max_reason_bytes,
  max_timer_semantics_bytes_v6, max_external_request_bytes, max_external_request_timeout_ms,
  max_command_request_args,
}
use strategy_core.Wire.Commands.{
  ExternalRequestKindV6, PlaceOrderV6, CancelTargetV6, StrategyCommandV6, command_id,
}
use strategy_core.Wire.Text.{
  DecisionV6Error, invalid_contract, bound_exceeded, Checked, codes, valid_identifier,
  valid_provider_client_id, valid_text, valid_optional_text,
}
use strategy_core.Wire.Paths.{valid_http_path}
use strategy_core.Plan.Terms.{place_order_terms_error}

abbrev pub has_code : ℕ → String → Bool
has_code c text = any (λ d. d == c) (codes text)

unfoldable pub valid_external_request_target : String → Bool
valid_external_request_target name = valid_identifier name && not (has_code b':' name)

abbrev pub total_len : List String → ℕ
total_len [] = 0
total_len (arg ∷ args) = String.len arg + total_len args

-- The bytes of the path or of the arguments.
unfoldable pub request_bytes : ExternalRequestKindV6 → Result DecisionV6Error ℕ
request_bytes (ExternalRequestKindV6.http method path) =
    if not (valid_http_path path) then err invalid_contract else ok (String.len path)
request_bytes (ExternalRequestKindV6.command args) =
    if ltb max_command_request_args (length args)
    then err bound_exceeded
    else if any (has_code 0) args
    then err invalid_contract
    else ok (total_len args)

unfoldable pub validate_external_request : ExternalRequestKindV6 → String → List ℕ → ℕ → Checked
unfolding request_bytes valid_external_request_target
validate_external_request kind target payload timeout_ms =
    fail_if
      (not (valid_external_request_target target)
        || timeout_ms == 0
        || ltb max_external_request_timeout_ms timeout_ms)
      invalid_contract
    >> (request_bytes kind >>= λ bytes.
        fail_if (ltb max_external_request_bytes (bytes + length payload)) bound_exceeded)

-- The checks of a place.
unfoldable pub bad_place : PlaceOrderV6 → Bool
bad_place order =
    not (valid_identifier order.market_id)
    || order.quantity_hundredths == 0
    || ltb i64_max order.quantity_hundredths
    || not (valid_provider_client_id order.provider_client_id)
    || ltb max_command_metadata_bytes (length order.metadata)
    || not (valid_optional_text order.signal_type max_short_text_bytes)
    || not (valid_optional_text order.signal_metadata max_command_metadata_bytes)
    || is_some_and order.expires_after_ms (λ ttl. leb_ℤ ttl (pos 0))
    || is_some (place_order_terms_error order)

abbrev pub valid_target : CancelTargetV6 → Bool
valid_target (CancelTargetV6.order order_id revision) = valid_identifier order_id
valid_target (CancelTargetV6.same_decision client_id) = valid_provider_client_id client_id

-- The match on the command.
unfoldable pub validate_kind : StrategyCommandV6 → Checked
unfolding bad_place validate_external_request
validate_kind (StrategyCommandV6.place_order placed) = fail_if (bad_place placed) invalid_contract
validate_kind (StrategyCommandV6.cancel_order id target) =
    fail_if (not (valid_target target)) invalid_contract
validate_kind (StrategyCommandV6.cancel_all_orders id) = ok tt
validate_kind (StrategyCommandV6.schedule_timer id key at generation semantics) =
    fail_if
      (not (valid_identifier key)
        || not (valid_identifier generation)
        || ltb max_timer_semantics_bytes_v6 (length semantics))
      bound_exceeded
validate_kind (StrategyCommandV6.cancel_timer id key generation) =
    fail_if (not (valid_identifier key) || not (valid_identifier generation)) invalid_contract
validate_kind (StrategyCommandV6.stop id reason) =
    fail_if (not (valid_text reason max_reason_bytes)) bound_exceeded
validate_kind (StrategyCommandV6.external_request id kind target payload timeout) =
    validate_external_request kind target payload timeout

unfoldable pub validate_command : StrategyCommandV6 → Checked
unfolding validate_kind
validate_command command =
    fail_if (not (valid_identifier (command_id command))) invalid_contract >> validate_kind command
