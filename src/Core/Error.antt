-- ===== src/Core/Error.antt =====
-- core/error.go. Go's `error` values as a tree: what `errors.Is` and `errors.As` walk.
use Prim.Native.String.{◌++◌}
use zju_portal_core.Base.{
  String, Bool, false, ◌||◌, Option, none, some, ◌==◌, string_eq, if◌then◌else◌,
}

pub data ErrorCode : Type 0 where
  unknown resource_data_read_failed client_data_write_failed atrust_setup_failed : ErrorCode
  invalid_state_transition auth_challenge_invalid auth_response_invalid : ErrorCode
  auth_handler_unavailable session_start_failed session_already_running : ErrorCode
  session_reconnect_failed session_close_failed invalid_request method_not_found : ErrorCode
  protocol_unsupported session_not_found session_not_ready resources_unavailable : ErrorCode
  network_setup_failed outbound_unavailable auth_challenge_not_found connection_not_found :
      ErrorCode
  resume_state_invalid resume_state_scope resume_state_unavailable config_invalid : ErrorCode
  config_unavailable restart_required address_in_use permission_denied tun_unavailable : ErrorCode
  interface_unavailable route_setup_failed dns_start_failed : ErrorCode

-- `plain` is a value of `errors.New`, known by its text; `wrapf` is `fmt.Errorf` with one `%w`;
-- `coded` is a `*core.Error` with no wrapped error and `coded_wrap` one with it.
pub data Error : Type 0 where
  plain : String → Error
  wrapf : String → Error → Error
  join : Error → Error → Error
  coded : ErrorCode → String → Bool → Error
  coded_wrap : ErrorCode → String → String → Bool → Error → Error

unfoldable pub error_text : Error → String
error_text (plain s) = s
error_text (wrapf s e) = s
error_text (join a b) = error_text a ++ "\n" ++ error_text b
error_text (coded c m r) = m
error_text (coded_wrap c m d r e) =
    if m == "" then error_text e else if d == "" then m else m ++ ": " ++ d

unfoldable pub wrap_error : ErrorCode → String → Bool → Option Error → Error
wrap_error code message retryable none = coded code message retryable
wrap_error code message retryable (some e) = coded_wrap code message (error_text e) retryable e

-- The first `*core.Error` that `errors.As` meets: its code and whether it is retryable.
unfoldable pub find_coded : Error → Option (ErrorCode × Bool)
find_coded (plain s) = none
find_coded (wrapf s e) = find_coded e
find_coded (join a b) = elim (find_coded a) [ none ↦ find_coded b | some x ↦ some x ]
find_coded (coded c m r) = some (c, r)
find_coded (coded_wrap c m d r e) = some (c, r)

unfoldable pub error_code_of : Option Error → ErrorCode
unfolding find_coded
error_code_of none = unknown
error_code_of (some e) = elim (find_coded e) [ none ↦ unknown | some x ↦ x.0 ]

unfoldable pub is_retryable : Option Error → Bool
unfolding find_coded
is_retryable none = false
is_retryable (some e) = elim (find_coded e) [ none ↦ false | some x ↦ x.1 ]

-- `errors.Is` with a sentinel made by `errors.New`.
unfoldable pub is_error : Error → String → Bool
is_error (plain s) target = s == target
is_error (wrapf s e) target = is_error e target
is_error (join a b) target = is_error a target || is_error b target
is_error (coded c m r) target = false
is_error (coded_wrap c m d r e) target = is_error e target

unfoldable pub is_error? : Option Error → String → Bool
unfolding is_error
is_error? none target = false
is_error? (some e) target = is_error e target
