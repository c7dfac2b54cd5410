-- ===== src/Errors.antt =====
-- errors/errors.go, and the `error` values that the program builds and inspects. `none` of
-- Option Error is the nil error. An error's text is not computed: a value that is printed into
-- another error (%s) is kept as a part of it, but it is not unwrapped from there.
pub mod Chain
mod Tests
use inngestgo.Prelude.{ℕ, String, Bool, true, false, ◌||◌, Option, none, some, List, [], ◌∷◌}
use inngestgo.Json.{Json}

-- Package-level error variables, which errors.Is tells apart by identity.
pub data Sentinel : Type 0 where
  bad_request function_missing unauthorized : Sentinel
  expired_signature invalid_signature invalid_timestamp : Sentinel
  not_in_function event_not_received : Sentinel
  unauthenticated too_many_connections gateway_draining : Sentinel
  io_eof net_closed context_canceled : Sentinel

pub data Error : Type 0 where
  -- errors.New, fmt.Errorf of texts only, and errors that other packages return
  text : String → Error
  sentinel : Sentinel → Error
  -- fmt.Errorf with %w, and with %s of another error
  wrapped : String → Error → Error
  formatted : String → Error → Error
  -- StepError, noRetryError, retryAtError
  step_error : (name message : String) → (value : Option Json) → Error
  no_retry : Error → Error
  retry_at : Error → ℕ → Error
  -- connect's reconnectError, websocket.CloseError with its reason
  reconnect : Error → Error
  close_error : String → Error
  -- publicerr.Error with a status and a message, with and without a cause; syscode.Error
  public : ℕ → String → Error
  public_cause : ℕ → String → Error → Error
  syscode : (code message : String) → Error

-- The Unwrap methods.
unfoldable pub unwrap : Error → Option Error
unwrap (wrapped s e) = some e
unwrap (no_retry e) = some e
unwrap (retry_at e at) = some e
unwrap (reconnect e) = some e
unwrap (public_cause status message e) = some e
unwrap _ = none

-- What errors.Is looks for.
pub data Target : Type 0 where
  a_step_error a_no_retry_error a_retry_at_error : Target

-- The methods `Is` of StepError, noRetryError and retryAtError.
unfoldable pub is_method : Error → Target → Bool
is_method (step_error name message value) a_step_error = true
is_method (no_retry e) a_no_retry_error = true
is_method (retry_at e at) a_retry_at_error = true
is_method _ _ = false

-- errors.Is along the chain of Unwrap.
unfoldable pub errors_is : Error → Target → Bool
unfolding is_method
errors_is (text s) t = is_method (text s) t
errors_is (sentinel s) t = is_method (sentinel s) t
errors_is (wrapped s e) t = is_method (wrapped s e) t || errors_is e t
errors_is (formatted s e) t = is_method (formatted s e) t
errors_is (step_error n m d) t = is_method (step_error n m d) t
errors_is (no_retry e) t = is_method (no_retry e) t || errors_is e t
errors_is (retry_at e at) t = is_method (retry_at e at) t || errors_is e t
errors_is (reconnect e) t = is_method (reconnect e) t || errors_is e t
errors_is (close_error s) t = is_method (close_error s) t
errors_is (public status s) t = is_method (public status s) t
errors_is (public_cause status s e) t = is_method (public_cause status s e) t || errors_is e t
errors_is (syscode c m) t = is_method (syscode c m) t

unfoldable pub is_step_error : Option Error → Bool
unfolding errors_is
is_step_error none = false
is_step_error (some e) = errors_is e a_step_error

unfoldable pub is_no_retry_error : Option Error → Bool
unfolding errors_is
is_no_retry_error none = false
is_no_retry_error (some e) = errors_is e a_no_retry_error

-- errors.As into a retryAtError: the time of the first one along the chain.
unfoldable pub retry_at_time : Error → Option ℕ
retry_at_time (text s) = none
retry_at_time (sentinel s) = none
retry_at_time (wrapped s e) = retry_at_time e
retry_at_time (formatted s e) = none
retry_at_time (step_error n m d) = none
retry_at_time (no_retry e) = retry_at_time e
retry_at_time (retry_at e at) = some at
retry_at_time (reconnect e) = retry_at_time e
retry_at_time (close_error s) = none
retry_at_time (public status s) = none
retry_at_time (public_cause status s e) = retry_at_time e
retry_at_time (syscode c m) = none

unfoldable pub get_retry_at_time : Option Error → Option ℕ
unfolding retry_at_time
get_retry_at_time none = none
get_retry_at_time (some e) = retry_at_time e

-- Whether some error along the chain of Unwrap has a property: errors.Is with a package-level
-- error, errors.As with a type.
unfoldable pub any_link : (Error → Bool) → Error → Bool
any_link p (wrapped s e) = p (wrapped s e) || any_link p e
any_link p (no_retry e) = p (no_retry e) || any_link p e
any_link p (retry_at e at) = p (retry_at e at) || any_link p e
any_link p (reconnect e) = p (reconnect e) || any_link p e
any_link p (public_cause status s e) = p (public_cause status s e) || any_link p e
any_link p (text s) = p (text s)
any_link p (sentinel s) = p (sentinel s)
any_link p (formatted s e) = p (formatted s e)
any_link p (step_error n m d) = p (step_error n m d)
any_link p (close_error s) = p (close_error s)
any_link p (public status s) = p (public status s)
any_link p (syscode c m) = p (syscode c m)

-- errors.As into a websocket.CloseError: its reason.
unfoldable pub close_reason : Error → Option String
close_reason (wrapped s e) = close_reason e
close_reason (no_retry e) = close_reason e
close_reason (retry_at e at) = close_reason e
close_reason (reconnect e) = close_reason e
close_reason (public_cause status s e) = close_reason e
close_reason (close_error s) = some s
close_reason _ = none

-- Does err.Error() panic? That of a publicerr.Error calls its cause, which may be nil.
unfoldable pub text_panics : Error → Bool
text_panics (public status message) = true
text_panics (public_cause status message e) = text_panics e
text_panics (no_retry e) = text_panics e
text_panics (retry_at e at) = text_panics e
text_panics _ = false
