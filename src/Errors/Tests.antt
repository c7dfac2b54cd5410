-- ===== src/Errors/Tests.antt =====
-- Runs of errors.Is and errors.As, and the theorems about them at one error.
use inngestgo.Prelude.{◌≡◌, refl, some}
use inngestgo.Errors.{Error, text, wrapped, no_retry, retry_at, get_retry_at_time, retry_at_time}

abbrev failure : Error
failure = wrapped "step" (retry_at (no_retry (retry_at (text "down") 7)) 3)

retry_at_test : get_retry_at_time (some failure) ≡ some 3
unfolding get_retry_at_time retry_at_time
retry_at_test = refl
