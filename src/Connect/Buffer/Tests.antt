-- ===== src/Connect/Buffer/Tests.antt =====
-- The theorems about the buffer, at concrete responses.
use mathlib.Core.List.{Perm}
use mathlib.Core.List.Perm
use inngestgo.Prelude.{
  ℕ, zero, suc, ◌+◌, ◌≤◌, String, Bool, true, false, ◌≡◌, none, ◌++◌, length, is_nil, Map,
}
use inngestgo.Json.{Json, null}
use inngestgo.Connect.Buffer.{
  done, SdkResponse, value_body, MessageBuffer, new_message_buffer, append, flush,
}
use inngestgo.Connect.Buffer.Flush.{messages, flush_lem}

abbrev response : String → Json → SdkResponse
response id v = record {
  request_id = id;
  env_id = "env";
  app_id = "app";
  status = done;
  body = value_body v;
  no_retry = false;
  retry_after = none;
}

abbrev two_buffered : MessageBuffer
two_buffered = append (response "b" null) (append (response "a" null) new_message_buffer)

-- The first call fails.
abbrev later : ℕ → SdkResponse → Bool
later zero r = false
later (suc n) r = true

abbrev in_order : ℕ → Map SdkResponse → Map SdkResponse
in_order k m = m

flush_lem_example :
    let (m', f, all) = flush later in_order two_buffered in
    (m'.buffered ≡ f.left)
    × (m'.pending_ack ≡ two_buffered.pending_ack)
    × Perm (f.sent ++ messages f.left) (messages two_buffered.buffered)
    × (all ≡ is_nil f.left)
    × (length f.sent ≤ f.calls)
    × (f.calls ≤ length f.sent + 5)
flush_lem_example = flush_lem later in_order two_buffered (λ k s. Perm.refl s)
