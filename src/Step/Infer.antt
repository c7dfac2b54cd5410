-- ===== src/Step/Infer.antt =====
-- step/infer.go. The output type is no interface type: there reflect.TypeOf of the empty output
-- gives nil. The three cases of its type switch never match, since the value that it looks at is
-- always a pointer.
use Prim.Native.String.{◌++◌ as str_append}
use inngestgo.Prelude.{String, Option, none, some, [], ◌∷◌, or_else, Map}
use inngestgo.Json.{Json, string, object, Fields, end, field}
use inngestgo.Errors.{Error, text, wrapped}
use inngestgo.SdkRequest.{Opcode, UnhashedOp, append_op, must_hash, step_data}
use inngestgo.Step.Core.{
  Ctx, M, ◌>>=◌, ◌>>◌, return, panic, control_hijack, modify, fail, preflight, Codec,
}
use inngestgo.Step.Run.{
  Response, StepErrorFields, unmarshal_response, unmarshal_step_error, to_error, bad_error_text,
  bad_state_text,
}
use inngestgo.Step.Tools.{take_op}

pub data InferFormat : Type 0 where
  open_ai_chat anthropic gemini bedrock : InferFormat

abbrev format_text : InferFormat → String
format_text open_ai_chat = "openai-chat"
format_text anthropic = "anthropic"
format_text gemini = "gemini"
format_text bedrock = "bedrock"

pub record InferRequestOpts : Type 0 where
  pub url : String
  pub headers : Map String
  pub auth_key : String
  pub format : InferFormat

unfoldable pub header_fields : Map String → Fields
header_fields [] = end
header_fields ((k, v) ∷ hs) = field k (string v) (header_fields hs)

-- `omitempty` drops an empty map.
abbrev with_headers : Map String → Fields → Fields
with_headers [] fs = fs
with_headers (h ∷ hs) fs = field "headers" (object (header_fields (h ∷ hs))) fs

unfoldable pub infer_opcode_opts : InferRequestOpts → Json → Json
unfolding header_fields
infer_opcode_opts o body = object (
    field "url" (string o.url) (
      with_headers o.headers (
        field "auth_key" (string o.auth_key)
          (field "format" (string (format_text o.format)) (field "body" body end)))))

-- InferOpenAIOpts; the first argument is the value of OPENAI_API_KEY.
unfoldable pub infer_open_ai_opts : String → Option String → Option String → InferRequestOpts
infer_open_ai_opts env key base_url = record {
  url = str_append (or_else base_url "https://api.openai.com") "/v1/chat/completions";
  headers = [];
  auth_key = or_else key env;
  format = open_ai_chat;
}

module _ {ℓ} (sha1_hex : String → String) {T : Type ℓ} (c : Codec T) where
  -- The value that came with a stored error is not decoded: `out` is passed by value.
  unfoldable pub infer_error : String → Option StepErrorFields → M (T × Option Error)
  unfolding fail
  infer_error id none = fail (wrapped (bad_error_text id) (text "json: cannot unmarshal"))
  infer_error id (some e) = return (c.zero_value, some (to_error e))

  unfoldable pub infer_stored : String → Json → Option Response → M (T × Option Error)
  unfolding infer_error
  infer_stored id v none = return (c.unmarshal v)
  infer_stored id v (some r) = elim r.error [
    | none ↦ return (c.unmarshal (or_else r.value v))
    | some e ↦ infer_error id (unmarshal_step_error e)
  ]

  unfoldable pub infer_new : String → String → InferRequestOpts → Option Json → M (T × Option Error)
  unfolding fail infer_opcode_opts
  infer_new id hashed opts none =
      fail (wrapped (bad_state_text id) (text "json: unsupported value"))
  infer_new id hashed opts (some body) =
      modify (
        append_op (record {
          id = hashed;
          op = Opcode.ai_gateway;
          name = id;
          opts = some (infer_opcode_opts opts body);
          value = some body;
          error = none;
        }))
      >> panic control_hijack

  unfoldable pub infer_op :
      String → InferRequestOpts → Option Json → UnhashedOp → M (T × Option Error)
  unfolding infer_stored infer_new
  infer_op id opts body op m = elim (step_data sha1_hex op m) [
    | some v ↦ infer_stored id v (unmarshal_response v) m
    | none ↦ infer_new id (must_hash sha1_hex op) opts body m
  ]

  -- step.Infer; the request's body comes as json.Marshal gives it.
  unfoldable pub infer : Ctx → String → InferRequestOpts → Option Json → M (T × Option Error)
  unfolding infer_op
  infer ctx id opts body = do
    _ ← preflight ctx
    op ← take_op Opcode.ai_gateway id none
    infer_op id opts body op
