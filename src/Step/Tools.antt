-- ===== src/Step/Tools.antt =====
-- step/sleep.go, step/wait_for_event.go and step/invoke.go. The maps of options are given as the
-- JSON that they are sent as; str2duration's printing of a duration is a parameter.
use Prim.Native.String.{◌++◌ as str_append}
use inngestgo.Prelude.{
  String, Bool, true, false, Option, none, some, str_eq, if◌then◌else◌, ℤ, is_positive,
}
use inngestgo.Json.{
  Json, null, bool, number, string, array, object, Fields, end, field, map_field, struct_field,
  as_string,
}
use inngestgo.Errors.{Error, text, wrapped, no_retry, sentinel, event_not_received}
use inngestgo.SdkRequest.{
  Opcode, GeneratorOpcode, UnhashedOp, append_op, new_op, must_hash, step_data,
}
use inngestgo.Step.Core.{
  Ctx, control_hijack, returned, M, ◌>>=◌, ◌>>◌, return, panic, modify, fail, preflight, Codec,
}
use inngestgo.Step.Run.{or_fail}

abbrev pub tool_op : Opcode → String → String → Option Json → GeneratorOpcode
tool_op op hashed name opts = record {
  id = hashed;
  op = op;
  name = name;
  opts = opts;
  value = none;
  error = none;
}

-- mgr.NewOp in a tool.
abbrev pub take_op : Opcode → String → Option Json → M UnhashedOp
take_op op id opts m = let r = new_op op id opts m in (returned r.0, r.1)

-- A tool with no stored result reports its op and ends the run.
abbrev pub report_op {ℓ} : {A : Type ℓ} → GeneratorOpcode → M A
report_op op = modify (append_op op) >> panic control_hijack

module _ (sha1_hex : String → String) (duration_string : ℤ → String) where
  unfoldable pub sleep_op : String → ℤ → UnhashedOp → M (Unit {0})
  sleep_op id duration op m = elim (step_data sha1_hex op m) [
    | some v ↦ (returned tt, m)
    | none ↦
        report_op
          (tool_op Opcode.sleep (must_hash sha1_hex op) id
            (some (object (field "duration" (string (duration_string duration)) end))))
          m
  ]

  -- step.Sleep
  unfoldable pub sleep : Ctx → String → ℤ → M (Unit {0})
  unfolding sleep_op
  sleep ctx id duration = do
    _ ← preflight ctx
    op ← take_op Opcode.sleep id none
    sleep_op id duration op

pub record WaitForEventOpts : Type 0 where
  pub name : String
  pub event : String
  pub timeout : ℤ
  pub if_expr : Option String

pub record InvokeOpts : Type 0 where
  pub function_id : String
  pub payload : Json
  pub user : Json
  pub timeout : ℤ

abbrev if_field : Option String → Fields → Fields
if_field none fs = fs
if_field (some e) fs = field "if" (string e) fs

-- The shape of a stored event, as `val == nil || bytes.Equal(val, "null")` sees it.
unfoldable pub is_null : Json → Bool
is_null null = true
is_null (bool b) = false
is_null (number n) = false
is_null (string s) = false
is_null (array xs) = false
is_null (object fs) = false

module _ {ℓ} (sha1_hex : String → String) (duration_string : ℤ → String) {T : Type ℓ}
    (c : Codec T) where
  unfoldable pub stored_event : String → Json → M (T × Option Error)
  unfolding or_fail is_null
  stored_event event v =
      if is_null v then return (c.zero_value, some (sentinel event_not_received)) else (do
        t ←
            or_fail (str_append "error unmarshalling wait for event value in " event)
              (c.unmarshal v)
        return (t, none))

  unfoldable pub wait_op : String → WaitForEventOpts → UnhashedOp → M (T × Option Error)
  unfolding stored_event
  wait_op name opts op m = elim (step_data sha1_hex op m) [
    | some v ↦ stored_event opts.event v m
    | none ↦ report_op (tool_op op.op (must_hash sha1_hex op) name op.opts) m
  ]

  -- step.WaitForEvent
  unfoldable pub wait_for_event : Ctx → String → WaitForEventOpts → M (T × Option Error)
  unfolding wait_op
  wait_for_event ctx id opts = do
    _ ← preflight ctx
    let args = object (
        field "event" (string opts.event)
          (if_field opts.if_expr (field "timeout" (string (duration_string opts.timeout)) end)))
    let name = if str_eq opts.name "" then id else opts.name
    op ← take_op Opcode.wait_for_event id (some args)
    wait_op name opts op

  -- The struct with the field Message in step/invoke.go.
  unfoldable pub invoke_message : Json → Option String
  invoke_message null = some ""
  invoke_message (object fs) = as_string (struct_field "message" fs)
  invoke_message (bool b) = none
  invoke_message (number n) = none
  invoke_message (string s) = none
  invoke_message (array xs) = none

  unfoldable pub invoke_error : String → Option String → M (T × Option Error)
  unfolding fail
  invoke_error fn none = fail (
      wrapped (str_append "error unmarshalling invoke error for " fn)
        (text "json: cannot unmarshal"))
  invoke_error fn (some message) = return (c.zero_value, some (no_retry (text message)))

  unfoldable pub invoke_value : String → Json → M (T × Option Error)
  unfolding or_fail
  invoke_value fn v = do
    t ← or_fail (str_append "error unmarshalling invoke data for " fn) (c.unmarshal v)
    return (t, none)

  unfoldable pub invoke_fields : String → Option Json → Option Json → M (T × Option Error)
  unfolding invoke_error invoke_value invoke_message fail
  invoke_fields fn (some v) e = invoke_value fn v
  invoke_fields fn none (some e) = invoke_error fn (invoke_message e)
  invoke_fields fn none none =
      fail (text (str_append "error parsing invoke value, unknown shape, for " fn))

  -- The stored outcome of an invoked function, as a map[string]json.RawMessage.
  unfoldable pub stored_invoke : String → Json → M (T × Option Error)
  unfolding invoke_fields fail
  stored_invoke fn null = invoke_fields fn none none
  stored_invoke fn (object fs) = invoke_fields fn (map_field "data" fs) (map_field "error" fs)
  stored_invoke fn _ = fail (
      wrapped (str_append "error unmarshalling invoke value for " fn)
        (text "json: cannot unmarshal"))

  unfoldable pub invoke_op : String → InvokeOpts → UnhashedOp → M (T × Option Error)
  unfolding stored_invoke
  invoke_op id opts op m = elim (step_data sha1_hex op m) [
    | some v ↦ stored_invoke opts.function_id v m
    | none ↦ report_op (tool_op op.op (must_hash sha1_hex op) id op.opts) m
  ]

  -- step.Invoke
  unfoldable pub invoke : Ctx → String → InvokeOpts → M (T × Option Error)
  unfolding invoke_op
  invoke ctx id opts = do
    _ ← preflight ctx
    let timeout =
        if is_positive opts.timeout
        then field "timeout" (string (duration_string opts.timeout)) end
        else end
    let args = object (
        field "function_id" (string opts.function_id) (
          field "payload" (object (field "data" opts.payload (field "user" opts.user end)))
            timeout))
    op ← take_op Opcode.invoke_function id (some args)
    invoke_op id opts op
