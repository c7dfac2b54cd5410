-- ===== src/Connect/Gateways/Starts.antt =====
-- Which rounds of the run loop start a connection.
use inngestgo.Prelude.{String, Bool, true, false, Option, none, some, List, [], ◌∷◌, ◌≡◌, arith}
use inngestgo.Errors.{Error}
use inngestgo.Connect.RunLoop.Defs.{
  Keys, Loop, ConnectReport, reconnecting, connect_done, Next, continues, returns, Round, round,
  try_connect, retry, check_reason, check_auth, on_error,
}
use inngestgo.Connect.Gateways.{preparing, Chain, spawn}

abbrev pub fresh : String → Chain
fresh key = record { key = key; excluded = []; stage = preparing; old = [] }

-- A round that may start a connection starts one exactly if the loop goes on, with the loop's key.
abbrev pub expected : Next → Loop → List Chain
expected continues l = fresh l.auth.hashed_signing_key ∷ []
expected (returns e) l = []

abbrev pub StartsOne : Round → Type 0
StartsOne r = spawn r.actions ≡ expected r.next r.loop

pub try_connect-StartsOne : (l : Loop) → StartsOne (try_connect l)
unfolding try_connect spawn
try_connect-StartsOne l = ground arith

retry-StartsOne : (h d : Bool) (l : Loop) → StartsOne (retry h d l)
unfolding retry spawn try_connect
retry-StartsOne true d l = ground arith
retry-StartsOne false d l = ground arith

check_reason-StartsOne : (e : Error) (h d : Bool) (l : Loop) → StartsOne (check_reason e h d l)
unfolding check_reason spawn
check_reason-StartsOne e h d l = ground (arith, retry-StartsOne h d l)

check_auth-StartsOne :
    (keys : Keys) (e : Error) (h d : Bool) (l : Loop) → StartsOne (check_auth keys e h d l)
unfolding check_auth spawn
check_auth-StartsOne keys e h d l = ground (
  arith,
  check_reason-StartsOne e h d l,
  check_reason-StartsOne e h d (record l {
    auth = record { hashed_signing_key = keys.hashed_signing_key_fallback; fallback = true };
  }),
)

on_error-StartsOne :
    (keys : Keys) (e : Option Error) (h d : Bool) (l : Loop) → StartsOne (on_error keys e h d l)
unfolding on_error spawn
on_error-StartsOne keys none h d l = retry-StartsOne h d l
on_error-StartsOne keys (some e) h d l = ground (arith, check_auth-StartsOne keys e h d l)

pub connect_done-StartsOne :
    (keys : Keys) (l : Loop) (r : ConnectReport) (h d : Bool)
    → StartsOne (round keys l (connect_done r h d))
unfolding round spawn
connect_done-StartsOne keys l r h d =
    ground (arith, on_error-StartsOne keys r.err h d (record l { state = reconnecting }))
