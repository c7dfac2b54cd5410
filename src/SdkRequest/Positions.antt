-- ===== src/SdkRequest/Positions.antt =====
-- The positions that NewOp gives to the uses of a step id.
use inngestgo.Prelude.{
  ℕ, ◌+◌, String, ◌≡◌, ap, Option, List, [], ◌∷◌, arith, lookup, lookup-insert, str_eq, str_eq_iff,
  if◌then◌else◌,
}
use inngestgo.Json.{Json}
use inngestgo.SdkRequest.{Opcode, Request, Manager, new_manager, new_op, next_pos}

-- The arguments of a call of NewOp.
abbrev pub Call : Type 0
Call = Opcode × String × Option Json

abbrev pub after : List Call → Manager → Manager
after [] m = m
after ((op, id, opts) ∷ cs) m = after cs (new_op op id opts m).1

-- How many of the calls are for the id.
abbrev pub uses : String → List Call → ℕ
uses id [] = 0
uses id ((op, j, opts) ∷ cs) = (if str_eq j id then 1 else 0) + uses id cs

next_pos-new_op :
    (id j : String) (op : Opcode) (opts : Option Json) (m : Manager)
    → next_pos (lookup id (new_op op j opts m).1.indexes)
      ≡ next_pos (lookup id m.indexes) + (if str_eq j id then 1 else 0)
unfolding new_op next_pos
next_pos-new_op id j op opts m = ground (
  arith,
  lookup-insert j id (next_pos (lookup j m.indexes)) m.indexes,
  str_eq_iff j id,
  ap (λ k. lookup k m.indexes) {x = j} {y = id},
)

next_pos-after :
    (id : String) (cs : List Call) (m : Manager)
    → next_pos (lookup id (after cs m).indexes) ≡ next_pos (lookup id m.indexes) + uses id cs
next_pos-after id [] m = omega arith
next_pos-after id ((op, j, opts) ∷ cs) m =
    omega (arith, next_pos-after id cs (new_op op j opts m).1, next_pos-new_op id j op opts m)

-- An op's position is the number of the calls of NewOp before it that had its id, whatever their
-- opcodes and options were.
pub new_op-pos :
    (req : Request) (cs : List Call) (op : Opcode) (id : String) (opts : Option Json)
    → ((new_op op id opts (after cs (new_manager req))).0).pos ≡ uses id cs
unfolding new_op new_manager next_pos lookup
new_op-pos req cs op id opts = omega (arith, next_pos-after id cs (new_manager req))
