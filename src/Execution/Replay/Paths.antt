-- ===== src/Execution/Replay/Paths.antt =====
-- Stored steps against the ops of a path.
use inngestgo.Prelude.{
  ℕ, suc, ◌≤◌, String, ◌≡◌, refl, ◌≢◌, ◌⊎◌, inl, inr, Option, none, some, List, [], ◌∷◌, arith, Map,
  lookup, insert, lookup-insert, str_eq_iff, All, length, Option-cases, is_some, if◌then◌else◌,
}
use inngestgo.Json.{Json}

-- The stored steps hold nothing, or the right outcome, for each op of the path.
abbrev pub Good : Map Json → List (String × Json) → Type 0
Good s l = All (λ kv. (lookup kv.0 s ≡ none) ⊎ (lookup kv.0 s ≡ some kv.1)) l

-- No two ops of the path have one id.
abbrev pub Distinct : List (String × Json) → Type 0
Distinct [] = Unit
Distinct (kv ∷ l) = All (λ jw. kv.0 ≢ jw.0) l × Distinct l

unfoldable pub first_missing : Map Json → List (String × Json) → Option (String × Json)
first_missing s [] = none
first_missing s ((k, v) ∷ l) = if is_some (lookup k s) then first_missing s l else some (k, v)

unfoldable pub missing : Map Json → List (String × Json) → ℕ
missing s [] = 0
missing s ((k, v) ∷ l) = if is_some (lookup k s) then missing s l else suc (missing s l)

pub missing_le_length : (s : Map Json) (l : List (String × Json)) → missing s l ≤ length l
unfolding missing
missing_le_length s [] = omega arith
missing_le_length s ((k, v) ∷ l) = ground (arith, missing_le_length s l)

-- An insert under another key changes nothing.
insert_other :
    (s : Map Json) (h : String) (j : Json) (l : List (String × Json))
    → All (λ jw. h ≢ jw.0) l
    → Good s l
    → Good (insert h j s) l × (missing (insert h j s) l ≡ missing s l)
unfolding missing
insert_other s h j [] d g = (tt, refl)
insert_other s h j ((k, v) ∷ l) (d, ds) (g, gs) =
    ground (arith, lookup-insert h k j s, str_eq_iff h k, insert_other s h j l ds gs)

insert_self : (s : Map Json) (h : String) (j : Json) → lookup h (insert h j s) ≡ some j
insert_self s h j = ground (arith, lookup-insert h h j s, str_eq_iff h h)

first_missing_fresh :
    (s : Map Json) (l : List (String × Json)) (h : String) (j : Json)
    → first_missing s l ≡ some (h, j)
    → lookup h s ≡ none
unfolding first_missing
first_missing_fresh s [] h j e = cc
first_missing_fresh s ((k, v) ∷ l) h j e = elim (Option-cases (lookup k s)) [
  | inl o ↦ ground arith
  | inr (w, o) ↦ first_missing_fresh s l h j (ground arith)
]

-- Storing the first missing outcome keeps the path good, with one op less missing.
pub insert-first_missing :
    (s : Map Json) (l : List (String × Json)) (h : String) (j : Json)
    → Good s l
    → Distinct l
    → first_missing s l ≡ some (h, j)
    → Good (insert h j s) l × (suc (missing (insert h j s) l) ≡ missing s l)
unfolding missing first_missing
insert-first_missing s [] h j g d e = cc
insert-first_missing s ((k, v) ∷ l) h j (inl g, gs) (d, ds) e =
    ground (arith, insert_other s k v l d gs, insert_self s k v)
insert-first_missing s ((k, v) ∷ l) h j (inr g, gs) (d, ds) e = ground (
  arith,
  insert-first_missing s l h j gs ds,
  first_missing_fresh s l h j,
  lookup-insert h k j s,
  str_eq_iff h k,
)

pub Good-empty : (s : Map Json) (l : List (String × Json)) → s ≡ [] → Good s l
unfolding lookup
Good-empty s [] e = tt
Good-empty s (kv ∷ l) e = (inl (rw e refl), Good-empty s l e)
