-- ===== src/Connect/Delivery/Distinct.antt =====
-- That a flush sends one response for a request, and not several.
use inngestgo.Prelude.{
  ℕ, String, Bool, true, not, ◌&&◌, ◌||◌, ◌≡◌, refl, ◌∙◌, List, [], ◌∷◌, ◌++◌, arith, Map, insert,
  lookup-insert, any, any-permuted, str_eq, str_eq_iff,
}
use mathlib.Core.Logic.{∥∥₁_elim}
use mathlib.Core.Bool.{Bool-set}
use mathlib.Core.List.{Perm, Permᴰ}
use inngestgo.Connect.Buffer.{SdkResponse, MessageBuffer, flush}
use inngestgo.Connect.Buffer.Flush.{messages, flush_lem}
use inngestgo.Connect.Delivery.Filed.{
  answers, IsFiled, insert-IsFiled, lookup-answers, flush-IsFiled,
}

-- No two of the responses are for one request.
unfoldable pub distinct : List SdkResponse → Bool
unfolding any
distinct [] = true
distinct (r ∷ rs) = not (any (answers r.request_id) rs) && distinct rs

distinct-permuted : {xs ys : List SdkResponse} → Permᴰ xs ys → distinct xs ≡ distinct ys
unfolding distinct
distinct-permuted Permᴰ.nil = refl
distinct-permuted (Permᴰ.cons {a} e q) =
    ground (arith, e, distinct-permuted q, any-permuted (answers a.request_id) q)
distinct-permuted (Permᴰ.swap {a} {b} e f) =
    ground (arith, e, f, str_eq_iff a.request_id b.request_id, str_eq_iff b.request_id a.request_id)
distinct-permuted (Permᴰ.trans q r) = distinct-permuted q ∙ distinct-permuted r

distinct-perm : {xs ys : List SdkResponse} → Perm xs ys → distinct xs ≡ distinct ys
distinct-perm q = ∥∥₁_elim q (Bool-set _ _) distinct-permuted

distinct-append : (xs ys : List SdkResponse) → distinct (xs ++ ys) ≡ true → distinct ys ≡ true
unfolding distinct
distinct-append [] ys d = d
distinct-append (x ∷ xs) ys d = distinct-append xs ys (ground arith)

-- A request is answered after an insertion if it was before, or by what is inserted.
any-insert :
    (id : String) (r : SdkResponse) (m : Map SdkResponse)
    → IsFiled m
    → any (answers id) (messages (insert r.request_id r m))
      ≡ (str_eq r.request_id id || any (answers id) (messages m))
any-insert id r m f = ground (
  arith,
  lookup-answers id m f,
  lookup-answers id (insert r.request_id r m) (insert-IsFiled r m f),
  lookup-insert r.request_id id r m,
)

-- The entries of a map: each under its request's id, and one for each request.
abbrev pub IsMap : Map SdkResponse → Type 0
IsMap m = IsFiled m × (distinct (messages m) ≡ true)

insert-distinct :
    (r : SdkResponse) (m : Map SdkResponse)
    → IsMap m
    → distinct (messages (insert r.request_id r m)) ≡ true
unfolding distinct insert any
insert-distinct r [] i = refl
insert-distinct r ((id, s) ∷ m) (f, d) = ground (
  arith,
  insert-distinct r m,
  any-insert s.request_id r m,
  str_eq_iff id r.request_id,
  str_eq_iff id s.request_id,
  str_eq_iff r.request_id s.request_id,
)

pub insert-IsMap :
    (r : SdkResponse) (m : Map SdkResponse) → IsMap m → IsMap (insert r.request_id r m)
insert-IsMap r m (f, d) = (insert-IsFiled r m f, insert-distinct r m (f, d))

module _ (sends : ℕ → SdkResponse → Bool) (order : ℕ → Map SdkResponse → Map SdkResponse)
    (reorders : (k : ℕ) (m : Map SdkResponse) → Perm (order k m) m) where
  -- What a flush sends and leaves holds one response for a request.
  pub flush-distinct :
      (m : MessageBuffer)
      → IsMap m.buffered
      → let (m', f, all) = flush sends order m in distinct (f.sent ++ messages m'.buffered) ≡ true
  flush-distinct m (f, d) =
      let all = flush_lem sends order m reorders in rw all.0 (distinct-perm all.2 ∙ d)

  pub flush-IsMap : (m : MessageBuffer) → IsMap m.buffered → IsMap (flush sends order m).0.buffered
  flush-IsMap m i = (
    flush-IsFiled sends order reorders m i.0,
    distinct-append (flush sends order m).1.sent (messages (flush sends order m).0.buffered)
        (flush-distinct m i),
  )
