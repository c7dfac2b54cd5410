-- ===== src/Connect/Delivery/Filed.antt =====
-- That the buffer files each response under its request, and what a flush makes of them.
use inngestgo.Prelude.{
  ℕ, zero, suc, ◌+◌, String, Bool, false, not, ◌||◌, ◌≡◌, refl, sym, ap, ◌∙◌, inl, inr, [], ◌∷◌,
  arith, Map, lookup, insert, any, any-append, any-perm, is_some, str_eq, str_eq_iff, Bool-cases,
  is_nil,
}
use mathlib.Core.List.{Perm}
use inngestgo.Connect.Buffer.{SdkResponse, MessageBuffer, flush, send_all, attempts}
use inngestgo.Connect.Buffer.Flush.{messages, flush_lem}

-- A response to the request.
abbrev pub answers : String → SdkResponse → Bool
answers id r = str_eq r.request_id id

-- An entry under another key than its request's id.
abbrev pub misfiled : String × SdkResponse → Bool
misfiled e = not (str_eq e.0 (e.1).request_id)

abbrev pub IsFiled : Map SdkResponse → Type 0
IsFiled m = any misfiled m ≡ false

pub insert-IsFiled :
    (r : SdkResponse) (m : Map SdkResponse) → IsFiled m → IsFiled (insert r.request_id r m)
unfolding any insert
insert-IsFiled r [] f = ground (arith, str_eq_iff r.request_id r.request_id)
insert-IsFiled r ((id, s) ∷ m) f =
    ground
      (arith, insert-IsFiled r m, str_eq_iff r.request_id r.request_id, str_eq_iff id r.request_id)

-- In a map that is filed so, a key stands for a response to its request.
pub lookup-answers :
    (id : String) (m : Map SdkResponse)
    → IsFiled m
    → is_some (lookup id m) ≡ any (answers id) (messages m)
unfolding any lookup
lookup-answers id [] f = refl
lookup-answers id ((key, s) ∷ m) f = ground (
  arith,
  lookup-answers id m,
  str_eq_iff key s.request_id,
  str_eq_iff key id,
  str_eq_iff s.request_id id,
)

module _ (sends : ℕ → SdkResponse → Bool) (order : ℕ → Map SdkResponse → Map SdkResponse)
    (reorders : (k : ℕ) (m : Map SdkResponse) → Perm (order k m) m) where
  send_all-IsFiled :
      (m : Map SdkResponse) (n : ℕ) → IsFiled m → IsFiled (send_all sends order m n).left
  unfolding any send_all
  send_all-IsFiled [] n f = refl
  send_all-IsFiled ((id, msg) ∷ m) n f = ground (arith, send_all-IsFiled m (n + 1))

  attempts-IsFiled :
      (k : ℕ) (m : Map SdkResponse) (n : ℕ)
      → IsFiled m
      → IsFiled ((attempts sends order k m n).0).left
  unfolding attempts
  attempts-IsFiled zero m n f = f
  attempts-IsFiled (suc k) m n f =
      let s = send_all sends order (order k m) n in
      let g = send_all-IsFiled (order k m) n (any-perm misfiled (reorders k m) ∙ f) in
      elim (Bool-cases (is_nil s.left)) [
        | inl e ↦ rw e g
        | inr e ↦ rw e (attempts-IsFiled k s.left s.calls g)
      ]

  -- A flush splits the responses to a request into those that it sent and those that are left.
  pub flush-answers :
      (id : String) (m : MessageBuffer)
      → IsFiled m.buffered
      → let (m', f, all) = flush sends order m in
        is_some (lookup id m.buffered)
        ≡ (any (answers id) f.sent || is_some (lookup id m'.buffered))
  unfolding flush
  flush-answers id m f =
      let split = (flush_lem sends order m reorders).2 in
      let r = attempts sends order 5 m.buffered 0 in
      let left_filed = attempts-IsFiled 5 m.buffered 0 f in
      lookup-answers id m.buffered f
      ∙ sym (any-perm (answers id) split)
      ∙ any-append (answers id) (r.0).sent (messages (r.0).left)
      ∙ ap (λ b. any (answers id) (r.0).sent || b) (sym (lookup-answers id (r.0).left left_filed))

  pub flush-IsFiled :
      (m : MessageBuffer) → IsFiled m.buffered → IsFiled (flush sends order m).0.buffered
  unfolding flush
  flush-IsFiled m f = attempts-IsFiled 5 m.buffered 0 f
