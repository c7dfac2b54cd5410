-- ===== src/Http/Sent.antt =====
-- What is sent, by what is written.
use inngestgo.Prelude.{ℕ, ◌≡◌, refl, none, some, Option-cases, inl, inr}
use inngestgo.Results.{Result, ok, err}
use inngestgo.Http.{ResponseWriter, Headers, write_header, write, encode}

module _ {ℓ} {P : Type ℓ} where
  -- The status of the first call stays, with the headers of that moment.
  pub write_header-first :
      (status : ℕ) (w : ResponseWriter P)
      → w.sent ≡ none
      → (write_header status w).sent ≡ some (status, w.headers)
  unfolding write_header
  write_header-first status w n = rw (n, write_header) refl

  pub write_header-sent :
      (status : ℕ) (w : ResponseWriter P) (s : ℕ × Headers)
      → w.sent ≡ some s
      → (write_header status w).sent ≡ some s
  unfolding write_header
  write_header-sent status w s n = rw (n, write_header) n

  pub write_header-body :
      (status : ℕ) (w : ResponseWriter P) → (write_header status w).body ≡ w.body
  unfolding write_header
  write_header-body status w = elim (Option-cases w.sent) [
    | inl n ↦ rw (n, write_header) refl
    | inr (s, n) ↦ rw (n, write_header) refl
  ]

  pub encode-sent :
      (m u : Result (Unit {0})) (p : P) (w : ResponseWriter P) (s : ℕ × Headers)
      → w.sent ≡ some s
      → (encode m u p w).1.sent ≡ some s
  unfolding encode write
  encode-sent (err e) u p w s n = n
  encode-sent (ok t) (err e) p w s n = write_header-sent 200 w s n
  encode-sent (ok t) (ok u) p w s n = write_header-sent 200 w s n

  -- Where both succeed, the value is sent, with 200 if no status was sent before.
  pub encode-ok :
      (m u : Result (Unit {0})) (p : P) (w : ResponseWriter P)
      → m ≡ ok tt
      → u ≡ ok tt
      → encode m u p w ≡ (ok tt, write p w)
  unfolding encode
  encode-ok (ok t) (ok u) p w m n = refl
  encode-ok (ok t) (err e) p w m n = absurd cc
  encode-ok (err e) u p w m n = absurd cc
