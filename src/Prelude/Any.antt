-- ===== src/Prelude/Any.antt =====
-- Whether some element of a list passes a test, whatever their order is.
use mathlib.Core.Path.{◌≡◌, refl, ◌∙◌}
use mathlib.Core.Logic.{∥∥₁_elim}
use mathlib.Core.Bool.{Bool, false, ◌||◌, Bool-set}
use mathlib.Core.List.{List, [], ◌∷◌, ◌++◌, Perm}
use mathlib.Core.List.{Permᴰ}
use native.Mathlib.Omega.{arith}

module _ {ℓ} {A : Type ℓ} (p : A → Bool) where
  unfoldable pub any : List A → Bool
  any [] = false
  any (x ∷ xs) = p x || any xs

  pub any-append : (xs ys : List A) → any (xs ++ ys) ≡ (any xs || any ys)
  unfolding any
  any-append [] ys = refl
  any-append (x ∷ xs) ys = ground (arith, any-append xs ys)

  pub any-permuted : {xs ys : List A} → Permᴰ xs ys → any xs ≡ any ys
  unfolding any
  any-permuted Permᴰ.nil = refl
  any-permuted (Permᴰ.cons e q) = ground (arith, e, any-permuted q)
  any-permuted (Permᴰ.swap e f) = ground (arith, e, f)
  any-permuted (Permᴰ.trans q r) = any-permuted q ∙ any-permuted r

  pub any-perm : {xs ys : List A} → Perm xs ys → any xs ≡ any ys
  any-perm q = ∥∥₁_elim q (Bool-set _ _) any-permuted
