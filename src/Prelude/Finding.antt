-- ===== src/Prelude/Finding.antt =====
-- What `find` comes back with.
use mathlib.Core.Path.{◌≡◌}
use mathlib.Core.Bool.{Bool, true}
use mathlib.Core.Option.{some}
use mathlib.Core.List.{List, [], ◌∷◌}
use native.Mathlib.Omega.{arith}
use nexus_vector_keeperhub.Prelude.Lists.{find}

module _ {ℓ} {A : Type ℓ} where
  -- What was found passes the test.
  pub find-holds : (p : A → Bool) (xs : List A) {x : A} → find p xs ≡ some x → p x ≡ true
  find-holds p [] h = ground arith
  find-holds p (y ∷ ys) {x} h = ground (arith, h, find-holds p ys {x = x})
