-- ===== src/Calls.antt =====
-- A call of a method: it changes the state of an object and returns or raises. What was written
-- before a raise stays written, so the state comes back beside the exception too.
use nexus_vector_keeperhub.Errors.{Error, ErrorClass, Code, Result, ok, err, fail}

abbrev pub Call {ℓ} : Type ℓ → Type ℓ → Type ℓ
Call S A = S → Result A × S

module _ {ℓ} {S A B : Type ℓ} where
  -- The rest of a body, from what the call before it came back with.
  abbrev pub proceed : (A → Call S B) → Result A → S → Result B × S
  proceed f (ok a) s = f a s
  proceed f (err e) s = (err e, s)

  -- The handler of `try: ... except: ...` around one call.
  abbrev pub handle : (A → Call S B) → (Error → Call S B) → Result A → S → Result B × S
  handle f g (ok a) s = f a s
  handle f g (err e) s = g e s

  infixl 5 ◌>>=◌
  abbrev pub ◌>>=◌ : Call S A → (A → Call S B) → Call S B
  ◌>>=◌ m f s = proceed f (m s).0 (m s).1

  abbrev pub try : Call S A → (A → Call S B) → (Error → Call S B) → Call S B
  try m f g s = handle f g (m s).0 (m s).1

module _ {ℓ} {S A : Type ℓ} where
  abbrev pub pure : A → Call S A
  pure a s = (ok a, s)

  abbrev pub lift : Result A → Call S A
  lift r s = (r, s)

  abbrev pub raise : ErrorClass → Code → Call S A
  raise c k s = (fail c k, s)

module _ {S A : Type 0} where
  infixl 5 ◌>>◌
  abbrev pub ◌>>◌ : Call S (Unit {0}) → Call S A → Call S A
  m >> k = m >>= λ _. k
