-- ===== src/Base/Errors.antt =====
-- Go's `(T, error)` pairs. An error is one that the API server or a library returned, with the
-- reason that `apierrors` reads, or one that `fmt.Errorf` made, which may wrap another.
use Prim.Native.String.{String, ◌++◌}
use mathlib.Core.Path.{◌≡◌, refl}

pub data Reason : Type 0 where
  not_found conflict other : Reason

pub data Error : Type 0 where
  failure : Reason → String → Error
  errorf : String → Error
  wrap : String → Error → Error

-- `err.Error()`
abbrev pub error_text : Error → String
error_text (failure reason message) = message
error_text (errorf message) = message
error_text (wrap prefix e) = prefix ++ (": " ++ error_text e)

pub data Result {ℓ} (A : Type ℓ) : Type ℓ where
  ok : A → Result A
  err : Error → Result A

module _ {ℓ κ} {A : Type ℓ} {B : Type κ} where
  infixl 5 ◌>>=◌
  abbrev pub ◌>>=◌ : Result A → (A → Result B) → Result B
  err e >>= next = err e
  ok value >>= next = next value

  -- Both parts of a chain that succeeds have succeeded.
  pub >>=-eq-ok :
      (r : Result A) (next : A → Result B) {out : B}
      → (r >>= next) ≡ ok out
      → (value : A) × (r ≡ ok value) × (next value ≡ ok out)
  >>=-eq-ok (err e) next done = cc
  >>=-eq-ok (ok value) next done = (value, refl, done)

-- `if err != nil { return fmt.Errorf("prefix: %w", err) }`
abbrev pub wrapping {ℓ} : {A : Type ℓ} → String → Result A → Result A
wrapping prefix (ok a) = ok a
wrapping prefix (err e) = err (wrap prefix e)

pub ok-injective {ℓ} : {A : Type ℓ} {a b : A} → ok a ≡ ok b → a ≡ b
ok-injective h = cc

pub wrapping-ok {ℓ} :
    {A : Type ℓ} (prefix : String) (r : Result A) {a : A} → wrapping prefix r ≡ ok a → r ≡ ok a
wrapping-ok prefix (ok a) h = h
wrapping-ok prefix (err e) h = cc

pub wrapping-err {ℓ} :
    {A : Type ℓ} (prefix : String) (r : Result A) {e : Error}
    → wrapping prefix r ≡ err e
    → (cause : Error) × (r ≡ err cause)
wrapping-err prefix (ok a) h = cc
wrapping-err prefix (err e) h = (e, refl)

pub err-injective {ℓ} : {A : Type ℓ} {d e : Error} → ◌≡◌ {A = Result A} (err d) (err e) → d ≡ e
err-injective h = cc
