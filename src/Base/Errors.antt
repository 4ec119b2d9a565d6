-- ===== src/Base/Errors.antt =====
-- Python's exceptions as values, and the monad that propagates them.
use mathlib.Core.Path.{◌≡◌, refl}
use mathlib.Core.Bool.{Bool, true, false}
use mathlib.Core.Option.{Option, none, some}
use fidrouter.Base.Tests.{Text}
use Prim.Native.Nat.{ℕ}

-- The exception classes that the code raises or lets through. The argument is the message.
pub data Error : Type 0 where
  -- `FidVerificationError`, `DcapError`, `ValidatorUnavailable`, `SystemExit`
  verification dcap unavailable system_exit : Text → Error
  -- `GcpError`, with the HTTP status and the body
  gcp_error : Text → ℕ → Text → Error
  -- the interpreter's and the libraries'
  key_error type_error value_error index_error not_implemented overflow_error : Error
  invalid_signature invalid_tag : Error
  -- `urllib.error.HTTPError` and any other failure to reach a server
  http_error : Error
  -- `subprocess.CalledProcessError`, and `OSError` of a file
  command_failed os_error : Error
  unreachable : Error
  -- the program goes on with a value that is no text, and the model does not follow it there
  unfollowed : Error

pub data Result {ℓ} (A : Type ℓ) : Type ℓ where
  ok : A → Result A
  err : Error → Result A

-- `if not b: raise e`
abbrev pub guard : Bool → Error → Result (Unit {0})
guard false raised = err raised
guard true raised = ok tt

-- `if b: raise e`
abbrev pub refuse : Bool → Error → Result (Unit {0})
refuse true e = err e
refuse false e = ok tt

-- An exception ends the block.
infixl 5 ◌>>=◌ ◌>>◌
abbrev pub ◌>>=◌ {ℓ κ} : {A : Type ℓ} {B : Type κ} → Result A → (A → Result B) → Result B
err raised >>= next = err raised
ok value >>= next = next value

abbrev pub ◌>>◌ {ℓ} : {B : Type ℓ} → Result (Unit {0}) → Result B → Result B
first >> second = first >>= λ _. second

abbrev pub or_raise {ℓ} : {A : Type ℓ} → Option A → Error → Result A
or_raise none e = err e
or_raise (some a) e = ok a

abbrev pub is_ok {ℓ} : {A : Type ℓ} → Result A → Bool
is_ok (ok a) = true
is_ok (err e) = false

-- Inversion of a successful step.
pub >>=-eq-ok {ℓ κ} :
    {A : Type ℓ} {B : Type κ} (first : Result A) (next : A → Result B) {result : B}
    → (first >>= next) ≡ ok result
    → (value : A) × (first ≡ ok value) × (next value ≡ ok result)
>>=-eq-ok (err raised) next h = cc
>>=-eq-ok (ok value) next h = (value, refl, h)

pub guard-eq-ok : (b : Bool) (e : Error) {u : Unit {0}} → guard b e ≡ ok u → b ≡ true
guard-eq-ok true e h = refl
guard-eq-ok false e h = cc

pub refuse-eq-ok : (b : Bool) (e : Error) {u : Unit {0}} → refuse b e ≡ ok u → b ≡ false
refuse-eq-ok true e h = cc
refuse-eq-ok false e h = refl
