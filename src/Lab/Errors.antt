-- ===== src/Lab/Errors.antt =====
-- The exceptions that tools/owasp-crs-lab.py raises and catches, and the result of a call.
use envoy_modsecurity.Prelude.{Bool, true, false, Option, none, some, ◌≡◌, refl}
use envoy_modsecurity.Prelude.Text.{Str}

-- One constructor for each `raise UserInputError`; the offending name is part of the message.
pub data UserInputError : Type 0 where
  not_an_object bad_method bad_path bad_headers body_not_text body_too_large : UserInputError
  bad_header_name bad_header_value managed_header long_header_value : Str → UserInputError

pub data Exception : Type 0 where
  user_input : UserInputError → Exception
  -- `json.JSONDecodeError` and `UnicodeDecodeError`
  decode_error : Exception
  -- `ConnectionError`, `OSError` and `http.client.HTTPException`
  transport_error : Exception
  runtime_error : Exception
  unicode_encode_error : Exception
  type_error : Exception

pub data Result {ℓ} (A : Type ℓ) : Type ℓ where
  ok : A → Result A
  err : Exception → Result A

-- A call, and what is done with its value if it raises nothing.
abbrev pub ◌>>=◌ {κ ℓ} : {B : Type κ} {A : Type ℓ} → Result B → (B → Result A) → Result A
err raised >>= next = err raised
ok value >>= next = next value

-- A call that is made for what it may raise.
abbrev pub ◌>>◌ {ℓ} : {A : Type ℓ} (check : Result (Unit {0})) (next : Result A) → Result A
check >> next = check >>= (λ done. next)

infixl 5 ◌>>=◌ ◌>>◌
-- `if bad: raise UserInputError(...)`
unfoldable pub reject : Bool → UserInputError → Result (Unit {0})
reject true e = err (user_input e)
reject false e = ok tt

-- A value, or the exception that its absence stands for.
abbrev pub or_raise {ℓ} : {A : Type ℓ} → Exception → Option A → Result A
or_raise e none = err e
or_raise e (some a) = ok a

-- What a successful `reject` and a successful bind have established.
pub reject-eq-ok : (b : Bool) (e : UserInputError) {u : Unit {0}} → reject b e ≡ ok u → b ≡ false
unfolding reject
reject-eq-ok true e h = cc
reject-eq-ok false e h = refl

pub >>=-eq-ok {ℓ κ} :
    {A : Type ℓ} {B : Type κ} (call : Result A) (next : A → Result B) {last : B}
    → (call >>= next) ≡ ok last
    → (value : A) × (call ≡ ok value) × (next value ≡ ok last)
>>=-eq-ok (err raised) next h = cc
>>=-eq-ok (ok value) next h = (value, refl, h)

pub or_raise-eq-ok {ℓ} :
    {A : Type ℓ} (e : Exception) (o : Option A) {a : A} → or_raise e o ≡ ok a → o ≡ some a
or_raise-eq-ok e none h = cc
or_raise-eq-ok e (some b) h = cc

pub ok-injective {ℓ} : {A : Type ℓ} {a b : A} → ◌≡◌ {A = Result A} (ok a) (ok b) → a ≡ b
ok-injective h = cc
