-- ===== src/Outcome.antt =====
-- A Python call that may raise: its value or its exception.
use Prim.Native.String.{◌++◌ as join}
use constructor.Prelude.{String, Option, none, some, ◌≡◌, refl, ◌⊎◌, inl, inr}

-- The exceptions that the modelled code raises or lets through. `raised` is any other, with its
-- text; `key_error` has the key that was missing.
pub data Exception : Type 0 where
  timeout_error : Exception
  type_error : Exception
  attribute_error : Exception
  key_error : String → Exception
  value_error : String → Exception
  runtime_error : String → Exception
  raised : String → Exception

pub data Outcome {ℓ} (A : Type ℓ) : Type ℓ where
  return : A → Outcome A
  raise : Exception → Outcome A

infixl 10 ◌>>=◌ ◌>>◌
abbrev pub ◌>>=◌ {ℓ κ} : {A : Type ℓ} {B : Type κ} → Outcome A → (A → Outcome B) → Outcome B
return a >>= f = f a
raise e >>= f = raise e

abbrev pub ◌>>◌ {ℓ κ} : {A : Type ℓ} {B : Type κ} → Outcome A → Outcome B → Outcome B
m >> k = m >>= λ _. k

abbrev pub map_return {ℓ κ} : {A : Type ℓ} {B : Type κ} → (A → B) → Outcome A → Outcome B
map_return f (return a) = return (f a)
map_return f (raise e) = raise e

-- `d[k]`, on the result of a lookup.
abbrev pub or_key_error {ℓ} : {A : Type ℓ} → String → Option A → Outcome A
or_key_error k none = raise (key_error k)
or_key_error k (some a) = return a

-- `f"…"` of several texts.
abbrev pub concat : String → String → String → String
concat a b c = join a (join b c)

pub Outcome-cases {ℓ} :
    {A : Type ℓ} (o : Outcome A) → ((a : A) × (o ≡ return a)) ⊎ ((e : Exception) × (o ≡ raise e))
Outcome-cases (return a) = inl (a, refl)
Outcome-cases (raise e) = inr (e, refl)
