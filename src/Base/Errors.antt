-- ===== src/Base/Errors.antt =====
-- Results of code that throws, fails an assertion, or whose behaviour the C++ standard leaves undefined.
use mathlib.Core.Path.{◌≡◌, refl, subst}

-- The exception classes of the sources, and the character strings that `message.cpp` throws.
pub data Exception : Type 0 where
  time_exception : Exception
  deserialize_error : Exception
  registration_error : Exception
  interface_error : Exception
  network_exception : Exception
  not_supported : Exception
  unknown_buffer_type : Exception
  config_exception : Exception
  sync_state_exception : Exception

pub data Result {ℓ} (A : Type ℓ) : Type ℓ where
  ok : A → Result A
  throws : Exception → Result A
  assert_fails : Result A
  undefined : Result A

module _ {ℓ κ} {A : Type ℓ} {B : Type κ} where
  infixl 5 ◌>>=◌
  abbrev pub ◌>>=◌ : Result A → (A → Result B) → Result B
  undefined >>= next = undefined
  assert_fails >>= next = assert_fails
  throws x >>= next = throws x
  ok v >>= next = next v

  -- A run that returns did so by a first part that returns.
  pub >>=-eq-ok :
      (first : Result A) (next : A → Result B) {y : B}
      → (first >>= next) ≡ ok y
      → (v : A) × (first ≡ ok v) × (next v ≡ ok y)
  >>=-eq-ok undefined next returns = cc
  >>=-eq-ok assert_fails next returns = cc
  >>=-eq-ok (throws x) next returns = cc
  >>=-eq-ok (ok v) next returns = (v, refl, returns)

abbrev pub map_result {ℓ κ} : {A : Type ℓ} {B : Type κ} → (A → B) → Result A → Result B
map_result f (ok a) = ok (f a)
map_result f (throws e) = throws e
map_result f assert_fails = assert_fails
map_result f undefined = undefined

-- A postcondition of the runs that return.
abbrev pub Post {ℓ κ} : {A : Type ℓ} → (A → Type κ) → Result A → Type κ
Post P (ok a) = P a
Post P (throws e) = Unit
Post P assert_fails = Unit
Post P undefined = Unit

pub Post->>= {ℓ κ μ ν} :
    {A : Type ℓ} {B : Type κ} (Q : A → Type μ) (P : B → Type ν) (m : Result A) (f : A → Result B)
    → Post Q m
    → ((a : A) → Q a → Post P (f a))
    → Post P (m >>= f)
Post->>= Q P (ok a) f q rest = rest a q
Post->>= Q P (throws e) f q rest = tt
Post->>= Q P assert_fails f q rest = tt
Post->>= Q P undefined f q rest = tt

pub Post-eq-ok {ℓ κ} :
    {A : Type ℓ} (P : A → Type κ) (m : Result A) {a : A} → Post P m → m ≡ ok a → P a
Post-eq-ok P m h e = subst (Post P) e h

pub Post-Unit {ℓ} : {A : Type ℓ} (m : Result A) → Post (λ a. Unit {0}) m
Post-Unit (ok a) = tt
Post-Unit (throws e) = tt
Post-Unit assert_fails = tt
Post-Unit undefined = tt
