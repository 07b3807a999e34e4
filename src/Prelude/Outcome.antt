-- ===== src/Prelude/Outcome.antt =====
-- The result of code that may throw: `err e` is a thrown error, and `>>=` stops at it.
use mathlib.Core.Path.{◌≡◌, refl, ap, ◌∙◌}
use mathlib.Core.Bool.{Bool, true, false}
use mathlib.Core.Option.{Option, none, some}
use druvia.Prelude.Tests.{if◌then◌else◌}

pub data Result {ℓ κ} (E : Type ℓ) (A : Type κ) : Type (ℓ ⊔ κ) where
  ok : A → Result E A
  err : E → Result E A

abbrev pub is_ok {ℓ κ} : {E : Type ℓ} {A : Type κ} → Result E A → Bool
is_ok (ok value) = true
is_ok (err thrown) = false

-- `if (!test) throw e`.
abbrev pub guard {ℓ} : {E : Type ℓ} → Bool → E → Result E (Unit {0})
guard test thrown = if test then ok tt else err thrown

infixl 5 ◌>>=◌
abbrev pub ◌>>=◌ {ℓ κ ι} :
    {E : Type ℓ} {A : Type κ} {B : Type ι} → Result E A → (A → Result E B) → Result E B
err thrown >>= rest = err thrown
ok value >>= rest = rest value

infixl 5 ◌>>◌
abbrev pub ◌>>◌ {ℓ κ} : {E : Type ℓ} {B : Type κ} → Result E (Unit {0}) → Result E B → Result E B
done >> rest = done >>= λ nothing. rest

-- What a bind that returned went through.
pub >>=-eq-ok {ℓ κ ι} :
    {E : Type ℓ} {A : Type κ} {B : Type ι} (done : Result E A) (rest : A → Result E B)
    {returned : B}
    → done >>= rest ≡ ok returned
    → (value : A) × (done ≡ ok value) × (rest value ≡ ok returned)
>>=-eq-ok (err thrown) rest same = cc
>>=-eq-ok (ok value) rest same = (value, refl, same)

-- The value that is there, or the error.
abbrev pub required {ℓ κ} : {E : Type ℓ} {A : Type κ} → Option A → E → Result E A
required none thrown = err thrown
required (some value) thrown = ok value

abbrev pub map_error {ℓ κ ι} :
    {E : Type ℓ} {F : Type κ} {A : Type ι} → (E → F) → Result E A → Result F A
map_error wrap (ok value) = ok value
map_error wrap (err thrown) = err (wrap thrown)

pub map_error_ok {ℓ κ ι} :
    {E : Type ℓ} {F : Type κ} {A : Type ι} (wrap : E → F) (done : Result E A) {value : A}
    → map_error wrap done ≡ ok value
    → done ≡ ok value
map_error_ok wrap (ok value) same = cc
map_error_ok wrap (err thrown) same = absurd cc

-- What a chain that returned went through, step by step.
module _ {ℓ κ ι ρ} {E : Type ℓ} {A : Type κ} {B : Type ι} {returned : B} {P : Type ρ} where
  pub after_bind :
      (done : Result E A) {rest : A → Result E B}
      → done >>= rest ≡ ok returned
      → ((value : A) → done ≡ ok value → rest value ≡ ok returned → P)
      → P
  after_bind (err thrown) same next = absurd cc
  after_bind (ok value) same next = next value refl same

  pub after_required :
      (found : Option A) (thrown : E) {rest : A → Result E B}
      → required found thrown >>= rest ≡ ok returned
      → ((value : A) → found ≡ some value → rest value ≡ ok returned → P)
      → P
  after_required none thrown same next = absurd cc
  after_required (some value) thrown same next = next value refl same

module _ {ℓ ι ρ} {E : Type ℓ} {B : Type ι} {returned : B} {P : Type ρ} where
  pub after_guard :
      (test : Bool) (thrown : E) {rest : Result E B}
      → guard test thrown >> rest ≡ ok returned
      → (test ≡ true → rest ≡ ok returned → P)
      → P
  after_guard true thrown same next = next refl same
  after_guard false thrown same next = absurd cc

pub ok_injective {ℓ κ} :
    {E : Type ℓ} {A : Type κ} {a b : A} → ◌≡◌ {A = Result E A} (ok a) (ok b) → a ≡ b
ok_injective same = cc

-- The code returns a value.
abbrev pub Returns {ℓ κ} : {E : Type ℓ} {A : Type κ} → Result E A → Type (ℓ ⊔ κ)
Returns {A = A} done = (value : A) × (done ≡ ok value)

pub >>=-Returns {ℓ κ ι} :
    {E : Type ℓ} {A : Type κ} {B : Type ι} (done : Result E A) (rest : A → Result E B) {value : A}
    → done ≡ ok value
    → Returns (rest value)
    → Returns (done >>= rest)
>>=-Returns (ok got) rest same (value, returned) = (value, ap rest (ok_injective same) ∙ returned)
>>=-Returns (err thrown) rest same next = absurd cc
