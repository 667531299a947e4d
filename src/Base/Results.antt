-- ===== src/Base/Results.antt =====
-- What a C++ call comes to: a value, a thrown exception, or undefined behaviour.
use mathlib.Core.Path.{◌≡◌, refl, subst}
use mathlib.Core.Bool.{Bool, true, false}
use Prim.Native.String.{String}
use juno_miner.Base.Tests.{if◌then◌else◌}

-- `runtime_error` carries its message; `json_error` stands for what JsonCpp throws.
pub data Exception : Type 0 where
  invalid_argument out_of_range json_error length_error : Exception
  runtime_error : String → Exception

-- `undefined` is the read or write outside an object.
pub data Outcome {ℓ} (A : Type ℓ) : Type ℓ where
  ok : A → Outcome A
  throws : Exception → Outcome A
  undefined : Outcome A

-- `if (!b) throw e;`
abbrev pub require : Bool → Exception → Outcome (Unit {0})
require true e = ok tt
require false e = throws e

infixl 5 ◌>>=◌ ◌>>◌
abbrev pub ◌>>=◌ {ℓ κ} : {A : Type ℓ} {B : Type κ} → Outcome A → (A → Outcome B) → Outcome B
undefined >>= next = undefined
throws e >>= next = throws e
ok a >>= next = next a

abbrev pub ◌>>◌ {ℓ} : {B : Type ℓ} → Outcome (Unit {0}) → Outcome B → Outcome B
first >> second = first >>= λ _. second

-- Inversion of a bind that returned.
pub >>=-eq-ok {ℓ κ} :
    {A : Type ℓ} {B : Type κ} (m : Outcome A) (next : A → Outcome B) {b : B}
    → (m >>= next) ≡ ok b
    → (a : A) × (m ≡ ok a) × (next a ≡ ok b)
>>=-eq-ok undefined next h = cc
>>=-eq-ok (throws e) next h = cc
>>=-eq-ok (ok a) next h = (a, refl, h)

pub require-eq-ok : (b : Bool) (e : Exception) → require b e ≡ ok tt → b ≡ true
require-eq-ok true e h = refl
require-eq-ok false e h = cc

-- Every value that comes back satisfies `P`; the rules follow a `do` block.
pub data Ensures {ℓ κ} {A : Type ℓ} (P : A → Type κ) : Outcome A → Type (ℓ ⊔ κ) where
  returns : {a : A} → P a → Ensures P (ok a)
  threw : {e : Exception} → Ensures P (throws e)
  faulted : Ensures P undefined

pub Ensures-bind {ℓ κ μ} :
    {A : Type ℓ} {B : Type κ} {P : B → Type μ} (m : Outcome A) (f : A → Outcome B)
    → ((a : A) → m ≡ ok a → Ensures P (f a))
    → Ensures P (m >>= f)
Ensures-bind (ok a) f h = h a refl
Ensures-bind (throws e) f h = threw
Ensures-bind undefined f h = faulted

pub ok-injective {ℓ} : {A : Type ℓ} {a b : A} → ok a ≡ ok b → a ≡ b
ok-injective e = cc

pub Ensures-eq-ok {ℓ κ} :
    {A : Type ℓ} {P : A → Type κ} {r : Outcome A} {a : A} → Ensures P r → r ≡ ok a → P a
Ensures-eq-ok {P} (returns p) e = subst P (ok-injective e) p
Ensures-eq-ok threw e = cc
Ensures-eq-ok faulted e = cc

pub Ensures-intro {ℓ κ} :
    {A : Type ℓ} {P : A → Type κ} (r : Outcome A) → ((a : A) → r ≡ ok a → P a) → Ensures P r
Ensures-intro (ok a) h = returns (h a refl)
Ensures-intro (throws e) h = threw
Ensures-intro undefined h = faulted

pub Ensures-if {ℓ κ} :
    {A : Type ℓ} {P : A → Type κ} (b : Bool) {m n : Outcome A}
    → (b ≡ true → Ensures P m)
    → (b ≡ false → Ensures P n)
    → Ensures P (if b then m else n)
Ensures-if true first second = first refl
Ensures-if false first second = second refl
