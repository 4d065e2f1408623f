-- ===== src/Base/Outcome.antt =====
-- `anyhow::Result`: the value or an error of the component's own error type.
use mathlib.Core.Path.{◌≡◌, refl}
use mathlib.Core.Bool.{Bool, true, false}
use mathlib.Core.Logic.{◌⊎◌, inl, inr}
use mathlib.Core.Option.{Option, none, some}
use worktree_gc.Base.Tests.{if◌then◌else◌}

pub data Result {ℓ} (E : Type ℓ) (A : Type ℓ) : Type ℓ where
  ok : A → Result E A
  err : E → Result E A

infixl 5 ◌>>=◌ ◌>>◌
abbrev pub ◌>>=◌ {ℓ} : {E A B : Type ℓ} → Result E A → (A → Result E B) → Result E B
ok a >>= f = f a
err e >>= f = err e

abbrev pub ◌>>◌ {ℓ} : {E A B : Type ℓ} → Result E A → Result E B → Result E B
m >> k = m >>= λ _. k

-- `ensure!`, `bail!`
abbrev pub ensure : {E : Type 0} → Bool → E → Result E (Unit {0})
ensure true e = ok tt
ensure false e = err e

-- `Option::context`
abbrev pub context {ℓ} : {E A : Type ℓ} → Option A → E → Result E A
context none e = err e
context (some a) e = ok a

-- A chain that succeeds has succeeded at both of its steps.
pub >>=-eq-ok {ℓ} :
    {E A B : Type ℓ} (first : Result E A) (next : A → Result E B) {answer : B}
    → (first >>= next) ≡ ok answer
    → (value : A) × (first ≡ ok value) × (next value ≡ ok answer)
>>=-eq-ok (ok value) next chained = (value, refl, chained)
>>=-eq-ok (err error) next chained = cc

pub ensure-eq-ok : {E : Type 0} (b : Bool) (e : E) {u : Unit {0}} → ensure b e ≡ ok u → b ≡ true
ensure-eq-ok true e h = refl
ensure-eq-ok false e h = cc

pub Result-cases {ℓ} :
    {E A : Type ℓ} (r : Result E A) → ((a : A) × (r ≡ ok a)) ⊎ ((e : E) × (r ≡ err e))
Result-cases (ok a) = inl (a, refl)
Result-cases (err e) = inr (e, refl)

pub context-eq-ok {ℓ} :
    {E A : Type ℓ} (o : Option A) (e : E) {a : A} → context o e ≡ ok a → o ≡ some a
context-eq-ok none e h = cc
context-eq-ok (some a) e h = cc

-- A test that guards a success passed, or failed.
pub if-eq-ok {ℓ} :
    {E A : Type ℓ} (b : Bool) (m : Result E A) (e : E) {a : A}
    → (if b then m else err e) ≡ ok a
    → (b ≡ true) × (m ≡ ok a)
if-eq-ok true m e h = (refl, h)
if-eq-ok false m e h = cc

pub if-not-ok {ℓ} :
    {E A : Type ℓ} (b : Bool) (m : Result E A) (e : E) {a : A}
    → (if b then err e else m) ≡ ok a
    → (b ≡ false) × (m ≡ ok a)
if-not-ok false m e h = (refl, h)
if-not-ok true m e h = cc

pub ok-injective {ℓ} : {E A : Type ℓ} {a b : A} → ◌≡◌ {A = Result E A} (ok a) (ok b) → a ≡ b
ok-injective h = cc

pub some-eq-some {ℓ} : {A : Type ℓ} {a b : A} → some a ≡ some b → a ≡ b
some-eq-some h = cc

pub none≢some {ℓ} : {A : Type ℓ} {a : A} → ¬ (◌≡◌ {A = Option A} none (some a))
none≢some h = cc
