-- ===== src/Base/Results.antt =====
-- Fallible code: a value, or the error that the code bails out with.
use mathlib.Core.Path.{◌≡◌, refl, ap}
use mathlib.Core.Bool.{Bool, true, false}
use mathlib.Core.Option.{Option, none, some}
use mathlib.Core.Logic.{◌≢◌, ◌⊎◌, inl, inr}

pub data Result (E A : Type 0) : Type 0 where
  ok : A → Result E A
  err : E → Result E A

-- `if test { bail!(e) }`
abbrev pub bail_if : {E : Type 0} → Bool → E → Result E (Unit {0})
bail_if true e = err e
bail_if false e = ok tt

-- A step after a check that gives nothing, and a step on the value of another.
infixl 5 ◌>>=◌ ◌>>◌
abbrev pub ◌>>◌ : {E B : Type 0} → Result E (Unit {0}) → Result E B → Result E B
err e >> next = err e
ok u >> next = next

abbrev pub ◌>>=◌ : {E A B : Type 0} → Result E A → (A → Result E B) → Result E B
err e >>= next = err e
ok a >>= next = next a

-- `option.ok_or_else(e)?`
abbrev pub ok_or : {E A : Type 0} → Option A → E → Result E A
ok_or (some a) e = ok a
ok_or none e = err e

-- The result without its error.
abbrev pub to_option : {E A : Type 0} → Result E A → Option A
to_option (ok a) = some a
to_option (err e) = none

-- A chain that succeeds: its first step did, and so did the rest on the value of it.
pub >>=-eq-ok :
    {E A B : Type 0} (first : Result E A) (next : A → Result E B) {v : B}
    → (first >>= next) ≡ ok v
    → (x : A) × (first ≡ ok x) × (next x ≡ ok v)
>>=-eq-ok (err e) next fine = cc
>>=-eq-ok (ok x) next fine = (x, refl, fine)

pub >>-eq-ok :
    {E B : Type 0} (m : Result E (Unit {0})) (k : Result E B) {b : B}
    → (m >> k) ≡ ok b
    → (m ≡ ok tt) × (k ≡ ok b)
>>-eq-ok (ok tt) k h = (refl, h)
>>-eq-ok (err e) k h = cc

pub ok_injective : {E A : Type 0} {a b : A} → ◌≡◌ {A = Result E A} (ok a) (ok b) → a ≡ b
ok_injective h = cc

pub ok_or-eq-ok : {E A : Type 0} (o : Option A) (e : E) {a : A} → ok_or o e ≡ ok a → o ≡ some a
ok_or-eq-ok (some a) e h = ap some (ok_injective h)
ok_or-eq-ok none e h = cc

pub >>-eq-err :
    {E B : Type 0} (m : Result E (Unit {0})) (k : Result E B) {e : E}
    → (m >> k) ≡ err e
    → (m ≡ err e) ⊎ ((m ≡ ok tt) × (k ≡ err e))
>>-eq-err (ok tt) k h = inr (refl, h)
>>-eq-err (err e) k h = inl (cc)

pub bail_if-eq-err : {E : Type 0} (b : Bool) {e f : E} → bail_if b e ≡ err f → e ≡ f
bail_if-eq-err true h = cc
bail_if-eq-err false h = cc

pub bail_if-eq-ok : {E : Type 0} (b : Bool) (e : E) → bail_if b e ≡ ok tt → b ≡ false
bail_if-eq-ok true e h = cc
bail_if-eq-ok false e h = refl

pub Result-cases :
    {E A : Type 0} (r : Result E A) → ((a : A) × (r ≡ ok a)) ⊎ ((e : E) × (r ≡ err e))
Result-cases (ok a) = inl (a, refl)
Result-cases (err e) = inr (e, refl)

-- The code does not bail out with the error.
abbrev pub Never : {E A : Type 0} → E → Result E A → Type 0
Never e r = r ≢ err e

pub >>=-Never :
    {E A B : Type 0} {e : E} (m : Result E A) (f : A → Result E B)
    → Never e m
    → ((a : A) → m ≡ ok a → Never e (f a))
    → Never e (m >>= f)
>>=-Never (ok a) f h k = k a refl
>>=-Never {e} (err x) f h k = λ q. h (let same : x ≡ e = cc in ap err same)

pub >>-Never :
    {E B : Type 0} {e : E} (m : Result E (Unit {0})) (k : Result E B)
    → Never e m
    → Never e k
    → Never e (m >> k)
>>-Never (ok u) k h r = r
>>-Never {e} (err x) k h r = λ q. h (let same : x ≡ e = cc in ap err same)

pub bail_if-Never : {E : Type 0} (b : Bool) (x e : E) → x ≢ e → Never e (bail_if b x)
bail_if-Never true x e n = λ h. n (cc)
bail_if-Never false x e n = λ h. cc
