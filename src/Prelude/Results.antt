-- ===== src/Prelude/Results.antt =====
-- Rust's `Result`, with `?` as the bind of a `do` block.
use mathlib.Core.Path.{◌≡◌, refl}
use mathlib.Core.Bool.{Bool, true, false}
use mathlib.Core.Logic.{◌⊎◌, inl, inr}
use mathlib.Core.Option.{Option, none, some}

pub data Result (E A : Type 0) : Type 0 where
  ok : (value : A) → Result E A
  err : (fault : E) → Result E A

infixl 5 ◌>>=◌
abbrev pub ◌>>=◌ : {E A B : Type 0} → Result E A → (A → Result E B) → Result E B
err fault >>= next = err fault
ok value >>= next = next value

infixl 5 ◌>>◌
abbrev pub ◌>>◌ : {E B : Type 0} → Result E (Unit {0}) → Result E B → Result E B
check >> rest = check >>= (λ done. rest)

-- `if bad { bail!(e) }`
abbrev pub bail_if : {E : Type 0} → Bool → E → Result E (Unit {0})
bail_if true e = err e
bail_if false e = ok tt

-- `ok_or_else`
abbrev pub ok_or : {E A : Type 0} → Option A → E → Result E A
ok_or none e = err e
ok_or (some a) e = ok a

abbrev pub is_ok : {E A : Type 0} → Result E A → Bool
is_ok (ok a) = true
is_ok (err e) = false

pub Result-cases :
    {E A : Type 0} (r : Result E A) → ((a : A) × (r ≡ ok a)) ⊎ ((e : E) × (r ≡ err e))
Result-cases (ok a) = inl (a, refl)
Result-cases (err e) = inr (e, refl)

-- `?` went on, with this value.
pub >>=-eq-ok :
    {E A B : Type 0} (first : Result E A) (next : A → Result E B) {c : B}
    → ◌≡◌ {A = Result E B} (first >>= next) (ok c)
    → (value : A) × (first ≡ ok value) × (next value ≡ ok c)
>>=-eq-ok (err fault) next went_on = cc
>>=-eq-ok (ok value) next went_on = (value, refl, went_on)

pub ok_or-eq-ok : {E A : Type 0} (o : Option A) (e : E) {a : A} → ok_or o e ≡ ok a → o ≡ some a
ok_or-eq-ok none e h = cc
ok_or-eq-ok (some a) e h = cc

pub bail_if-eq-ok : {E : Type 0} (b : Bool) (e : E) {u : Unit {0}} → bail_if b e ≡ ok u → b ≡ false
bail_if-eq-ok true e h = cc
bail_if-eq-ok false e h = refl

-- A check that succeeds leaves the rest of the `do` block.
pub >>-eq-ok :
    {E B : Type 0} (b : Bool) (e : E) (k : Result E B) {c : B}
    → (bail_if b e >> k) ≡ ok c
    → (b ≡ false) × (k ≡ ok c)
>>-eq-ok true e k h = cc
>>-eq-ok false e k h = (refl, h)

pub ok_inj : {E A : Type 0} {a b : A} → ◌≡◌ {A = Result E A} (ok a) (ok b) → a ≡ b
ok_inj h = cc
