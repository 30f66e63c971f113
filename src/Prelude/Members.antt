-- ===== src/Prelude/Members.antt =====
-- Members of lists, and the searches of an iterator.
use mathlib.Core.Path.{◌≡◌, refl, sym, ap, ◌∙◌, subst}
use mathlib.Core.Bool.{Bool, true, false}
use mathlib.Core.Logic.{◌⊎◌, inl, inr}
use mathlib.Core.Option.{Option, none, some}
use mathlib.Core.List.{List, [], ◌∷◌}
use flowsplice_rust.Prelude.Tests.{if◌then◌else◌}
use flowsplice_rust.Prelude.Lists.{is_empty}

-- Membership, as the position of the member.
pub data Member {A : Type 0} : A → List A → Type 0 where
  here : {x : A} {xs : List A} → Member x (x ∷ xs)
  there : {x y : A} {xs : List A} → Member x xs → Member x (y ∷ xs)

-- `filter` of an iterator.
abbrev pub filter {ℓ} : {A : Type ℓ} → (A → Bool) → List A → List A
filter p [] = []
filter p (x ∷ xs) = if p x then x ∷ filter p xs else filter p xs

-- `next` and `find` of an iterator.
abbrev pub head {ℓ} : {A : Type ℓ} → List A → Option A
head [] = none
head (x ∷ xs) = some x

abbrev pub find {ℓ} : {A : Type ℓ} → (A → Bool) → List A → Option A
find p [] = none
find p (x ∷ xs) = if p x then some x else find p xs

abbrev keep : {A : Type 0} → Bool → A → List A → List A
keep b x xs = if b then x ∷ xs else xs

Member-keep :
    {A : Type 0} (b : Bool) {x y : A} {xs : List A}
    → Member x (keep b y xs)
    → ((x ≡ y) × (b ≡ true)) ⊎ Member x xs
Member-keep true here = inl (refl, refl)
Member-keep true (there m) = inr m
Member-keep false m = inr m

keep-Member :
    {A : Type 0} (b : Bool) (y : A) {x : A} {xs : List A} → Member x xs → Member x (keep b y xs)
keep-Member true y m = there m
keep-Member false y m = m

pub Member-filter :
    {A : Type 0} (p : A → Bool) {x : A} (xs : List A)
    → Member x (filter p xs)
    → Member x xs × (p x ≡ true)
Member-filter p [] m = elim m [ ]
Member-filter p (y ∷ xs) m = elim (Member-keep (p y) m) [
  | inl w ↦ (subst (λ z. Member z (y ∷ xs)) (sym w.0) here, ap p w.0 ∙ w.1)
  | inr n ↦ (there (Member-filter p xs n).0, (Member-filter p xs n).1)
]

pub filter-Member :
    {A : Type 0} (p : A → Bool) {x : A} (xs : List A)
    → Member x xs
    → p x ≡ true
    → Member x (filter p xs)
filter-Member p [] m h = elim m [ ]
filter-Member p (x ∷ xs) here h = rw (h) here
filter-Member p (y ∷ xs) (there m) h = keep-Member (p y) y (filter-Member p xs m h)

pub some_inj : {A : Type 0} {x y : A} → ◌≡◌ {A = Option A} (some x) (some y) → x ≡ y
some_inj h = cc

pub Member-head : {A : Type 0} {x : A} (xs : List A) → head xs ≡ some x → Member x xs
Member-head [] h = cc
Member-head (y ∷ xs) h = subst (λ z. Member z (y ∷ xs)) (some_inj h) here

pub Member-find :
    {A : Type 0} (p : A → Bool) {x : A} (xs : List A)
    → find p xs ≡ some x
    → Member x xs × (p x ≡ true)
Member-find p [] h = cc
Member-find p {x = x} (y ∷ xs) h = found (p y) h refl (Member-find p xs)
  where
    found :
        (b : Bool)
        → (if b then some y else find p xs) ≡ some x
        → p y ≡ b
        → (find p xs ≡ some x → Member x xs × (p x ≡ true))
        → Member x (y ∷ xs) × (p x ≡ true)
    found true h e rest =
        let s = some_inj h in (subst (λ z. Member z (y ∷ xs)) s here, ap p (sym s) ∙ e)
    found false h e rest = (there (rest h).0, (rest h).1)

pub is_empty-eq : {A : Type 0} (xs : List A) → is_empty xs ≡ true → xs ≡ []
is_empty-eq [] h = refl
is_empty-eq (x ∷ xs) h = cc
