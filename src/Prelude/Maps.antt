-- ===== src/Prelude/Maps.antt =====
-- Hash maps and sets as association lists, over keys with a decided equality.
use Prim.Native.Nat.{ℕ}
use mathlib.Core.Path.{◌≡◌, refl, sym, subst}
use mathlib.Core.Logic.{◌↔◌, ◌⊎◌, inl, inr}
use mathlib.Core.Bool.{Bool, true, false, ◌&&◌, ◌||◌}
use mathlib.Core.Option.{Option, none, some}
use mathlib.Core.List.{List, [], ◌∷◌, ◌++◌}
use native.Mathlib.Omega.{arith}
use flowsplice_rust.Prelude.Tests.{if◌then◌else◌, ==_iff, is_some, Bool-cases}
use flowsplice_rust.Prelude.Tests
use flowsplice_rust.Prelude.Text.{Text, text_eq, text_eq_iff}

pub record Eq (A : Type 0) : Type 0 where
  pub beq : A → A → Bool
  pub beq_iff : (a b : A) → (beq a b ≡ true) ↔ (a ≡ b)

instance abbrev pub nat_eq : Eq ℕ
nat_eq = record { beq = Tests.◌==◌; beq_iff = ==_iff }

instance abbrev pub text_key : Eq Text
text_key = record { beq = text_eq; beq_iff = text_eq_iff }

unfoldable pub both : {A B : Type 0} ⦃a : Eq A⦄ ⦃b : Eq B⦄ → A × B → A × B → Bool
both ⦃a⦄ ⦃b⦄ (x, y) (z, w) = a.beq x z && b.beq y w

pub both_iff : {A B : Type 0} ⦃a : Eq A⦄ ⦃b : Eq B⦄ (p q : A × B) → (both p q ≡ true) ↔ (p ≡ q)
unfolding both
both_iff ⦃a⦄ ⦃b⦄ (x, y) (z, w) = ground (arith, a.beq_iff x z, b.beq_iff y w)

instance abbrev pub pair_key : {A B : Type 0} ⦃a : Eq A⦄ ⦃b : Eq B⦄ → Eq (A × B)
unfolding both
pair_key = record { beq = both; beq_iff = both_iff }

abbrev pub retained : {V : Type 0} → (V → Bool) → Option V → Option V
retained p none = none
retained p (some v) = if p v then some v else none

module _ {K V : Type 0} ⦃e : Eq K⦄ where
  unfoldable pub get : List (K × V) → K → Option V
  get [] k = none
  get ((j, v) ∷ m) k = if e.beq j k then some v else get m k

  unfoldable pub contains_key : List (K × V) → K → Bool
  contains_key [] k = false
  contains_key ((j, v) ∷ m) k = e.beq j k || contains_key m k

  -- `insert` replaces the value of a key that is there.
  unfoldable pub insert : List (K × V) → K → V → List (K × V)
  insert [] k v = (k, v) ∷ []
  insert ((j, w) ∷ m) k v = if e.beq j k then (k, v) ∷ m else (j, w) ∷ insert m k v

  unfoldable pub remove : List (K × V) → K → List (K × V)
  remove [] k = []
  remove ((j, v) ∷ m) k = if e.beq j k then remove m k else (j, v) ∷ remove m k

  pub get-insert :
      (m : List (K × V)) (k j : K) (v : V)
      → get (insert m k v) j ≡ (if e.beq k j then some v else get m j)
  unfolding get insert
  get-insert [] k j v = refl
  get-insert ((i, w) ∷ m) k j v =
      ground (arith, e.beq_iff k j, e.beq_iff i k, e.beq_iff i j, get-insert m k j v)

  pub get-remove :
      (m : List (K × V)) (k j : K) → get (remove m k) j ≡ (if e.beq k j then none else get m j)
  unfolding get remove
  get-remove [] k j = ground arith
  get-remove ((i, w) ∷ m) k j =
      ground (arith, e.beq_iff k j, e.beq_iff i k, e.beq_iff i j, get-remove m k j)

  -- `retain` by the value, for the entries that `get` sees.
  unfoldable pub retain : (V → Bool) → List (K × V) → List (K × V)
  unfolding remove
  retain p [] = []
  retain p ((j, v) ∷ m) = let rest = retain p m in if p v then (j, v) ∷ rest else remove rest j

  pub get-retain :
      (p : V → Bool) (m : List (K × V)) (k : K) → get (retain p m) k ≡ retained p (get m k)
  unfolding get retain
  get-retain p [] k = refl
  get-retain p ((j, v) ∷ m) k = elim (Bool-cases (e.beq j k)) [
    | inl h ↦ elim (Bool-cases (p v)) [
      | inl t ↦ rw (t, h, t) refl
      | inr f ↦ rw (f, get-remove (retain p m) j k, h, f) refl
    ]
    | inr h ↦ elim (Bool-cases (p v)) [
      | inl t ↦ rw (t, h) (get-retain p m k)
      | inr f ↦ rw (f, get-remove (retain p m) j k, h) (get-retain p m k)
    ]
  ]

  pub contains_key-get : (m : List (K × V)) (k : K) → contains_key m k ≡ is_some (get m k)
  unfolding contains_key get
  contains_key-get [] k = refl
  contains_key-get ((j, v) ∷ m) k = ground (arith, contains_key-get m k)

module _ {K : Type 0} ⦃e : Eq K⦄ where
  unfoldable pub contains : List K → K → Bool
  contains [] k = false
  contains (j ∷ s) k = e.beq j k || contains s k

  -- A set is a list; the result of `insert` tells whether the value was new.
  unfoldable pub insert_new : List K → K → List K
  unfolding contains
  insert_new s k = if contains s k then s else k ∷ s

  unfoldable pub is_subset : List K → List K → Bool
  unfolding contains
  is_subset [] t = true
  is_subset (k ∷ s) t = contains t k && is_subset s t

  pub contains-insert_new :
      (s : List K) (k j : K) → contains (insert_new s k) j ≡ (e.beq k j || contains s j)
  unfolding insert_new
  contains-insert_new s k j = ground (arith, e.beq_iff k j)

  pub is_subset_lem :
      (s t : List K) (k : K) → is_subset s t ≡ true → contains s k ≡ true → contains t k ≡ true
  unfolding is_subset
  is_subset_lem [] t k h c = cc
  is_subset_lem (j ∷ s) t k h c = ground (arith, e.beq_iff j k, is_subset_lem s t k)

  pub contains-append :
      (s t : List K) (k : K) → contains (s ++ t) k ≡ (contains s k || contains t k)
  unfolding contains
  contains-append [] t k = refl
  contains-append (j ∷ s) t k = ground (arith, contains-append s t k)

-- The other way round.
pub is_subset_intro :
    {K : Type 0} ⦃e : Eq K⦄ (s t : List K)
    → ((k : K) → contains s k ≡ true → contains t k ≡ true)
    → is_subset s t ≡ true
unfolding is_subset contains
is_subset_intro [] t h = refl
is_subset_intro ⦃e⦄ (k ∷ s) t h =
    ground
      (arith, h k (ground (arith, e.beq_iff k k)), is_subset_intro s t (λ j c. h j (ground arith)))

abbrev pub values {ℓ} : {V : Type ℓ} → Option (List V) → List V
values none = []
values (some vs) = vs

module _ {V : Type 0} ⦃d : Eq V⦄ where
  contains_pushed :
      (o : Option (List V)) (v j : V)
      → contains (values o ++ v ∷ []) j ≡ true
      → (v ≡ j) ⊎ ((vs : List V) × (o ≡ some vs) × (contains vs j ≡ true))
  unfolding contains
  contains_pushed none v j c = ground (arith, d.beq_iff v j)
  contains_pushed (some vs) v j c = elim (Bool-cases (contains vs j)) [
    | inl t ↦ inr (vs, refl, t)
    | inr f ↦ inl (ground (arith, d.beq_iff v j, contains-append vs (v ∷ []) j))
  ]

  pushed_contains :
      (o : Option (List V)) (v j : V)
      → (v ≡ j) ⊎ ((vs : List V) × (o ≡ some vs) × (contains vs j ≡ true))
      → contains (values o ++ v ∷ []) j ≡ true
  unfolding contains
  pushed_contains none v j h = ground (arith, d.beq_iff v j)
  pushed_contains (some vs) v j h = ground (arith, d.beq_iff v j, contains-append vs (v ∷ []) j)

module _ {K V : Type 0} ⦃e : Eq K⦄ ⦃d : Eq V⦄ where
  -- `m.entry(key).or_insert_with(Vec::new).push(v)`
  unfoldable pub push : List (K × List V) → K → V → List (K × List V)
  push m key v = insert m key (values (get m key) ++ v ∷ [])

  -- `j` is in the vector that stands under `k`.
  abbrev pub Has : List (K × List V) → K → V → Type 0
  Has m k j = (vs : List V) × (get m k ≡ some vs) × (contains vs j ≡ true)

  pub get-push :
      (m : List (K × List V)) (key : K) (v : V) (k : K) (vs : List V) (j : V)
      → get (push m key v) k ≡ some vs
      → contains vs j ≡ true
      → ((key ≡ k) × (v ≡ j)) ⊎ Has m k j
  unfolding push contains
  get-push m key v k vs j h c = elim (Bool-cases (e.beq key k)) [
    | inl t ↦
        let c' : contains (values (get m key) ++ v ∷ []) j ≡ true =
          ground (arith, get-insert m key k (values (get m key) ++ v ∷ [])) in
        elim (contains_pushed (get m key) v j c') [
          | inl w ↦ inl ((e.beq_iff key k).0 t, w)
          | inr w ↦ inr (subst (λ x. Has m x j) ((e.beq_iff key k).0 t) w)
        ]
    | inr f ↦ inr (vs, ground (arith, get-insert m key k (values (get m key) ++ v ∷ [])), c)
  ]

  pub push-Has :
      (m : List (K × List V)) (key : K) (v : V) (k : K) (j : V)
      → ((key ≡ k) × (v ≡ j)) ⊎ Has m k j
      → Has (push m key v) k j
  unfolding push contains
  push-Has m key v k j (inl w) = (
    values (get m key) ++ v ∷ [],
    ground (arith, w.0, e.beq_iff key k, get-insert m key k (values (get m key) ++ v ∷ [])),
    pushed_contains (get m key) v j (inl w.1),
  )
  push-Has m key v k j (inr w) = elim (Bool-cases (e.beq key k)) [
    | inl t ↦ (
      values (get m key) ++ v ∷ [],
      ground (arith, get-insert m key k (values (get m key) ++ v ∷ [])),
      pushed_contains (get m key) v j
          (inr (subst (λ x. Has m x j) (sym ((e.beq_iff key k).0 t)) w)),
    )
    | inr f ↦ (w.0, ground (arith, w.1, get-insert m key k (values (get m key) ++ v ∷ [])), w.2)
  ]
