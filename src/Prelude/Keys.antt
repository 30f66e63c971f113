-- ===== src/Prelude/Keys.antt =====
-- The keys of a hash map: no key stands twice.
use flowsplice_rust.Prelude.Tests.{◌==◌, Bool-cases}
use flowsplice_rust.Prelude.Lists.{length}
use flowsplice_rust.Prelude.Members.{filter}
use flowsplice_rust.Prelude.Maps.{insert, remove, contains_key, nat_eq}
use Prim.Native.Nat.{ℕ, suc, ◌≤◌}
use mathlib.Core.Logic.{inl, inr}
use mathlib.Core.Path.{◌≡◌, refl, ◌∙◌, subst}
use mathlib.Core.Bool.{false, not, ◌&&◌, ◌||◌}
use mathlib.Core.List.{List, [], ◌∷◌}
use native.Mathlib.Omega.{arith}

module _ {V : Type 0} where
  abbrev pub Distinct : List (ℕ × V) → Type 0
  Distinct [] = Unit {0}
  Distinct ((k, v) ∷ m) = (contains_key m k ≡ false) × Distinct m

  pub contains_key-insert :
      (m : List (ℕ × V)) (k : ℕ) (v : V) (j : ℕ)
      → contains_key (insert m k v) j ≡ (k == j || contains_key m j)
  unfolding insert contains_key
  contains_key-insert [] k v j = refl
  contains_key-insert ((i, w) ∷ m) k v j = ground (arith, contains_key-insert m k v j)

  pub contains_key-remove :
      (m : List (ℕ × V)) (k j : ℕ)
      → contains_key (remove m k) j ≡ (not (k == j) && contains_key m j)
  unfolding remove contains_key
  contains_key-remove [] k j = ground arith
  contains_key-remove ((i, w) ∷ m) k j = ground (arith, contains_key-remove m k j)

  abbrev pub keep_key : ℕ → List (ℕ × V) → List (ℕ × V)
  keep_key k m = filter (λ c. c.0 == k) m

  pub contains_key-keep_key :
      (m : List (ℕ × V)) (k j : ℕ) → contains_key (keep_key k m) j ≡ (k == j && contains_key m j)
  unfolding contains_key
  contains_key-keep_key [] k j = ground arith
  contains_key-keep_key ((i, w) ∷ m) k j = ground (arith, contains_key-keep_key m k j)

  pub Distinct-insert : (m : List (ℕ × V)) (k : ℕ) (v : V) → Distinct m → Distinct (insert m k v)
  unfolding insert contains_key
  Distinct-insert [] k v d = (refl, tt)
  Distinct-insert ((i, w) ∷ m) k v d = elim (Bool-cases (i == k)) [
    | inl e ↦
        rw (e, Distinct, insert)
          (subst (λ n. contains_key m n ≡ false) (ground (arith, e)) d.0, d.1)
    | inr e ↦
        rw (e, Distinct, insert)
          (contains_key-insert m k v i ∙ ground (arith, e, d.0), Distinct-insert m k v d.1)
  ]

  pub Distinct-remove : (m : List (ℕ × V)) (k : ℕ) → Distinct m → Distinct (remove m k)
  unfolding remove contains_key
  Distinct-remove [] k d = tt
  Distinct-remove ((i, w) ∷ m) k d = elim (Bool-cases (i == k)) [
    | inl e ↦ rw (e, Distinct, remove) (Distinct-remove m k d.1)
    | inr e ↦
        rw (e, Distinct, remove)
          (contains_key-remove m k i ∙ ground (arith, d.0), Distinct-remove m k d.1)
  ]

  pub Distinct-keep_key : (m : List (ℕ × V)) (k : ℕ) → Distinct m → Distinct (keep_key k m)
  Distinct-keep_key [] k d = tt
  Distinct-keep_key ((i, w) ∷ m) k d = elim (Bool-cases (i == k)) [
    | inl e ↦
        rw (e, Distinct, filter)
          (contains_key-keep_key m k i ∙ ground (arith, d.0), Distinct-keep_key m k d.1)
    | inr e ↦ rw (e, Distinct, filter) (Distinct-keep_key m k d.1)
  ]

  pub length-insert_le : (m : List (ℕ × V)) (k : ℕ) (v : V) → length (insert m k v) ≤ suc (length m)
  unfolding insert
  length-insert_le [] k v = omega arith
  length-insert_le ((i, w) ∷ m) k v = ground (arith, length-insert_le m k v)

  pub length-remove_le : (m : List (ℕ × V)) (k : ℕ) → length (remove m k) ≤ length m
  unfolding remove
  length-remove_le [] k = omega arith
  length-remove_le ((i, w) ∷ m) k = ground (arith, length-remove_le m k)
