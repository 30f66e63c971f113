-- ===== src/Route/Runs.antt =====
-- A run of the preface with a keyed sum in place of the HMAC.
use flowsplice_rust.Prelude.{◌⊎◌, ℕ, zero, suc, ◌≡◌, refl, true, [], ◌∷◌, ◌++◌, ok, arith, length}
use flowsplice_rust.Prelude.Bytes.{Bytes, to_be_bytes}
use flowsplice_rust.Prelude.Text.{text_eq, text_eq_iff}
use flowsplice_rust.Route.{
  travel_side, RoutePreface, Hmac, Authenticates, signed_bytes, write_preface, verify_preface,
  read_preface,
}
use flowsplice_rust.Route.Proofs.{read-write_preface, verify-write_preface, Collision}

abbrev fill_to : ℕ → Bytes → Bytes
fill_to zero bytes = []
fill_to (suc n) [] = 0 ∷ fill_to n []
fill_to (suc n) (b ∷ bytes) = b ∷ fill_to n bytes

length-fill_to : (n : ℕ) (bytes : Bytes) → length (fill_to n bytes) ≡ n
length-fill_to zero bytes = refl
length-fill_to (suc n) [] = omega (arith, length-fill_to n [])
length-fill_to (suc n) (b ∷ bytes) = omega (arith, length-fill_to n bytes)

abbrev hmac : Hmac
hmac = record {
  sign = λ secret message. fill_to 32 (secret ++ message);
  verify = λ secret message tag. text_eq tag (fill_to 32 (secret ++ message));
}

auth : Authenticates hmac
auth = record {
  length-sign = λ secret message. length-fill_to 32 (secret ++ message);
  verify_iff = λ secret message tag. text_eq_iff tag (fill_to 32 (secret ++ message));
}

abbrev secret : Bytes
secret = fill_to 32 (8 ∷ [])

abbrev wire : Bytes
wire = signed_bytes travel_side 77 ++ hmac.sign secret (signed_bytes travel_side 77)

read-write_preface_example :
    (mac : Bytes) × (read_preface (wire ++ 1 ∷ [])
      ≡ ok (record { side = travel_side; id = 77 }, mac, 1 ∷ []))
    × (verify_preface hmac (record { side = travel_side; id = 77 }) mac secret ≡ true)
unfolding write_preface
read-write_preface_example =
    read-write_preface hmac auth travel_side 77 secret wire (1 ∷ []) (omega arith) refl

abbrev asked : RoutePreface
asked = record { side = travel_side; id = 77 }

verify-write_preface_example :
    (asked ≡ record { side = travel_side; id = 77 })
    ⊎ Collision hmac secret (signed_bytes travel_side 77) (signed_bytes travel_side 77)
unfolding write_preface verify_preface to_be_bytes text_eq
verify-write_preface_example =
    verify-write_preface hmac auth travel_side 77 asked secret wire (omega arith) (omega arith) refl
      refl
