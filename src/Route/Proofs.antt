-- ===== src/Route/Proofs.antt =====
-- internal/flowsplice-core/src/route.rs: what is written is read back, and a tag is accepted for
-- its own preface.
use flowsplice_rust.Prelude.{
  [], ◌≢◌, ◌⊎◌, inl, inr, Bool-cases, ℕ, ◌-◌, ◌^◌, ◌<◌, ◌≡◌, refl, sym, ap, ◌∙◌, true, false, not,
  ◌++◌, ok, ltb, ◌==◌, length, take, drop, arith, length-append, append_assoc, take-append,
  take_all, drop_past, drop-drop, >>-eq-ok, ok_inj,
}
use flowsplice_rust.Prelude.Bytes.{Bytes, length-to_be_bytes, from_be_bytes-to_be_bytes}
use flowsplice_rust.Prelude.Text.{text_eq, text_eq_iff}
use flowsplice_rust.Protocol.{Uuid}
use flowsplice_rust.Route.{
  RouteSide, travel_side, home_side, try_side, RoutePreface, signed_bytes, Hmac, Authenticates,
  write_preface, verify_preface, parse_preface, read_preface, invalid_secret, signed_len,
}

-- The parts of a concatenation.
take_first : (xs ys : Bytes) (n : ℕ) → length xs ≡ n → take n (xs ++ ys) ≡ xs
take_first xs ys n e = take-append n xs ys (omega arith) ∙ take_all n xs (omega arith)

drop_first : (xs ys : Bytes) (n : ℕ) → length xs ≡ n → drop n (xs ++ ys) ≡ ys
drop_first xs ys n e = drop_past n xs ys (omega arith) ∙ ap (λ k. drop k ys) none_left
  where
    none_left : n - length xs ≡ 0
    none_left = omega arith

length-signed_bytes : (side : RouteSide) (id : Uuid) → length (signed_bytes side id) ≡ 25
unfolding signed_bytes
length-signed_bytes side id = omega (arith, length-to_be_bytes 16 id)

read_preface_lem :
    (signed mac rest : Bytes)
    → length signed ≡ 25
    → length mac ≡ 32
    → read_preface (signed ++ (mac ++ rest)) ≡ parse_preface signed mac rest
unfolding read_preface
read_preface_lem signed mac rest h k =
    rw (long, take_first signed (mac ++ rest) 25 h, behind, take_first mac rest 32 k, end) refl
  where
    long : ltb (length (signed ++ (mac ++ rest))) 57 ≡ false
    long = ground (arith, length-append signed (mac ++ rest), length-append mac rest)

    behind : drop 25 (signed ++ (mac ++ rest)) ≡ mac ++ rest
    behind = drop_first signed (mac ++ rest) 25 h

    end : drop 57 (signed ++ (mac ++ rest)) ≡ rest
    end =
        sym (drop-drop 32 25 (signed ++ (mac ++ rest)))
        ∙ ap (drop 32) behind
        ∙ drop_first mac rest 32 k

parse-signed_bytes :
    (side : RouteSide) (id : Uuid) (mac rest : Bytes)
    → id < 256 ^ 16
    → parse_preface (signed_bytes side id) mac rest
      ≡ ok (record { side = side; id = id }, mac, rest)
unfolding parse_preface signed_bytes try_side text_eq
parse-signed_bytes travel_side id mac rest h = rw (from_be_bytes-to_be_bytes 16 id h) refl
parse-signed_bytes home_side id mac rest h = rw (from_be_bytes-to_be_bytes 16 id h) refl

-- Two messages that the secret gives the same tag.
abbrev pub Collision : Hmac → Bytes → Bytes → Bytes → Type 0
Collision hmac secret m n = (m ≢ n) × (hmac.sign secret m ≡ hmac.sign secret n)

module _ (hmac : Hmac) (auth : Authenticates hmac) where
  -- For an HMAC that signs with 32 bytes and verifies what it signed, and an id of 16 bytes: what
  -- `write_preface` writes is read back from the front of any stream, with the rest left over, and
  -- the tag is accepted under the same secret.
  pub read-write_preface :
      (side : RouteSide) (id : Uuid) (secret bytes rest : Bytes)
      → id < 256 ^ 16
      → write_preface hmac side id secret ≡ ok bytes
      → (mac : Bytes) × (read_preface (bytes ++ rest)
          ≡ ok (record { side = side; id = id }, mac, rest))
        × (verify_preface hmac (record { side = side; id = id }) mac secret ≡ true)
  unfolding write_preface verify_preface
  read-write_preface side id secret bytes rest small h =
      let tag = hmac.sign secret (signed_bytes side id) in
      let w =
        >>-eq-ok (not (length secret == 32)) invalid_secret (ok (signed_bytes side id ++ tag)) h in
      (
        tag,
        rw
            (
              sym (ok_inj w.1),
              append_assoc (signed_bytes side id) tag rest,
              read_preface_lem (signed_bytes side id) tag rest (length-signed_bytes side id)
                  (auth.length-sign secret (signed_bytes side id)),
            )
            (parse-signed_bytes side id tag rest small),
        rw (w.0, auth.length-sign secret (signed_bytes side id))
            ((auth.verify_iff secret (signed_bytes side id) tag).1 refl),
      )

  -- A tag that was written for one preface is not accepted for another, of the other side or with
  -- another id, unless the HMAC gives the signed bytes of both the same tag. The ids have 16 bytes,
  -- and the HMAC signs with 32 bytes and verifies what it signed.
  pub verify-write_preface :
      (side : RouteSide) (id : Uuid) (other : RoutePreface) (secret bytes : Bytes)
      → id < 256 ^ 16
      → other.id < 256 ^ 16
      → write_preface hmac side id secret ≡ ok bytes
      → verify_preface hmac other (drop signed_len bytes) secret ≡ true
      → (other ≡ record { side = side; id = id })
        ⊎ Collision hmac secret (signed_bytes other.side other.id) (signed_bytes side id)
  unfolding write_preface verify_preface
  verify-write_preface side id other secret bytes small small' h v =
      let m = signed_bytes side id in
      let n = signed_bytes other.side other.id in
      let w =
        >>-eq-ok (not (length secret == 32)) invalid_secret (ok (m ++ hmac.sign secret m)) h in
      let tag : drop signed_len bytes ≡ hmac.sign secret m =
        ap (drop signed_len) (sym (ok_inj w.1))
        ∙ drop_first m (hmac.sign secret m) signed_len (length-signed_bytes side id) in
      let accepted : hmac.verify secret n (drop signed_len bytes) ≡ true = ground (arith, v) in
      elim (Bool-cases (text_eq n m)) [
        | inl e ↦ inl (
            ap (λ p. p.0)
              (ok_inj (
                sym (parse-signed_bytes other.side other.id [] [] small')
                ∙ ap (λ b. parse_preface b [] []) ((text_eq_iff n m).0 e)
                ∙ parse-signed_bytes side id [] [] small)))
        | inr e ↦ inr (
          λ same. absurd (ground (arith, (text_eq_iff n m).1 same, e)),
          sym ((auth.verify_iff secret n (drop signed_len bytes)).0 accepted) ∙ tag,
        )
      ]
