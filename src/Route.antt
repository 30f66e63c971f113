-- ===== src/Route.antt =====
-- internal/flowsplice-core/src/route.rs: the authenticated preface of a route. `Hmac` is
-- HMAC-SHA256 of `aws_lc_rs`; a tag has 32 bytes, and `verify` accepts exactly the tag that `sign`
-- gives, which is what its documentation says.
mod Proofs
mod Runs
use flowsplice_rust.Prelude.{
  ℕ, ◌+◌, ◌≡◌, ◌↔◌, Bool, true, false, ◌&&◌, ◌||◌, not, List, [], ◌∷◌, ◌++◌, Option, none, some,
  Result, ok, err, ◌>>=◌, ◌>>◌, bail_if, ok_or, ltb, ◌==◌, if◌then◌else◌, length, take, drop, head,
}
use flowsplice_rust.Prelude.Bytes.{Bytes, to_be_bytes, from_be_bytes}
use flowsplice_rust.Prelude.Text.{text_eq, codes}
use flowsplice_rust.Protocol.{Uuid}

abbrev pub magic : Bytes
magic = codes "FSLCRTE2"

-- 8 + 1 + 16 and `MAC_LEN`
abbrev pub signed_len : ℕ
signed_len = 25

abbrev pub mac_len : ℕ
mac_len = 32

pub data RouteSide : Type 0 where
  travel_side home_side : RouteSide

-- `side as u8`
abbrev pub side_byte : RouteSide → ℕ
side_byte travel_side = 1
side_byte home_side = 2

pub data RouteError : Type 0 where
  invalid_secret truncated invalid_magic invalid_side : RouteError

unfoldable pub try_side : ℕ → Result RouteError RouteSide
try_side value =
    if value == 1 then ok travel_side else if value == 2 then ok home_side else err invalid_side

pub record RoutePreface : Type 0 where
  pub side : RouteSide
  pub id : Uuid

unfoldable pub signed_bytes : RouteSide → Uuid → Bytes
signed_bytes side id = magic ++ side_byte side ∷ to_be_bytes 16 id

pub record Hmac : Type 0 where
  pub sign : (secret message : Bytes) → Bytes
  pub verify : (secret message tag : Bytes) → Bool

pub record Authenticates (hmac : Hmac) : Type 0 where
  pub length-sign : (secret message : Bytes) → length (hmac.sign secret message) ≡ mac_len
  pub verify_iff :
      (secret message tag : Bytes)
      → (hmac.verify secret message tag ≡ true) ↔ (tag ≡ hmac.sign secret message)

module _ (hmac : Hmac) where
  -- The bytes that an unfailing writer takes.
  unfoldable pub write_preface : RouteSide → Uuid → Bytes → Result RouteError Bytes
  unfolding signed_bytes
  write_preface side id secret = do
    bail_if (not (length secret == 32)) invalid_secret
    ok (signed_bytes side id ++ hmac.sign secret (signed_bytes side id))

  unfoldable pub verify_preface : RoutePreface → Bytes → Bytes → Bool
  unfolding signed_bytes
  verify_preface preface mac secret =
      if not (length secret == 32) || not (length mac == mac_len)
      then false
      else hmac.verify secret (signed_bytes preface.side preface.id) mac

-- The preface with its tag, and what the stream holds behind them.
abbrev pub Preface : Type 0
Preface = RoutePreface × Bytes × Bytes

-- `signed[MAGIC.len()]` is there, since `read_exact` filled the array.
unfoldable pub parse_preface : Bytes → Bytes → Bytes → Result RouteError Preface
unfolding try_side
parse_preface signed mac rest = do
  bail_if (not (text_eq (take 8 signed) magic)) invalid_magic
  byte ← ok_or (head (drop 8 signed)) truncated
  side ← try_side byte
  ok (record { side = side; id = from_be_bytes (drop 9 signed) }, mac, rest)

-- `read_exact` fails at the end of the stream.
unfoldable pub read_preface : Bytes → Result RouteError Preface
unfolding parse_preface
read_preface stream =
    if ltb (length stream) (signed_len + mac_len)
    then err truncated
    else parse_preface (take signed_len stream) (take mac_len (drop signed_len stream))
        (drop (signed_len + mac_len) stream)
