-- ===== src/Security.antt =====
-- common/security/password_hasher.{h,cpp}. PKCS5_PBKDF2_HMAC of OpenSSL is the parameter `pbkdf2`:
-- the derived key for a password, a salt and a number of iterations, or `none` where it fails.
pub mod Laws
use project_moon.Base.{
  ℕ, ◌+◌, ◌-◌, ◌*◌, ◌/◌, ◌%◌, Bool, true, false, not, ◌&&◌, Option, none, some, [], ◌∷◌, ◌++◌,
  Bytes, bytes_eq, ℤ, pos, ◌==◌, ltb, leb, leb_ℤ, if◌then◌else◌, Outcome, ok, throw,
}
use project_moon.Base.Text.{codes, split_at, is_empty}
use project_moon.Base.Decimal.{to_string, stoi}

-- `kHexDigits[n]`
unfoldable pub hex_digit : ℕ → ℕ
hex_digit n = if ltb n 10 then b'0' + n else b'a' + (n - 10)

unfoldable pub to_hex : Bytes → Bytes
to_hex [] = []
to_hex (c ∷ s) = hex_digit (c / 16 % 16) ∷ hex_digit (c % 16) ∷ to_hex s

-- `none` is -1.
unfoldable pub decode : ℕ → Option ℕ
decode ch =
    if leb b'0' ch && leb ch b'9'
    then some (ch - b'0')
    else if leb b'a' ch && leb ch b'f'
    then some (ch - b'a' + 10)
    else if leb b'A' ch && leb ch b'F'
    then some (ch - b'A' + 10)
    else none

-- `high < 0 || low < 0` refuses; else the byte is put in front of the rest.
unfoldable pub push_byte : Option ℕ → Option ℕ → Option Bytes → Option Bytes
push_byte (some high) (some low) (some rest) = some ((high * 16 + low) % 256 ∷ rest)
push_byte _ _ _ = none

unfoldable pub from_hex : Bytes → Option Bytes
from_hex [] = some []
from_hex (c ∷ []) = none
from_hex (h ∷ l ∷ s) = push_byte (decode h) (decode l) (from_hex s)

module _ (pbkdf2 : Bytes → Bytes → ℤ → Option Bytes) where
  unfoldable pub hash_password : Bytes → Bytes → ℤ → Bytes
  hash_password password salt iterations =
      if leb_ℤ iterations (pos 0) then [] else elim (pbkdf2 password salt iterations) [
        | none ↦ []
        | some derived_key ↦ to_hex derived_key
      ]

  -- The parts of an encoded hash, once it is cut at the first three '$'.
  unfoldable pub verify_parts : Bytes → Bytes → Bytes → Bytes → Bytes → Bool
  verify_parts password scheme iterations_text salt_hex expected_hash =
      if not (scheme == codes "pbkdf2_sha256") then false else elim (stoi iterations_text) [
        | throw ↦ false
        | ok iterations ↦ elim (from_hex salt_hex) [
          | none ↦ false
          | some salt ↦ hash_password password salt iterations == expected_hash
        ]
      ]

  unfoldable pub verify_password : Bytes → Bytes → Bool
  verify_password password encoded_hash = elim (split_at b'$' encoded_hash) [
    | none ↦ false
    | some (scheme, behind_first) ↦ elim (split_at b'$' behind_first) [
      | none ↦ false
      | some (iterations_text, behind_second) ↦ elim (split_at b'$' behind_second) [
        | none ↦ false
        | some (salt_hex, expected_hash) ↦
            verify_parts password scheme iterations_text salt_hex expected_hash
      ]
    ]
  ]

  unfoldable pub build_encoded_hash : Bytes → Bytes → ℤ → Option Bytes
  build_encoded_hash password salt iterations =
      let hashed = hash_password password salt iterations in
      if is_empty hashed
      then none
      else some (
          codes "pbkdf2_sha256"
          ++ (b'$' ∷ to_string iterations ++ (b'$' ∷ to_hex salt ++ (b'$' ∷ hashed))))
