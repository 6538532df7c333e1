-- ===== src/Security/Laws.antt =====
-- Passwords and their encoded hashes: what is built is read back.
use project_moon.Base.{
  ℕ, ◌/◌, ◌%◌, ◌<◌, ◌≡◌, refl, true, Option, some, [], ◌∷◌, ◌++◌, Bytes, bytes_eq, ℤ, ◌==◌, fits,
  arith, All, beq_self, Bool-cases, inl, inr, ap, ◌≢◌,
}
use project_moon.Base.Text.{codes, split_at-append, is_empty, is_digit, Lacks}
use project_moon.Base.Decimal.{to_string, stoi-to_string, to_string-Lacks}
use project_moon.Security.{
  hex_digit, to_hex, decode, push_byte, from_hex, hash_password, verify_parts, verify_password,
  build_encoded_hash,
}

decode-hex_digit : (n : ℕ) → n < 16 → decode (hex_digit n) ≡ some n
unfolding decode hex_digit
decode-hex_digit n h = ground arith

-- Text of bytes.
abbrev pub AreBytes : Bytes → Type 0
AreBytes = All (λ c. c < 256)

-- Every text of bytes comes back from its hexadecimal digits.
pub from_hex-to_hex : (s : Bytes) → AreBytes s → from_hex (to_hex s) ≡ some s
unfolding to_hex from_hex push_byte
from_hex-to_hex [] h = refl
from_hex-to_hex (c ∷ s) h =
    rw
      (
        decode-hex_digit (c / 16 % 16) (omega arith),
        decode-hex_digit (c % 16) (omega arith),
        from_hex-to_hex s h.1,
      )
      (ap (λ x. some (x ∷ s)) (omega (arith, h.0)))

hex_digit_ne : (n : ℕ) → n < 16 → hex_digit n ≢ b'$'
unfolding hex_digit
hex_digit_ne n h e = ground arith

to_hex-Lacks : (s : Bytes) → Lacks b'$' (to_hex s)
unfolding to_hex
to_hex-Lacks [] = tt
to_hex-Lacks (c ∷ s) =
    (hex_digit_ne _ (omega arith), (hex_digit_ne _ (omega arith), to_hex-Lacks s))

scheme-Lacks : Lacks b'$' (codes "pbkdf2_sha256")
scheme-Lacks = ground arith

module _ (pbkdf2 : Bytes → Bytes → ℤ → Option Bytes) where
  verify-encoded :
      (other salt hashed : Bytes) (iterations : ℤ)
      → AreBytes salt
      → fits 31 iterations ≡ true
      → verify_password pbkdf2 other (
          codes "pbkdf2_sha256"
          ++ (b'$' ∷ to_string iterations ++ (b'$' ∷ to_hex salt ++ (b'$' ∷ hashed))))
        ≡ (hash_password pbkdf2 other salt iterations == hashed)
  unfolding verify_password verify_parts
  verify-encoded other salt hashed iterations bytes fit = rw (
    verify_password,
    split_at-append b'$' (codes "pbkdf2_sha256")
        (to_string iterations ++ (b'$' ∷ to_hex salt ++ (b'$' ∷ hashed))) scheme-Lacks,
    split_at-append b'$' (to_string iterations) (to_hex salt ++ (b'$' ∷ hashed))
        (to_string-Lacks b'$' iterations (unfold is_digit in refl) (omega arith)),
    split_at-append b'$' (to_hex salt) hashed (to_hex-Lacks salt),
    verify_parts,
    beq_self (codes "pbkdf2_sha256"),
    stoi-to_string iterations fit,
    from_hex-to_hex salt bytes,
  )

  -- For a salt of bytes and iterations that fit an int, a stored hash accepts exactly the passwords that hash, with its salt and its number of
  -- iterations, to what the original password hashes to.
  pub verify_password-build_encoded_hash :
      (password other salt encoded : Bytes) (iterations : ℤ)
      → AreBytes salt
      → fits 31 iterations ≡ true
      → build_encoded_hash pbkdf2 password salt iterations ≡ some encoded
      → verify_password pbkdf2 other encoded ≡ (
          hash_password pbkdf2 other salt iterations
          == hash_password pbkdf2 password salt iterations)
  unfolding build_encoded_hash
  verify_password-build_encoded_hash password other salt encoded iterations bytes fit built =
      elim (Bool-cases (is_empty (hash_password pbkdf2 password salt iterations))) [
        | inl e ↦ absurd (ground (arith, e, built))
        | inr e ↦
            let same : codes "pbkdf2_sha256"
                  ++ (b'$' ∷ to_string iterations
                      ++ (b'$' ∷ to_hex salt
                          ++ (b'$' ∷ hash_password pbkdf2 password salt iterations)))
                ≡ encoded =
              ground (arith, e, built) in
            rw (← same) (verify-encoded other salt _ iterations bytes fit)
      ]
