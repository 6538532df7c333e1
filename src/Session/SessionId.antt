-- ===== src/Session/SessionId.antt =====
-- The text of a session id, "sess-<account>-<player>-<sequence>", which both repositories build.
use project_moon.Base.{ℕ, ◌≡◌, ◌≢◌, refl, sym, ap, [], ◌∷◌, ◌++◌, arith, Bytes, ℤ, pos, negsuc, suc}
use project_moon.Base.Text.{codes, append_sep_injective, is_digit, Lacks}
use project_moon.Base.Decimal.{
  nat_to_string, to_string, nat_to_string-Lacks, nat_to_string_injective, nat_to_string_ne_nil,
}

unfoldable pub make_session_id : ℤ → ℤ → ℕ → Bytes
make_session_id account_id player_id sequence =
    codes "sess-"
    ++ (to_string account_id ++ (b'-' ∷ to_string player_id ++ (b'-' ∷ nat_to_string sequence)))

nat_to_string-sep_injective :
    (m n : ℕ) (s t : Bytes) → nat_to_string m ++ b'-' ∷ s ≡ nat_to_string n ++ b'-' ∷ t → m ≡ n
nat_to_string-sep_injective m n s t e =
    nat_to_string_injective m n
      (append_sep_injective b'-' (nat_to_string m) (nat_to_string n) s t (no_dash m) (no_dash n)
        e).0
  where
    no_dash : (k : ℕ) → Lacks b'-' (nat_to_string k)
    no_dash k = nat_to_string-Lacks b'-' k (unfold is_digit in refl)

-- A natural number is printed with no sign.
nat_to_string-sign : (m : ℕ) (s t : Bytes) → nat_to_string m ++ b'-' ∷ s ≢ b'-' ∷ t
nat_to_string-sign m s t e =
    nat_to_string_ne_nil m
      (append_sep_injective b'-' (nat_to_string m) [] s t
        (nat_to_string-Lacks b'-' m (unfold is_digit in refl)) tt e).0

-- What follows the prefix shows the account.
to_string-sep_injective :
    (a b : ℤ) (s t : Bytes) → to_string a ++ b'-' ∷ s ≡ to_string b ++ b'-' ∷ t → a ≡ b
unfolding to_string
to_string-sep_injective (pos m) (pos n) s t e = ap pos (nat_to_string-sep_injective m n s t e)
to_string-sep_injective (negsuc m) (negsuc n) s t e =
    ap negsuc (omega (arith, nat_to_string-sep_injective (suc m) (suc n) s t (cc)))
to_string-sep_injective (pos m) (negsuc n) s t e = absurd (nat_to_string-sign m s _ e)
to_string-sep_injective (negsuc m) (pos n) s t e = absurd (nat_to_string-sign n t _ (sym e))

-- Equal session ids have equal accounts, whatever the players and the sequence numbers are.
pub make_session_id_account :
    (a b p q : ℤ) (m n : ℕ) → make_session_id a p m ≡ make_session_id b q n → a ≡ b
unfolding make_session_id
make_session_id_account a b p q m n e = to_string-sep_injective a b _ _ (tails e)
  where
    tails : {s t : Bytes} → codes "sess-" ++ s ≡ codes "sess-" ++ t → s ≡ t
    tails h = cc
