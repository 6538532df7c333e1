-- ===== src/Base/Decimal.antt =====
-- std::to_string on the integer types, and std::stoi and std::stoll.
use project_moon.Base.{
  ℕ, zero, suc, ◌+◌, ◌-◌, ◌*◌, ◌/◌, ◌%◌, ◌<◌, ◌≡◌, ◌≢◌, refl, sym, ap, ◌∙◌, true, false, [], ◌∷◌,
  ◌++◌, arith, ltb, if◌then◌else◌, ◌==◌, nat_eq, Bytes, All, All-append, ℤ, pos, inl, inr,
  Bool-cases, negsuc, fits, Outcome, ok, throw,
}
use project_moon.Base.Text.{codes, is_space, is_digit, skip_spaces, Lacks}

-- The decimal digits of `n`, for more fuel than `n`.
digits : ℕ → ℕ → Bytes
digits zero n = []
digits (suc fuel) n =
    let front = digits fuel (n / 10) in
    if ltb n 10 then (b'0' + n) ∷ [] else front ++ (b'0' + n % 10) ∷ []

unfoldable pub nat_to_string : ℕ → Bytes
unfolding digits
nat_to_string n = digits (suc n) n

unfoldable pub to_string : ℤ → Bytes
unfolding nat_to_string
to_string (pos n) = nat_to_string n
to_string (negsuc n) = b'-' ∷ nat_to_string (suc n)

-- The value of the digits in front, on top of `acc`.
scan : ℕ → Bytes → ℕ
scan acc [] = acc
scan acc (c ∷ s) = if is_digit c then scan (acc * 10 + (c - b'0')) s else acc

-- std::invalid_argument where no digit stands
magnitude : Bytes → Outcome ℕ
unfolding scan is_digit
magnitude [] = throw
magnitude (c ∷ s) = if is_digit c then ok (scan 0 (c ∷ s)) else throw

-- std::out_of_range where the value does not fit
in_range : ℕ → ℤ → Outcome ℤ
in_range w z = if fits w z then ok z else throw

negate : ℕ → ℤ
negate zero = pos 0
negate (suc n) = negsuc n

signed : ℕ → Bytes → Outcome ℤ
unfolding magnitude in_range negate
signed w [] = throw
signed w (c ∷ s) =
    if c == b'-'
    then elim (magnitude s) [ ok n ↦ in_range w (negate n) | throw ↦ throw ]
    else if c == b'+'
    then elim (magnitude s) [ ok n ↦ in_range w (pos n) | throw ↦ throw ]
    else elim (magnitude (c ∷ s)) [ ok n ↦ in_range w (pos n) | throw ↦ throw ]

-- `parse_int w` reads an integer of `w + 1` bits.
parse_int : ℕ → Bytes → Outcome ℤ
unfolding signed skip_spaces is_space
parse_int w s = signed w (skip_spaces s)

unfoldable pub stoi : Bytes → Outcome ℤ
unfolding parse_int
stoi = parse_int 31

unfoldable pub stoll : Bytes → Outcome ℤ
unfolding parse_int
stoll = parse_int 63

abbrev pub IsDigits : Bytes → Type 0
IsDigits = All (λ c. is_digit c ≡ true)

digits-IsDigits : (fuel n : ℕ) → IsDigits (digits fuel n)
unfolding digits is_digit
digits-IsDigits zero n = tt
digits-IsDigits (suc fuel) n = elim (Bool-cases (ltb n 10)) [
  | inl small ↦ rw small (ground arith, tt)
  | inr large ↦
      rw large
        (All-append _ (digits fuel (n / 10)) _ (digits-IsDigits fuel (n / 10)) (ground arith, tt))
]

append_ne_nil : (a : Bytes) (c : ℕ) → a ++ c ∷ [] ≢ []
append_ne_nil [] c e = cc
append_ne_nil (x ∷ a) c e = cc

digits_ne_nil : (fuel n : ℕ) → digits (suc fuel) n ≢ []
unfolding digits
digits_ne_nil fuel n = elim (Bool-cases (ltb n 10)) [
  | inl small ↦ rw small (λ e. cc)
  | inr large ↦ rw large (append_ne_nil (digits fuel (n / 10)) _)
]

scan-append : (acc : ℕ) (a b : Bytes) → IsDigits a → scan acc (a ++ b) ≡ scan (scan acc a) b
unfolding scan
scan-append acc [] b h = refl
scan-append acc (c ∷ a) b h = ground (arith, h.0, scan-append (acc * 10 + (c - b'0')) a b h.1)

scan-digits : (fuel n : ℕ) → n < fuel → scan 0 (digits fuel n) ≡ n
unfolding scan digits is_digit
scan-digits zero n h = absurd (omega arith)
scan-digits (suc fuel) n h = ground (
  arith,
  scan-append 0 (digits fuel (n / 10)) ((b'0' + n % 10) ∷ []),
  digits-IsDigits fuel (n / 10),
  scan-digits fuel (n / 10),
)

-- A text of digits, read as a magnitude.
magnitude-digits : (s : Bytes) → IsDigits s → s ≢ [] → magnitude s ≡ ok (scan 0 s)
unfolding magnitude
magnitude-digits [] d h = absurd (h refl)
magnitude-digits (c ∷ s) d h = rw d.0

signed-digits : (w : ℕ) (s : Bytes) → IsDigits s → s ≢ [] → signed w s ≡ in_range w (pos (scan 0 s))
unfolding signed is_digit
signed-digits w [] d h = absurd (h refl)
signed-digits w (c ∷ s) d h = ground (arith, d.0, magnitude-digits (c ∷ s) d h)

skip_spaces-digits : (s : Bytes) → IsDigits s → skip_spaces s ≡ s
unfolding skip_spaces is_digit is_space
skip_spaces-digits [] d = refl
skip_spaces-digits (c ∷ s) d = ground (arith, d.0)

pub nat_to_string-IsDigits : (n : ℕ) → IsDigits (nat_to_string n)
unfolding nat_to_string
nat_to_string-IsDigits n = digits-IsDigits (suc n) n

scan-nat_to_string : (n : ℕ) → scan 0 (nat_to_string n) ≡ n
unfolding nat_to_string
scan-nat_to_string n = scan-digits (suc n) n (omega arith)

pub nat_to_string_ne_nil : (n : ℕ) → nat_to_string n ≢ []
unfolding nat_to_string
nat_to_string_ne_nil n = digits_ne_nil n n

magnitude-nat_to_string : (n : ℕ) → magnitude (nat_to_string n) ≡ ok n
magnitude-nat_to_string n =
    magnitude-digits (nat_to_string n) (nat_to_string-IsDigits n) (nat_to_string_ne_nil n)
    ∙ ap (λ v. ok v) (scan-nat_to_string n)

-- Reading back what was printed gives the number, where it fits the width.
parse_int-to_string : (w : ℕ) (z : ℤ) → fits w z ≡ true → parse_int w (to_string z) ≡ ok z
unfolding parse_int to_string
parse_int-to_string w (pos n) h =
    rw
      (
        skip_spaces-digits (nat_to_string n) (nat_to_string-IsDigits n),
        signed-digits w (nat_to_string n) (nat_to_string-IsDigits n) (nat_to_string_ne_nil n),
        scan-nat_to_string n,
      )
      (rw (h, in_range))
parse_int-to_string w (negsuc n) h = rw (magnitude-nat_to_string (suc n), signed) (rw (h, in_range))

pub stoi-to_string : (z : ℤ) → fits 31 z ≡ true → stoi (to_string z) ≡ ok z
unfolding stoi
stoi-to_string = parse_int-to_string 31

pub stoll-to_string : (z : ℤ) → fits 63 z ≡ true → stoll (to_string z) ≡ ok z
unfolding stoll
stoll-to_string = parse_int-to_string 63

-- Whatever the text, a number that is read fits its type.
in_range-fits : (w : ℕ) (z y : ℤ) → in_range w z ≡ ok y → fits w y ≡ true
unfolding in_range
in_range-fits w z y h = ground (arith, h)

from_magnitude-fits :
    (w : ℕ) (sign : ℕ → ℤ) (r : Outcome ℕ) (y : ℤ)
    → elim r [ ok n ↦ in_range w (sign n) | throw ↦ throw ] ≡ ok y
    → fits w y ≡ true
from_magnitude-fits w sign (ok n) y h = in_range-fits w (sign n) y h
from_magnitude-fits w sign throw y h = cc

signed-fits : (w : ℕ) (s : Bytes) (y : ℤ) → signed w s ≡ ok y → fits w y ≡ true
unfolding signed
signed-fits w [] y h = cc
signed-fits w (c ∷ s) y h = elim (Bool-cases (c == b'-')) [
  | inl minus ↦ from_magnitude-fits w negate (magnitude s) y (ground (arith, h, minus))
  | inr not_minus ↦ elim (Bool-cases (c == b'+')) [
    | inl plus ↦
        from_magnitude-fits w (λ n. pos n) (magnitude s) y (ground (arith, h, not_minus, plus))
    | inr digit ↦
        from_magnitude-fits w (λ n. pos n) (magnitude (c ∷ s)) y
          (ground (arith, h, not_minus, digit))
  ]
]

pub stoi-fits : (s : Bytes) (y : ℤ) → stoi s ≡ ok y → fits 31 y ≡ true
unfolding stoi parse_int
stoi-fits s = signed-fits 31 (skip_spaces s)

-- Only digits stand in a printed natural number, so a separator is never among them.
IsDigits-Lacks : (c : ℕ) (s : Bytes) → is_digit c ≡ false → IsDigits s → Lacks c s
unfolding is_digit
IsDigits-Lacks c [] h d = tt
IsDigits-Lacks c (x ∷ s) h d = ((λ e. ground arith), IsDigits-Lacks c s h d.1)

pub nat_to_string-Lacks : (c n : ℕ) → is_digit c ≡ false → Lacks c (nat_to_string n)
nat_to_string-Lacks c n h = IsDigits-Lacks c (nat_to_string n) h (nat_to_string-IsDigits n)

pub to_string-Lacks : (c : ℕ) (z : ℤ) → is_digit c ≡ false → c ≢ b'-' → Lacks c (to_string z)
unfolding to_string
to_string-Lacks c (pos n) h g = nat_to_string-Lacks c n h
to_string-Lacks c (negsuc n) h g = ((λ e. g (sym e)), nat_to_string-Lacks c (suc n) h)

pub nat_to_string_injective : (m n : ℕ) → nat_to_string m ≡ nat_to_string n → m ≡ n
nat_to_string_injective m n e = sym (scan-nat_to_string m) ∙ ap (scan 0) e ∙ scan-nat_to_string n

stoi_reads : stoi (codes " -1234x") ≡ ok (negsuc 1233)
unfolding stoi
stoi_reads = refl

stoi_overflows : stoi (codes "2147483648") ≡ throw
unfolding stoi
stoi_overflows = refl
