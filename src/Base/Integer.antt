-- ===== src/Base/Integer.antt =====
-- `strconv.ParseInt(s, 10, 64)`, and the order of the integers that it returns.
use Prim.Native.Char.{code}
use kahu.Base.{
  ℕ, zero, suc, ◌+◌, ◌-◌, ◌*◌, String, ◌≡◌, Bool, true, false, ◌&&◌, Option, none, some, List, [],
  ◌∷◌, arith, ltb, leb, if◌then◌else◌, ◌^◌,
}

-- `negsuc n` is -(n + 1).
pub data ℤ : Type 0 where
  pos : ℕ → ℤ
  negsuc : ℕ → ℤ

-- The Go test `a < b` on int64 values.
unfoldable pub int_lt : ℤ → ℤ → Bool
int_lt (pos a) (pos b) = ltb a b
int_lt (pos a) (negsuc b) = false
int_lt (negsuc a) (pos b) = true
int_lt (negsuc a) (negsuc b) = ltb b a

-- The code points of a text. A character that is not ASCII is no digit, nor are its bytes.
abbrev codes : String → List ℕ
codes String.[] = []
codes (String.◌∷◌ c s) = code c ∷ codes s

is_digit : ℕ → Bool
is_digit c = leb b'0' c && leb c b'9'

parse_digits : ℕ → List ℕ → Option ℕ
unfolding is_digit
parse_digits acc [] = some acc
parse_digits acc (c ∷ cs) =
    let rest = parse_digits (acc * 10 + (c - b'0')) cs in if is_digit c then rest else none

-- At least one digit is wanted.
parse_nat : List ℕ → Option ℕ
unfolding parse_digits
parse_nat [] = none
parse_nat (c ∷ cs) = parse_digits 0 (c ∷ cs)

-- The int64 value of a sign and a magnitude; `none` is the range error.
in_range : Bool → ℕ → Option ℤ
in_range false n = if ltb n (2 ^ 63) then some (pos n) else none
in_range true zero = some (pos 0)
in_range true (suc n) = if ltb n (2 ^ 63) then some (negsuc n) else none

abbrev nat_eq : ℕ → ℕ → Bool
nat_eq a b = leb a b && leb b a

signed : Bool → Option ℕ → Option ℤ
signed negative none = none
signed negative (some n) = in_range negative n

parse_codes : List ℕ → Option ℤ
unfolding parse_nat signed in_range
parse_codes [] = none
parse_codes (c ∷ cs) =
    if nat_eq c b'-'
    then signed true (parse_nat cs)
    else if nat_eq c b'+'
    then signed false (parse_nat cs)
    else signed false (parse_nat (c ∷ cs))

unfoldable pub parse_int : String → Option ℤ
unfolding parse_codes
parse_int s = parse_codes (codes s)

pub int_lt_irrefl : (a : ℤ) → int_lt a a ≡ false
unfolding int_lt
int_lt_irrefl (pos a) = ground arith
int_lt_irrefl (negsuc a) = ground arith

pub int_lt_asymm : (a b : ℤ) → int_lt a b ≡ true → int_lt b a ≡ false
unfolding int_lt
int_lt_asymm (pos a) (pos b) h = ground arith
int_lt_asymm _ _ h = ground arith

pub int_lt_trans : (a b d : ℤ) → int_lt a b ≡ true → int_lt b d ≡ true → int_lt a d ≡ true
unfolding int_lt
int_lt_trans (pos a) (pos b) (pos d) h k = ground arith
int_lt_trans (negsuc a) (negsuc b) (negsuc d) h k = ground arith
int_lt_trans (negsuc a) b (pos d) h k = ground arith
int_lt_trans (pos a) (pos b) (negsuc d) h k = cc
int_lt_trans (pos a) (negsuc b) d h k = cc
int_lt_trans (negsuc a) (pos b) (negsuc d) h k = cc
