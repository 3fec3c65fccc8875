-- ===== src/Go/Strconv.antt =====
-- strconv.Atoi, and the verb %d of package fmt. An int is 64 bits wide.
pub mod Laws
use Prim.Native.Char.{Char, code}
use Prim.Native.String.{String, [], ◌∷◌, ◌++◌}
use mathlib.Core.Option
use xenonite.Base.{
  ℕ, zero, suc, ◌+◌, ◌-◌, ◌*◌, ◌/◌, ◌%◌, ◌^◌, ◌&&◌, Option, none, some, eqb, leb, if◌then◌else◌,
}
use xenonite.Base.Int.{ℤ, pos, negsuc}

digit_char : ℕ → Char
digit_char zero = "0"
digit_char (suc zero) = "1"
digit_char (suc (suc zero)) = "2"
digit_char (suc (suc (suc zero))) = "3"
digit_char (suc (suc (suc (suc zero)))) = "4"
digit_char (suc (suc (suc (suc (suc zero))))) = "5"
digit_char (suc (suc (suc (suc (suc (suc zero)))))) = "6"
digit_char (suc (suc (suc (suc (suc (suc (suc zero))))))) = "7"
digit_char (suc (suc (suc (suc (suc (suc (suc (suc zero)))))))) = "8"
digit_char (suc (suc (suc (suc (suc (suc (suc (suc (suc n))))))))) = "9"

-- The digits of a number in front of `out`; none for 0. The number itself is fuel enough.
print_digits : ℕ → ℕ → String → String
print_digits zero n out = out
print_digits (suc fuel) n out =
    let rest = print_digits fuel (n / 10) (digit_char (n % 10) ∷ out) in
    if eqb n 0 then out else rest

pub print_nat : ℕ → String
unfolding print_digits digit_char
print_nat n = if eqb n 0 then "0" else print_digits n n ""

-- %d
unfoldable pub print_int : ℤ → String
unfolding print_nat
print_int (pos n) = print_nat n
print_int (negsuc n) = "-" ++ print_nat (suc n)

-- The number that digits spell behind `n`; `none` at any other character.
pub read_digits : ℕ → String → Option ℕ
read_digits n [] = some n
read_digits n (c ∷ s) =
    if leb b'0' (code c) && leb (code c) b'9'
    then read_digits (n * 10 + (code c - b'0')) s
    else none

-- One digit at least.
pub read_nat : String → Option ℕ
unfolding read_digits
read_nat [] = none
read_nat (c ∷ s) = read_digits 0 (c ∷ s)

abbrev pub negate : ℕ → ℤ
negate zero = pos 0
negate (suc n) = negsuc n

-- Beyond 64 bits `Atoi` fails.
abbrev pub in_range : Option ℤ → Option ℤ
in_range none = none
in_range (some (pos n)) = if leb n (2 ^ 63 - 1) then some (pos n) else none
in_range (some (negsuc n)) = if leb (suc n) (2 ^ 63) then some (negsuc n) else none

signed : String → Option ℤ
unfolding read_nat
signed [] = none
signed (c ∷ s) =
    if eqb (code c) b'-'
    then Option.map negate (read_nat s)
    else if eqb (code c) b'+'
    then Option.map pos (read_nat s)
    else Option.map pos (read_nat (c ∷ s))

-- `none` where `Atoi` returns an error.
unfoldable pub atoi : String → Option ℤ
unfolding signed
atoi s = in_range (signed s)
