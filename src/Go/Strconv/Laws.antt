-- ===== src/Go/Strconv/Laws.antt =====
-- `Atoi` reads back what %d prints.
use Prim.Native.Char.{code}
use Prim.Native.String.{String, [], ◌∷◌, ◌++◌}
use Prim.Native.String.append
use mathlib.Core.Option
use xenonite.Base.{
  ℕ, zero, suc, ◌+◌, ◌-◌, ◌/◌, ◌%◌, ◌^◌, ◌≤◌, ◌<◌, ◌≡◌, ◌≢◌, refl, ap, ◌∙◌, none, some, arith, eqb,
  Bool-cases, inl, inr,
}
use xenonite.Base.Int.{ℤ, pos, negsuc}
use xenonite.Go.Strconv.{
  digit_char, print_digits, print_nat, print_int, read_digits, read_nat, negate, in_range, signed,
  atoi,
}

-- The integers of a 64-bit word.
abbrev pub IsInt64 : ℤ → Type 0
IsInt64 (pos n) = n ≤ 2 ^ 63 - 1
IsInt64 (negsuc n) = suc n ≤ 2 ^ 63

code-digit_char : (d : ℕ) → d < 10 → code (digit_char d) ≡ b'0' + d
unfolding digit_char
code-digit_char zero h = refl
code-digit_char (suc zero) h = refl
code-digit_char (suc (suc zero)) h = refl
code-digit_char (suc (suc (suc zero))) h = refl
code-digit_char (suc (suc (suc (suc zero)))) h = refl
code-digit_char (suc (suc (suc (suc (suc zero))))) h = refl
code-digit_char (suc (suc (suc (suc (suc (suc zero)))))) h = refl
code-digit_char (suc (suc (suc (suc (suc (suc (suc zero))))))) h = refl
code-digit_char (suc (suc (suc (suc (suc (suc (suc (suc zero)))))))) h = refl
code-digit_char (suc (suc (suc (suc (suc (suc (suc (suc (suc n))))))))) h = omega arith

read_last :
    (n : ℕ) (out : String) → read_digits (n / 10) (digit_char (n % 10) ∷ out) ≡ read_digits n out
unfolding read_digits
read_last n out = ground (arith, code-digit_char (n % 10))

read_digits-print_digits :
    (fuel n : ℕ) (out : String)
    → n ≤ fuel
    → read_digits 0 (print_digits fuel n out) ≡ read_digits n out
unfolding print_digits
read_digits-print_digits zero n out h = ap (λ k. read_digits k out) (omega arith)
read_digits-print_digits (suc fuel) n out h = elim (Bool-cases (eqb n 0)) [
  | inl e ↦ rw e (ap (λ k. read_digits k out) (ground arith))
  | inr e ↦ rw e (read_digits-print_digits fuel (n / 10) _ (ground arith) ∙ read_last n out)
]

-- The text begins with a digit.
abbrev pub IsDigits : String → Type 0
IsDigits [] = ⊥
IsDigits (c ∷ s) = (b'0' ≤ code c) × (code c ≤ b'9')

print_digits-IsDigits :
    (fuel n : ℕ) (out : String) → IsDigits out → IsDigits (print_digits fuel n out)
unfolding print_digits
print_digits-IsDigits zero n out h = h
print_digits-IsDigits (suc fuel) n out h = elim (Bool-cases (eqb n 0)) [
  | inl e ↦ rw e h
  | inr e ↦ rw e (print_digits-IsDigits fuel (n / 10) _ (omega (arith, code-digit_char (n % 10))))
]

nat_IsDigits : (n : ℕ) → IsDigits (print_nat n)
unfolding print_nat
nat_IsDigits n = elim (Bool-cases (eqb n 0)) [
  | inl e ↦ rw e (omega arith)
  | inr e ↦ rw e (go n (ground arith))
]
  where
    go : (k : ℕ) → k ≢ 0 → IsDigits (print_digits k k "")
    go zero ne = absurd (ne refl)
    go (suc k) ne = elim (Bool-cases (eqb (suc k) 0)) [
      | inl e ↦ absurd (ne (ground arith))
      | inr e ↦ rw e (
          print_digits-IsDigits k (suc k / 10) (digit_char (suc k % 10) ∷ "")
            (omega (arith, code-digit_char (suc k % 10))))
    ]

read_nat-digits : (s : String) → IsDigits s → read_nat s ≡ read_digits 0 s
unfolding read_nat
read_nat-digits [] h = absurd h
read_nat-digits (c ∷ s) h = refl

read_digits-print_nat : (n : ℕ) → read_digits 0 (print_nat n) ≡ some n
unfolding print_nat read_digits
read_digits-print_nat n = elim (Bool-cases (eqb n 0)) [
  | inl e ↦ rw e (ap some (ground arith))
  | inr e ↦ rw e (read_digits-print_digits n n "" (omega arith))
]

read_nat-print_nat : (n : ℕ) → read_nat (print_nat n) ≡ some n
read_nat-print_nat n = read_nat-digits (print_nat n) (nat_IsDigits n) ∙ read_digits-print_nat n

signed-digits : (s : String) → IsDigits s → signed s ≡ Option.map pos (read_nat s)
unfolding signed
signed-digits [] h = absurd h
signed-digits (c ∷ s) h = ground arith

minus-append : (s : String) → signed ("-" ++ s) ≡ Option.map negate (read_nat s)
unfolding signed
minus-append s = rw (append.cons "-" "" s) (rw append.nil)

-- `Atoi` of the text that %d prints for an int is that int.
pub atoi-print_int : (k : ℤ) → IsInt64 k → atoi (print_int k) ≡ some k
unfolding atoi print_int
atoi-print_int (pos n) h = rw (signed-digits _ (nat_IsDigits n), read_nat-print_nat) (ground arith)
atoi-print_int (negsuc n) h = rw (minus-append, read_nat-print_nat) (ground arith)

-- What `Atoi` returns is an int.
pub atoi-IsInt64 : (s : String) {k : ℤ} → atoi s ≡ some k → IsInt64 k
unfolding atoi
atoi-IsInt64 s {k} h = go (signed s) h
  where
    go : (o : Option.Option ℤ) → in_range o ≡ some k → IsInt64 k
    go none e = cc
    go (some (pos n)) e = ground arith
    go (some (negsuc n)) e = ground arith
