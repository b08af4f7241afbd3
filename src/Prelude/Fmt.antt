-- ===== src/Prelude/Fmt.antt =====
-- What the program uses of Go's `fmt`: `%d`, `fmt.Sprint` of an integer, `%q` and `%.2f`.
pub mod Reading
use llm_inference_platform.Prelude.Tests.{ltb, eqb, if◌then◌else◌}
use llm_inference_platform.Prelude.Int.{ℤ, pos, negsuc}
use Prim.Native.Nat.{ℕ, zero, suc, ◌+◌, ◌*◌, ◌/◌, ◌%◌, ◌≤◌, ◌<◌}
use Prim.Native.Char.{Char, code}
use Prim.Native.String.{String, ◌++◌ as ◌<>◌, slice}
use mathlib.Core.Path.{◌≡◌, refl}
use mathlib.Core.Bool.{Bool, ◌||◌}
use mathlib.Core.Option.{Option, none, some}
use mathlib.Core.List.{List, [], ◌∷◌}
use native.Mathlib.Omega.{arith}

-- The decimal digits of `n` before `rest`. A round of fuel is spent on each digit but the first.
digits : ℕ → ℕ → List ℕ → List ℕ
digits zero n rest = n ∷ rest
digits (suc f) n rest =
    let more = digits f (n / 10) ((n % 10) ∷ rest) in if ltb n 10 then n ∷ rest else more

value_from : ℕ → List ℕ → ℕ
value_from acc [] = acc
value_from acc (d ∷ ds) = value_from (acc * 10 + d) ds

-- Whatever the fuel, the digits stand for the number.
digits-value : (f n : ℕ) (rest : List ℕ) → value_from 0 (digits f n rest) ≡ value_from n rest
unfolding digits value_from
digits-value zero n rest = ground arith
digits-value (suc f) n rest = ground (arith, digits-value f (n / 10) ((n % 10) ∷ rest))

abbrev AllDigits : List ℕ → Type 0
AllDigits [] = Unit
AllDigits (d ∷ ds) = (d < 10) × AllDigits ds

-- Enough fuel is a number above `n`: every digit is then below ten.
digits-AllDigits : (f n : ℕ) (rest : List ℕ) → n ≤ f → AllDigits rest → AllDigits (digits f n rest)
unfolding digits
digits-AllDigits zero n rest h r = (omega arith, r)
digits-AllDigits (suc f) n rest h r = ground (arith, digits-AllDigits f (n / 10) ((n % 10) ∷ rest))

abbrev digit_text : ℕ → String
digit_text d = slice "0123456789" d (d + 1)

text_of : List ℕ → String
text_of [] = ""
text_of (d ∷ ds) = digit_text d <> text_of ds

-- `%d` and `fmt.Sprint` of an integer.
unfoldable pub sprint_nat : ℕ → String
unfolding digits text_of
sprint_nat n = text_of (digits n n [])

unfoldable pub sprint : ℤ → String
unfolding sprint_nat
sprint (pos n) = sprint_nat n
sprint (negsuc n) = "-" <> sprint_nat (suc n)

abbrev two_digits : ℕ → String
two_digits n = digit_text (n / 10) <> digit_text (n % 10)

-- `fmt.Sprintf("%.2f", float64(p)/100.0)`. For an `int32` the quotient is exact to far more than two
-- places, so that the text shows the number's last two digits behind the point.
unfoldable pub sprint_hundredths : ℤ → String
unfolding sprint_nat
sprint_hundredths (pos n) = sprint_nat (n / 100) <> "." <> two_digits (n % 100)
sprint_hundredths (negsuc n) = "-" <> sprint_nat (suc n / 100) <> "." <> two_digits (suc n % 100)

abbrev hex_digit : ℕ → String
hex_digit d = slice "0123456789abcdef" d (d + 1)

-- The escapes of `%q` with a letter of their own.
named_escape : ℕ → Option String
named_escape n =
    if eqb n 0x22
    then some "\\\""
    else if eqb n 0x5c
    then some "\\\\"
    else if eqb n 7
    then some "\\a"
    else if eqb n 8
    then some "\\b"
    else if eqb n 9
    then some "\\t"
    else if eqb n 10
    then some "\\n"
    else if eqb n 11
    then some "\\v"
    else if eqb n 12
    then some "\\f"
    else if eqb n 13
    then some "\\r"
    else none

is_control : ℕ → Bool
is_control n = ltb n 0x20 || eqb n 0x7f

-- One character under `%q`. Outside ASCII a character stands for itself, as the printable ones do;
-- the texts that the program quotes, names and quantities, are ASCII.
quote_char : Char → String
unfolding named_escape is_control
quote_char c = elim (named_escape (code c)) [
  | some escape ↦ escape
  | none ↦
      if is_control (code c)
      then "\\x" <> hex_digit (code c / 16) <> hex_digit (code c % 16)
      else String.◌∷◌ c ""
]

quote_body : String → String
quote_body String.[] = ""
quote_body (String.◌∷◌ c s) = quote_char c <> quote_body s

-- `%q`
unfoldable pub quote : String → String
unfolding quote_body quote_char
quote s = "\"" <> quote_body s <> "\""

sprint_example : sprint (pos 8000) ≡ "8000"
unfolding sprint
sprint_example = refl

sprint_negative : sprint (negsuc 41) ≡ "-42"
unfolding sprint
sprint_negative = refl

sprint_hundredths_example :
    (sprint_hundredths (pos 85) ≡ "0.85")
    × (sprint_hundredths (pos 5) ≡ "0.05")
    × (sprint_hundredths (pos 100) ≡ "1.00")
unfolding sprint_hundredths
sprint_hundredths_example = (refl, refl, refl)

quote_example : quote "a\"b" ≡ "\"a\\\"b\""
unfolding quote
quote_example = refl
