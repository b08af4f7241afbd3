-- ===== src/Prelude/Fmt/Reading.antt =====
-- Reading back the decimal numbers that `fmt` writes.
use llm_inference_platform.Prelude.Tests.{ltb, leb, eqb, if◌then◌else◌}
use llm_inference_platform.Prelude.Fmt.{
  value_from, AllDigits, digit_text, text_of, digits, digits-value, digits-AllDigits, sprint_nat,
  sprint_hundredths,
}
use Prim.Native.Nat.{ℕ, zero, suc, ◌+◌, ◌-◌, ◌*◌, ◌/◌, ◌%◌, ◌<◌}
use Prim.Native.Char.{Char, code}
use Prim.Native.String.{String, ◌++◌ as ◌<>◌}
use text.Mathlib.TextLemmas.{cons-append, nil-append, append_assoc}
use llm_inference_platform.Prelude.Int.{pos}
use mathlib.Core.Path.{◌≡◌, refl, ◌∙◌, ap}
use mathlib.Core.Bool.{◌&&◌}
use mathlib.Core.Option.{Option, none, some}
use mathlib.Core.List.{List, [], ◌∷◌}
use native.Mathlib.Omega.{arith}

unfoldable digit_of : Char → Option ℕ
digit_of c = if leb 48 (code c) && ltb (code c) 58 then some (code c - 48) else none

-- The number that decimal digits stand for, after those read already.
unfoldable read_digits : ℕ → String → Option ℕ
read_digits n String.[] = some n
read_digits n (String.◌∷◌ c s) = elim (digit_of c) [
  | none ↦ none
  | some d ↦ read_digits (n * 10 + d) s
]

read_digits-cons :
    (c : Char) (n : ℕ) (s : String)
    → read_digits n (String.◌∷◌ c "" <> s) ≡ read_digits n (String.◌∷◌ c s)
read_digits-cons c n s = ap (read_digits n) (cons-append c "" s ∙ ap (String.◌∷◌ c) (nil-append s))

read_digits-digit :
    (d n : ℕ) (s : String) → d < 10 → read_digits n (digit_text d <> s) ≡ read_digits (n * 10 + d) s
unfolding read_digits digit_of
read_digits-digit zero n s h = read_digits-cons "0" n s
read_digits-digit (suc zero) n s h = read_digits-cons "1" n s
read_digits-digit (suc (suc zero)) n s h = read_digits-cons "2" n s
read_digits-digit (suc (suc (suc zero))) n s h = read_digits-cons "3" n s
read_digits-digit (suc (suc (suc (suc zero)))) n s h = read_digits-cons "4" n s
read_digits-digit (suc (suc (suc (suc (suc zero))))) n s h = read_digits-cons "5" n s
read_digits-digit (suc (suc (suc (suc (suc (suc zero)))))) n s h = read_digits-cons "6" n s
read_digits-digit (suc (suc (suc (suc (suc (suc (suc zero))))))) n s h = read_digits-cons "7" n s
read_digits-digit (suc (suc (suc (suc (suc (suc (suc (suc zero)))))))) n s h =
    read_digits-cons "8" n s
read_digits-digit (suc (suc (suc (suc (suc (suc (suc (suc (suc zero))))))))) n s h =
    read_digits-cons "9" n s
read_digits-digit (suc (suc (suc (suc (suc (suc (suc (suc (suc (suc d)))))))))) n s h =
    absurd (let no : ⊥ = omega (arith, h) in no)

-- The texts of digits are read as the digits' value.
read_digits-text_of :
    (n : ℕ) (ds : List ℕ) → AllDigits ds → read_digits n (text_of ds) ≡ some (value_from n ds)
unfolding text_of value_from read_digits
read_digits-text_of n [] h = refl
read_digits-text_of n (d ∷ ds) h =
    read_digits-digit d n (text_of ds) h.0 ∙ read_digits-text_of (n * 10 + d) ds h.1

-- The number that a text of digits stands for.
unfoldable pub read_nat : String → Option ℕ
unfolding read_digits digit_of
read_nat s = read_digits 0 s

pub read_nat-sprint_nat : (n : ℕ) → read_nat (sprint_nat n) ≡ some n
unfolding read_nat sprint_nat value_from
read_nat-sprint_nat n =
    read_digits-text_of 0 (digits n n []) (digits-AllDigits n n [] (omega arith) tt)
    ∙ ap some (digits-value n n [])

-- The character of a digit.
digit_text-char :
    (d : ℕ) → d < 10 → (c : Char) × (digit_text d ≡ String.◌∷◌ c "") × (digit_of c ≡ some d)
unfolding digit_of
digit_text-char zero h = ("0", refl, refl)
digit_text-char (suc zero) h = ("1", refl, refl)
digit_text-char (suc (suc zero)) h = ("2", refl, refl)
digit_text-char (suc (suc (suc zero))) h = ("3", refl, refl)
digit_text-char (suc (suc (suc (suc zero)))) h = ("4", refl, refl)
digit_text-char (suc (suc (suc (suc (suc zero))))) h = ("5", refl, refl)
digit_text-char (suc (suc (suc (suc (suc (suc zero)))))) h = ("6", refl, refl)
digit_text-char (suc (suc (suc (suc (suc (suc (suc zero))))))) h = ("7", refl, refl)
digit_text-char (suc (suc (suc (suc (suc (suc (suc (suc zero)))))))) h = ("8", refl, refl)
digit_text-char (suc (suc (suc (suc (suc (suc (suc (suc (suc zero))))))))) h = ("9", refl, refl)
digit_text-char (suc (suc (suc (suc (suc (suc (suc (suc (suc (suc d)))))))))) h =
    absurd (let no : ⊥ = omega (arith, h) in no)

-- Two digits, and no more.
abbrev last_digit : ℕ → String → Option ℕ
last_digit n String.[] = some n
last_digit n (String.◌∷◌ _ _) = none

abbrev second_digit : ℕ → String → Option ℕ
second_digit n String.[] = none
second_digit n (String.◌∷◌ c s) = elim (digit_of c) [
  | none ↦ none
  | some d ↦ last_digit (n * 10 + d) s
]

abbrev two_more : ℕ → String → Option ℕ
two_more n String.[] = none
two_more n (String.◌∷◌ c s) = elim (digit_of c) [
  | none ↦ none
  | some d ↦ second_digit (n * 10 + d) s
]

-- A number with two digits behind a point, in hundredths.
unfoldable read_point : ℕ → String → Option ℕ
read_point n String.[] = none
read_point n (String.◌∷◌ c s) = elim (digit_of c) [
  | some d ↦ read_point (n * 10 + d) s
  | none ↦ if eqb (code c) 46 then two_more n s else none
]

read_point-digit :
    (c : Char) (d n : ℕ) (s : String)
    → digit_of c ≡ some d
    → read_point n (String.◌∷◌ c s) ≡ read_point (n * 10 + d) s
unfolding read_point
read_point-digit c d n s h = rw (h, read_point) refl

read_point-point : (n : ℕ) (s : String) → read_point n (String.◌∷◌ "." s) ≡ two_more n s
unfolding read_point digit_of
read_point-point n s = refl

two_more-digits :
    (c e : Char) (a b n : ℕ)
    → digit_of c ≡ some a
    → digit_of e ≡ some b
    → two_more n (String.◌∷◌ c (String.◌∷◌ e "")) ≡ some ((n * 10 + a) * 10 + b)
two_more-digits c e a b n ha hb = rw (two_more, ha, second_digit, hb) refl

read_point-text_of :
    (n : ℕ) (ds : List ℕ) (s : String)
    → AllDigits ds
    → read_point n (text_of ds <> s) ≡ read_point (value_from n ds) s
unfolding text_of value_from read_point
read_point-text_of n [] s h = ap (read_point n) (nil-append s)
read_point-text_of n (d ∷ ds) s h =
    let (c, shown, digit) = digit_text-char d h.0 in
    ap (read_point n) (
      append_assoc (digit_text d) (text_of ds) s
      ∙ ap (λ t. t <> (text_of ds <> s)) shown
      ∙ cons-append c "" (text_of ds <> s)
      ∙ ap (String.◌∷◌ c) (nil-append (text_of ds <> s)))
    ∙ read_point-digit c d n (text_of ds <> s) digit
    ∙ read_point-text_of (n * 10 + d) ds s h.1

read_point-two_digits :
    (n a b : ℕ)
    → a < 10
    → b < 10
    → read_point n ("." <> (digit_text a <> digit_text b)) ≡ some ((n * 10 + a) * 10 + b)
read_point-two_digits n a b ha hb =
    let (c, shown_a, digit_a) = digit_text-char a ha in
    let (d, shown_b, digit_b) = digit_text-char b hb in
    ap (read_point n) (
      cons-append "." "" (digit_text a <> digit_text b)
      ∙ ap (String.◌∷◌ ".") (
          nil-append (digit_text a <> digit_text b)
          ∙ ap (λ t. t <> digit_text b) shown_a
          ∙ cons-append c "" (digit_text b)
          ∙ ap (String.◌∷◌ c) (nil-append (digit_text b) ∙ shown_b)))
    ∙ read_point-point n (String.◌∷◌ c (String.◌∷◌ d ""))
    ∙ two_more-digits c d a b n digit_a digit_b

unfoldable pub read_hundredths : String → Option ℕ
unfolding read_point digit_of
read_hundredths s = read_point 0 s

pub read_hundredths-sprint_hundredths :
    (n : ℕ) → read_hundredths (sprint_hundredths (pos n)) ≡ some n
unfolding read_hundredths sprint_hundredths sprint_nat value_from
read_hundredths-sprint_hundredths n =
    let q = n / 100 in
    let r = n % 100 in
    read_point-text_of 0 (digits q q []) ("." <> (digit_text (r / 10) <> digit_text (r % 10)))
      (digits-AllDigits q q [] (omega arith) tt)
    ∙ ap (λ k. read_point k ("." <> (digit_text (r / 10) <> digit_text (r % 10))))
        (digits-value q q [])
    ∙ read_point-two_digits q (r / 10) (r % 10) (omega arith) (omega arith)
    ∙ ap some (omega arith)
