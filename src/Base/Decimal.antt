-- ===== src/Base/Decimal.antt =====
-- strconv.Itoa and strconv.Atoi. An `int` has 64 bits.
use Prim.Native.Nat.{ℕ, zero, suc, ◌+◌, ◌*◌, ◌-◌, ◌/◌, ◌%◌, ◌^◌, ◌<◌, ◌≤◌}
use Prim.Native.Char.{Char, code}
use Prim.Native.String.{String, [], ◌∷◌}
use mathlib.Core.Path.{◌≡◌, refl, ap, sym, ◌∙◌}
use mathlib.Core.Logic.{inl, inr}
use mathlib.Core.Bool.{Bool, true, false, ◌&&◌}
use mathlib.Core.Option.{Option, none, some}
use native.Mathlib.Omega.{arith}
use rca_operator.Base.Tests.{ltb, leb, nat_eq, if◌then◌else◌, Bool-cases, ltb→ge, ltb→lt}

abbrev pub max_int : ℕ
max_int = 2 ^ 63 - 1

-- the character of a digit
digit : ℕ → Char
digit zero = "0"
digit (suc zero) = "1"
digit (suc (suc zero)) = "2"
digit (suc (suc (suc zero))) = "3"
digit (suc (suc (suc (suc zero)))) = "4"
digit (suc (suc (suc (suc (suc zero))))) = "5"
digit (suc (suc (suc (suc (suc (suc zero)))))) = "6"
digit (suc (suc (suc (suc (suc (suc (suc zero))))))) = "7"
digit (suc (suc (suc (suc (suc (suc (suc (suc zero)))))))) = "8"
digit (suc (suc (suc (suc (suc (suc (suc (suc (suc n))))))))) = "9"

code-digit : (n : ℕ) → n < 10 → code (digit n) ≡ 48 + n
unfolding digit
code-digit zero h = refl
code-digit (suc zero) h = refl
code-digit (suc (suc zero)) h = refl
code-digit (suc (suc (suc zero))) h = refl
code-digit (suc (suc (suc (suc zero)))) h = refl
code-digit (suc (suc (suc (suc (suc zero))))) h = refl
code-digit (suc (suc (suc (suc (suc (suc zero)))))) h = refl
code-digit (suc (suc (suc (suc (suc (suc (suc zero))))))) h = refl
code-digit (suc (suc (suc (suc (suc (suc (suc (suc zero)))))))) h = refl
code-digit (suc (suc (suc (suc (suc (suc (suc (suc (suc n))))))))) h = omega arith

-- The digits of `n` in front of `rest`; the fuel is more than the number.
show : ℕ → ℕ → String → String
unfolding digit
show zero n rest = rest
show (suc fuel) n rest =
    let more = show fuel (n / 10) (digit (n % 10) ∷ rest) in
    if ltb n 10 then digit n ∷ rest else more

unfoldable pub itoa : ℕ → String
unfolding show
itoa n = show (suc n) n ""

abbrev pub is_digit : Char → Bool
is_digit c = leb 48 (code c) && leb (code c) 57

-- The value of a run of digits behind `acc`.
unfoldable pub digits_from : ℕ → String → Option ℕ
digits_from acc [] = some acc
digits_from acc (c ∷ s) =
    let rest = digits_from (acc * 10 + (code c - 48)) s in if is_digit c then rest else none

-- What Atoi returns that the program looks at: an error, a value that is negative, or another.
pub data Parsed : Type 0 where
  bad : Parsed
  negative : ℕ → Parsed
  natural : ℕ → Parsed

abbrev in_range : ℕ → (ℕ → Parsed) → Option ℕ → Parsed
in_range limit make none = bad
in_range limit make (some n) = if leb n limit then make n else bad

abbrev signed : Bool → Option ℕ → Parsed
signed true o = in_range (max_int + 1) (λ n. if nat_eq n 0 then natural 0 else negative n) o
signed false o = in_range max_int natural o

-- a sign is followed by at least one digit
abbrev digits_of : String → Option ℕ
digits_of [] = none
digits_of (c ∷ s) = digits_from 0 (c ∷ s)

unfoldable pub atoi : String → Parsed
unfolding digits_from
atoi [] = bad
atoi (c ∷ s) =
    if nat_eq (code c) b'-'
    then signed true (digits_of s)
    else if nat_eq (code c) b'+'
    then signed false (digits_of s)
    else signed false (digits_from 0 (c ∷ s))

digits_from-digit :
    (acc d : ℕ) (s : String) → d < 10 → digits_from acc (digit d ∷ s) ≡ digits_from (acc * 10 + d) s
unfolding digits_from
digits_from-digit acc d s h =
    let e = code-digit d h in
    let f : code (digit d) - 48 ≡ d = omega (arith, e) in ground (arith, e, f)

digits_from-show :
    (fuel n : ℕ) (rest : String) → n < fuel → digits_from 0 (show fuel n rest) ≡ digits_from n rest
unfolding show
digits_from-show zero n rest h = elim h [ ]
digits_from-show (suc fuel) n rest h = elim (Bool-cases (ltb n 10)) [
  | inl small ↦
      rw small (
        digits_from-digit 0 n rest (ltb→lt n 10 small) ∙ ap (λ m. digits_from m rest) (omega arith))
  | inr large ↦ rw large (
      digits_from-show fuel (n / 10) (digit (n % 10) ∷ rest) (omega (arith, ltb→ge n 10 large))
      ∙ digits_from-digit (n / 10) (n % 10) rest (omega arith)
      ∙ ap (λ m. digits_from m rest) (omega arith))
]

digit-is_digit : (n : ℕ) → n < 10 → is_digit (digit n) ≡ true
digit-is_digit n h = ground (arith, code-digit n h)

show_first :
    (fuel n : ℕ) (rest : String)
    → n < fuel
    → (c : Char) × (s : String) × (show fuel n rest ≡ c ∷ s) × (is_digit c ≡ true)
unfolding show
show_first zero n rest h = elim h [ ]
show_first (suc fuel) n rest h = elim (Bool-cases (ltb n 10)) [
  | inl small ↦ (digit n, rest, rw small, digit-is_digit n (ltb→lt n 10 small))
  | inr large ↦
      let (c, s, e, d) =
        show_first fuel (n / 10) (digit (n % 10) ∷ rest) (omega (arith, ltb→ge n 10 large)) in
      (c, s, rw large e, d)
]

unsigned :
    (c : Char) (s : String)
    → is_digit c ≡ true
    → atoi (c ∷ s) ≡ signed false (digits_from 0 (c ∷ s))
unfolding atoi
unsigned c s h = ground (arith, h)

-- A number that fits an `int` survives printing and parsing.
pub atoi-itoa : (n : ℕ) → n ≤ max_int → atoi (itoa n) ≡ natural n
unfolding itoa
atoi-itoa n h =
    let (c, s, e, d) = show_first (suc n) n "" (omega arith) in
    let parsed : digits_from 0 (show (suc n) n "") ≡ some n =
      digits_from-show (suc n) n "" (omega arith) ∙ (unfold digits_from in refl) in
    ap atoi e
    ∙ unsigned c s d
    ∙ ap (λ t. signed false (digits_from 0 t)) (sym e)
    ∙ ap (signed false) parsed
    ∙ fits
  where
    fits : signed false (some n) ≡ natural n
    fits = ground arith
