-- ===== src/Retention/Days.antt =====
-- A number of days that is written in decimal is read as that many days.
use Prim.Native.Char.{Char}
use Prim.Native.String.{String, [], ◌∷◌, ◌++◌}
use rca_operator.Base.{ℕ, ◌*◌, ◌%◌, ◌^◌, ◌<◌, ◌≤◌, ◌≡◌, refl, some, arith}
use rca_operator.Base.Decimal.{itoa, atoi-itoa, max_int}
use rca_operator.Retention.{day, split_last, parse_value, parse_retention_duration}
use rca_operator.Reporter.Bounds.{itoa_nonempty}
use text.Mathlib.TextLemmas.{nil-append, cons-append}

split_last-append : (s : String) (c : Char) → split_last (s ++ c ∷ []) ≡ some (s, c)
unfolding split_last
split_last-append [] c = rw nil-append refl
split_last-append (d ∷ s) c = rw (cons-append, split_last, split_last-append s c) refl

-- A positive number of days below 2^63 nanoseconds is read back exactly.
pub parse_retention_duration-itoa :
    (n : ℕ) → 0 < n → n * day < 2 ^ 63 → parse_retention_duration (itoa n ++ "d") ≡ some (n * day)
unfolding parse_retention_duration parse_value
parse_retention_duration-itoa n some_days fits =
    let small : n ≤ max_int = omega arith in
    let exact : (n * day) % 2 ^ 64 ≡ n * day = omega arith in
    rw
      (
        parse_retention_duration,
        split_last-append (itoa n) "d",
        itoa_nonempty n small,
        parse_value,
        atoi-itoa n small,
      )
      (ground (arith, exact, some_days))
