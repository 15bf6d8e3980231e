-- ===== src/Retention.antt =====
-- internal/retention/parse.go. A duration is in nanoseconds, as the 64-bit two's complement that
-- Go's product of int64 values has: a product of 2^63 or more wraps around.
pub mod Days
use Prim.Native.Char.{Char, code}
use Prim.Native.String.{String, [], ◌∷◌}
use rca_operator.Base.{ℕ, ◌*◌, ◌%◌, ◌^◌, ltb, nat_eq, Option, none, some, if◌then◌else◌, ◌==◌, not}
use rca_operator.Base.Decimal.{Parsed, bad, negative, natural, atoi}
use rca_operator.Base.Texts.{trim_space}

abbrev pub minute : ℕ
minute = 60000000000

abbrev pub hour : ℕ
hour = 3600000000000

abbrev pub day : ℕ
day = 86400000000000

-- time.Duration(value) * unit
abbrev pub times : ℕ → ℕ → ℕ
times value unit = (value * unit) % 2 ^ 64

-- the text without its last character, and that character
unfoldable pub split_last : String → Option (String × Char)
split_last [] = none
split_last (c ∷ s) = elim (split_last s) [
  | none ↦ some ([], c)
  | some (front, last) ↦ some (c ∷ front, last)
]

-- the switch over the unit
abbrev pub in_unit : Char → ℕ → Option ℕ
in_unit unit value =
    if nat_eq (code unit) b'm'
    then some (times value minute)
    else if nat_eq (code unit) b'h'
    then some (times value hour)
    else if nat_eq (code unit) b'd'
    then some (times value day)
    else none

abbrev pub positive : Parsed → Option ℕ
positive bad = none
positive (negative n) = none
positive (natural n) = if nat_eq n 0 then none else some n

-- the value and its unit, where the value is a positive number
unfoldable pub parse_value : String → Char → Option ℕ
parse_value num unit = elim (positive (atoi num)) [ none ↦ none | some value ↦ in_unit unit value ]

-- parseRetentionDuration: a text of one character has no number in front
unfoldable pub parse_retention_duration : String → Option ℕ
parse_retention_duration text = elim (split_last text) [
  | none ↦ none
  | some (num, unit) ↦ if num == [] then none else parse_value num unit
]

-- the days of the deprecated field: a negative number counts as 0
unfoldable pub parse_incident_retention : String → ℕ → Option ℕ
parse_incident_retention text days =
    let trimmed = trim_space text in
    if not (trimmed == [])
    then parse_retention_duration trimmed
    else if ltb 0 days
    then some (times days day)
    else some (30 * day)
