-- ===== src/Reporter/Text.antt =====
-- The small functions on texts of internal/reporter/cr_reporter.go. The texts that the label
-- functions return are ASCII, so that Go's byte length is the number of characters.
use Prim.Native.Char.{Char, code}
use Prim.Native.String.{String, [], ◌∷◌}
use rca_operator.Base.{ℕ, zero, suc, ◌+◌, Bool, ◌&&◌, ◌||◌, ltb, leb, nat_eq, if◌then◌else◌, ◌==◌}
use rca_operator.Base.Texts.{to_lower, trim_left, trim_right}
use rca_operator.Base.Decimal.{Parsed, bad, negative, natural, atoi, itoa, max_int}

-- `strconv.Itoa(n + 1)`: at the largest int the sum wraps around
abbrev next_count : Parsed → String
next_count bad = "1"
next_count (negative n) = "1"
next_count (natural n) = if nat_eq n max_int then "-9223372036854775808" else itoa (n + 1)

unfoldable pub increment_counter : String → String
unfolding atoi itoa
increment_counter current = if current == "" then "1" else next_count (atoi current)

-- the map literal `rank`, 0 for a missing key
unfoldable pub rank : String → ℕ
rank s =
    if s == "P1"
    then 4
    else if s == "P2"
    then 3
    else if s == "P3"
    then 2
    else if s == "P4"
    then 1
    else 0

unfoldable pub higher_severity : String → String → String
unfolding rank
higher_severity current incoming =
    if ltb (rank current) (rank incoming)
    then incoming
    else if current == ""
    then incoming
    else current

abbrev pub is_lower : Char → Bool
is_lower c = leb b'a' (code c) && leb (code c) b'z'

abbrev pub is_decimal : Char → Bool
is_decimal c = leb b'0' (code c) && leb (code c) b'9'

-- a letter, a digit, `-`, `.` or `_`
abbrev pub is_label_char : Char → Bool
is_label_char c =
    is_lower c
    || (is_decimal c || (nat_eq (code c) b'-' || (nat_eq (code c) b'.' || nat_eq (code c) b'_')))

-- a letter, a digit or `-`
abbrev pub is_name_char : Char → Bool
is_name_char c = is_lower c || (is_decimal c || nat_eq (code c) b'-')

-- the loop over the runes: what does not pass becomes `-`
unfoldable pub replace_others : (Char → Bool) → String → String
replace_others keep [] = []
replace_others keep (c ∷ s) = (if keep c then c else "-") ∷ replace_others keep s

-- the cut sets "-._" and "-" of strings.Trim
abbrev pub is_label_cut : Char → Bool
is_label_cut c = nat_eq (code c) b'-' || (nat_eq (code c) b'.' || nat_eq (code c) b'_')

abbrev pub is_name_cut : Char → Bool
is_name_cut c = nat_eq (code c) b'-'

unfoldable pub take_chars : ℕ → String → String
take_chars zero s = []
take_chars (suc n) [] = []
take_chars (suc n) (c ∷ s) = c ∷ take_chars n s

abbrev pub size : String → ℕ
size [] = 0
size (c ∷ s) = suc (size s)

unfoldable pub safe_label_value : String → String
unfolding to_lower replace_others trim_left trim_right take_chars
safe_label_value in_text =
    let out =
      trim_right is_label_cut
        (trim_left is_label_cut (replace_others is_label_char (to_lower in_text))) in
    if in_text == ""
    then "unknown"
    else if out == ""
    then "unknown"
    else if ltb 63 (size out)
    then take_chars 63 out
    else out

unfoldable pub safe_name_token : String → String
unfolding to_lower replace_others trim_left trim_right
safe_name_token in_text =
    let out =
      trim_right is_name_cut
        (trim_left is_name_cut (replace_others is_name_char (to_lower in_text))) in
    if in_text == "" then "incident" else if out == "" then "incident" else out
