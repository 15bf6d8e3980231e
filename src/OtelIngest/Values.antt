-- ===== src/OtelIngest/Values.antt =====
-- The conversions of internal/otelingest/translator.go and redact.go. A message of the protocol is a
-- data type here; a nil entry of a list of pairs is one with an empty key, which is skipped alike. A
-- double is the number of its bits. The text of a double, SHA-256 and the regular expressions of the
-- redaction are parameters.
use Prim.Native.Char.{Char}
use Prim.Native.String.{◌++◌, ◌∷◌ as ◌before◌}
use rca_operator.Base.{
  ℕ, ◌/◌, ◌%◌, not, String, Bool, true, false, Option, none, some, List, [], ◌∷◌, leb, nat_eq, take,
  if◌then◌else◌, ◌==◌, ◌||◌,
}
use rca_operator.Base.Decimal.{itoa}
use rca_operator.Base.Join.{join}
use rca_operator.Base.Maps.{Map, put}
use rca_operator.Base.Texts.{to_upper, trim_space, char_or}

-- commonpb.AnyValue with its lists; an integer is a sign and a magnitude
mutual
  pub data AnyValue : Type 0 where
    unset : AnyValue
    string_value : String → AnyValue
    bool_value : Bool → AnyValue
    int_value : Bool → ℕ → AnyValue
    double_value : ℕ → AnyValue
    bytes_value : List ℕ → AnyValue
    array_value : Values → AnyValue
    kvlist_value : KeyValues → AnyValue

  pub data Values : Type 0 where
    no_values : Values
    value_then : AnyValue → Values → Values

  pub data KeyValues : Type 0 where
    no_pairs : KeyValues
    pair_then : String → AnyValue → KeyValues → KeyValues

pub record IngestStd : Type 1 where
  pub format_float : ℕ → String
  pub sha256 : String → List ℕ
  pub Pattern : Type 0
  pub compile : String → Option Pattern
  pub replace_all : Pattern → String → String → String

unfoldable pub hex_digit : ℕ → Char
unfolding char_or
hex_digit n = char_or "0123456789abcdef" n "0"

-- hex.EncodeToString
unfoldable pub hex_bytes : List ℕ → String
unfolding hex_digit
hex_bytes [] = ""
hex_bytes (b ∷ bs) = hex_digit (b / 16) before (hex_digit (b % 16) before hex_bytes bs)

-- parts of a map, in its order: `k + "=" + v`
unfoldable pub pair_texts : Map String → List String
pair_texts [] = []
pair_texts ((k, v) ∷ m) = (k ++ "=" ++ v) ∷ pair_texts m

unfoldable pub format_int : Bool → ℕ → String
format_int true n = "-" ++ itoa n
format_int false n = itoa n

-- strconv.FormatBool
unfoldable pub format_bool : Bool → String
format_bool b = if b then "true" else "false"

module _ (std : IngestStd) where
  -- keyValuesToMap is put_pairs on an empty map
  unfoldable mutual
    pub any_value_to_string : AnyValue → String
    any_value_to_string unset = ""
    any_value_to_string (string_value s) = s
    any_value_to_string (bool_value b) = format_bool b
    any_value_to_string (int_value sign n) = format_int sign n
    any_value_to_string (double_value d) = std.format_float d
    any_value_to_string (bytes_value bs) = hex_bytes bs
    any_value_to_string (array_value vs) = "[" ++ join "," (value_texts vs) ++ "]"
    any_value_to_string (kvlist_value kvs) = "{" ++ join "," (pair_texts (put_pairs kvs [])) ++ "}"

    pub value_texts : Values → List String
    value_texts no_values = []
    value_texts (value_then v vs) = any_value_to_string v ∷ value_texts vs

    pub put_pairs : KeyValues → Map String → Map String
    put_pairs no_pairs out = out
    put_pairs (pair_then k v kvs) out =
        let text = any_value_to_string v in put_pairs kvs (if k == "" then out else put k text out)

  unfoldable pub key_values_to_map : KeyValues → Map String
  key_values_to_map kvs = put_pairs kvs []

  -- r.GetAttributes() of a resource that may be nil
  unfoldable pub resource_attrs : Option KeyValues → Map String
  resource_attrs none = []
  resource_attrs (some kvs) = key_values_to_map kvs

  -- the patterns without the nil ones
  unfoldable pub redact_each : String → List std.Pattern → String
  redact_each out [] = out
  redact_each out (re ∷ res) = redact_each (std.replace_all re out "[REDACTED]") res

  unfoldable pub redact : String → List std.Pattern → String
  redact s patterns = let out = redact_each s patterns in if s == "" then s else out

  unfoldable pub body_hash : String → String
  body_hash body = hex_bytes (take 8 (std.sha256 body))

pub data SpanKind : Type 0 where
  unspecified internal server client producer consumer : SpanKind

pub data StatusCode : Type 0 where
  code_unset code_ok code_error : StatusCode

unfoldable pub span_kind_text : SpanKind → String
span_kind_text client = "CLIENT"
span_kind_text server = "SERVER"
span_kind_text internal = "INTERNAL"
span_kind_text producer = "PRODUCER"
span_kind_text consumer = "CONSUMER"
span_kind_text unspecified = "UNSPECIFIED"

pub record Status : Type 0 where
  pub code : StatusCode
  pub message : String

unfoldable pub status_code_text : Option Status → String
status_code_text none = "STATUS_CODE_UNSET"
status_code_text (some s) = elim s.code [
  | code_ok ↦ "STATUS_CODE_OK"
  | code_error ↦ "STATUS_CODE_ERROR"
  | code_unset ↦ "STATUS_CODE_UNSET"
]

unfoldable pub status_message : Option Status → String
status_message none = ""
status_message (some s) = s.message

-- the switch of severityNumberForText
unfoldable pub severity_number : String → ℕ
severity_number text =
    if text == "TRACE"
    then 1
    else if text == "DEBUG"
    then 5
    else if text == "INFO"
    then 9
    else if (text == "WARN") || (text == "WARNING")
    then 13
    else if text == "ERROR"
    then 17
    else if text == "FATAL"
    then 21
    else 0

unfoldable pub severity_number_for_text : String → ℕ
severity_number_for_text text = severity_number (to_upper (trim_space text))

unfoldable pub severity_text_from_number : ℕ → String → String
severity_text_from_number num given =
    if not (given == "")
    then given
    else if leb 21 num
    then "FATAL"
    else if leb 17 num
    then "ERROR"
    else if leb 13 num
    then "WARN"
    else if leb 9 num
    then "INFO"
    else if leb 5 num
    then "DEBUG"
    else if leb 1 num
    then "TRACE"
    else ""

unfoldable pub unix_nano_to_time : ℕ → ℕ → ℕ
unix_nano_to_time ns fallback = if nat_eq ns 0 then fallback else ns
