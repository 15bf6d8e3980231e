-- ===== src/Reporter/TraceIds.antt =====
-- The list of trace ids in an annotation: mergeTraceIDList and parseTraceIDCSV of
-- internal/reporter/cr_reporter.go.
use Prim.Native.Char.{Char, code}
use Prim.Native.String.{String}
use rca_operator.Base.{
  ℕ, Bool, ◌||◌, List, [], ◌∷◌, ◌++◌, any_by, keep_last, nat_eq, if◌then◌else◌, ◌==◌,
}
use rca_operator.Base.Texts.{trim_space}
use rca_operator.Base.Join.{join}

abbrev pub max_trace_id_entries : ℕ
max_trace_id_entries = 20

-- the separators of strings.FieldsFunc
abbrev pub is_separator : Char → Bool
is_separator c =
    nat_eq (code c) b','
    || (nat_eq (code c) 10 || (nat_eq (code c) 13 || (nat_eq (code c) 9 || nat_eq (code c) 32)))

-- a character in front of the first field
abbrev push_char : Char → List String → List String
push_char c [] = String.◌∷◌ c String.[] ∷ []
push_char c (f ∷ fs) = String.◌∷◌ c f ∷ fs

abbrev end_field : List String → List String
end_field [] = []
end_field (f ∷ fs) = if f == "" then f ∷ fs else "" ∷ f ∷ fs

-- Fields, the first of which is the one that the text begins with ("" at a separator).
unfoldable pub split_fields : String → List String
split_fields String.[] = "" ∷ []
split_fields (String.◌∷◌ c s) =
    let rest = split_fields s in if is_separator c then end_field rest else push_char c rest

abbrev drop_empty : List String → List String
drop_empty [] = []
drop_empty (f ∷ fs) = let rest = drop_empty fs in if f == "" then rest else f ∷ rest

-- strings.FieldsFunc: the runs of characters between separators, none of them empty
unfoldable pub fields : String → List String
unfolding split_fields
fields s = drop_empty (split_fields s)

unfoldable pub has_text : String → List String → Bool
has_text t xs = any_by (λ x. x == t) xs

-- the loop of parseTraceIDCSV; `out` holds what `seen` does
unfoldable pub unique_ids : List String → List String → List String
unfolding has_text
unique_ids out [] = out
unique_ids out (p ∷ ps) =
    let id = trim_space p in
    unique_ids (if (id == "") || has_text id out then out else out ++ id ∷ []) ps

unfoldable pub parse_trace_id_csv : String → List String
parse_trace_id_csv csv = if trim_space csv == "" then [] else unique_ids [] (fields csv)

unfoldable pub add_trace_id : List String → String → List String
add_trace_id existing incoming =
    keep_last max_trace_id_entries
      (if has_text incoming existing then existing else existing ++ incoming ∷ [])

unfoldable pub merge_trace_id_list : String → String → String
merge_trace_id_list existing_csv incoming =
    let id = trim_space incoming in
    if id == ""
    then trim_space existing_csv
    else join "," (add_trace_id (parse_trace_id_csv existing_csv) id)
