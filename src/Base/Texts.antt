-- ===== src/Base/Texts.antt =====
-- Go's strings and the functions of package strings that the program calls, by recursion over the
-- characters. Letters outside ASCII have no case here; `<` on Go strings compares bytes, which for
-- UTF-8 is the order of the code points.
use Prim.Native.Nat.{ℕ, ◌-◌}
use Prim.Native.Char.{Char, code}
use Prim.Native.String.{String, [], ◌∷◌}
use mathlib.Core.Path.{◌≡◌, refl}
use mathlib.Core.Bool.{Bool, true, false, ◌&&◌, ◌||◌}
use native.Mathlib.Omega.{arith}
use rca_operator.Base.Tests.{ltb, leb, nat_eq, if◌then◌else◌}
use text.Mathlib.TextEquality.{Char-path}

abbrev pub char_eq : Char → Char → Bool
char_eq c d = nat_eq (code c) (code d)

-- s < t
unfoldable pub str_lt : String → String → Bool
str_lt [] [] = false
str_lt [] (c ∷ t) = true
str_lt (c ∷ s) [] = false
str_lt (c ∷ s) (d ∷ t) =
    let rest = str_lt s t in
    if ltb (code c) (code d) then true else if ltb (code d) (code c) then false else rest

pub str_lt_irrefl : (s : String) → str_lt s s ≡ false
unfolding str_lt
str_lt_irrefl [] = refl
str_lt_irrefl (c ∷ s) = ground (arith, str_lt_irrefl s)

-- Not being smaller is transitive.
pub str_lt_weak : (r s t : String) → str_lt s r ≡ false → str_lt t s ≡ false → str_lt t r ≡ false
unfolding str_lt
str_lt_weak [] [] [] h k = refl
str_lt_weak [] [] (e ∷ t) h k = refl
str_lt_weak [] (d ∷ s) [] h k = cc
str_lt_weak [] (d ∷ s) (e ∷ t) h k = refl
str_lt_weak (c ∷ r) [] [] h k = cc
str_lt_weak (c ∷ r) [] (e ∷ t) h k = cc
str_lt_weak (c ∷ r) (d ∷ s) [] h k = cc
str_lt_weak (c ∷ r) (d ∷ s) (e ∷ t) h k = ground (arith, str_lt_weak r s t)

pub str_lt_asym : (s t : String) → str_lt s t ≡ true → str_lt t s ≡ false
unfolding str_lt
str_lt_asym [] [] h = refl
str_lt_asym [] (d ∷ t) h = refl
str_lt_asym (c ∷ s) [] h = cc
str_lt_asym (c ∷ s) (d ∷ t) h = ground (arith, str_lt_asym s t)

-- Two strings of which neither is smaller are one.
pub str_lt_total : (s t : String) → str_lt s t ≡ false → str_lt t s ≡ false → s ≡ t
unfolding str_lt
str_lt_total [] [] h k = refl
str_lt_total [] (d ∷ t) h k = cc
str_lt_total (c ∷ s) [] h k = cc
str_lt_total (c ∷ s) (d ∷ t) h k = ground (arith, str_lt_total s t, Char-path c d)

-- strings.HasPrefix(s, p)
unfoldable pub has_prefix : String → String → Bool
has_prefix s [] = true
has_prefix [] (d ∷ p) = false
has_prefix (c ∷ s) (d ∷ p) = char_eq c d && has_prefix s p

-- strings.Contains(s, t)
unfoldable pub contains : String → String → Bool
unfolding has_prefix
contains [] t = has_prefix [] t
contains (c ∷ s) t = has_prefix (c ∷ s) t || contains s t

-- The character at an index of a text, or `c` past its end.
unfoldable pub char_or : String → ℕ → Char → Char
char_or [] i c = c
char_or (d ∷ s) ℕ.zero c = d
char_or (d ∷ s) (ℕ.suc i) c = char_or s i c

unfoldable pub lower_char : Char → Char
unfolding char_or
lower_char c =
    if leb b'A' (code c) && leb (code c) b'Z'
    then char_or "abcdefghijklmnopqrstuvwxyz" (code c - b'A') c
    else c

-- strings.ToLower(s)
unfoldable pub to_lower : String → String
unfolding lower_char
to_lower [] = []
to_lower (c ∷ s) = lower_char c ∷ to_lower s

unfoldable pub upper_char : Char → Char
unfolding char_or
upper_char c =
    if leb b'a' (code c) && leb (code c) b'z'
    then char_or "ABCDEFGHIJKLMNOPQRSTUVWXYZ" (code c - b'a') c
    else c

-- strings.ToUpper(s)
unfoldable pub to_upper : String → String
unfolding upper_char
to_upper [] = []
to_upper (c ∷ s) = upper_char c ∷ to_upper s

-- the white space of strings.TrimSpace, in ASCII
abbrev pub is_space : Char → Bool
is_space c = nat_eq (code c) 32 || (leb 9 (code c) && leb (code c) 13)

unfoldable pub trim_left : (Char → Bool) → String → String
trim_left cut [] = []
trim_left cut (c ∷ s) = let rest = trim_left cut s in if cut c then rest else c ∷ s

unfoldable pub trim_last : Bool → Char → String → String
trim_last true d [] = []
trim_last false d [] = d ∷ []
trim_last b d (e ∷ t) = d ∷ e ∷ t

unfoldable pub trim_right : (Char → Bool) → String → String
unfolding trim_last
trim_right cut [] = []
trim_right cut (c ∷ s) = trim_last (cut c) c (trim_right cut s)

-- strings.TrimSpace(s)
unfoldable pub trim_space : String → String
unfolding trim_left trim_right
trim_space s = trim_right is_space (trim_left is_space s)
