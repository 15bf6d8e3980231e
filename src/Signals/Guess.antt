-- ===== src/Signals/Guess.antt =====
-- GuessDeploymentNameFromPod of internal/signals/normalizer.go.
pub mod Names
use Prim.Native.Char.{Char, code}
use Prim.Native.String.{String, [], ◌∷◌}
use mathlib.Core.List.{reverse}
use rca_operator.Base.{ℕ, Bool, true, false, ◌&&◌, ◌||◌, List, ltb, nat_eq, if◌then◌else◌}
use rca_operator.Base.Join.{join}
use rca_operator.Base.Split.{split}
use rca_operator.Base.Texts.{trim_space}
use rca_operator.Reporter.Text.{size, is_lower, is_decimal}

abbrev pub hash_chars : String → Bool
hash_chars [] = true
hash_chars (c ∷ s) = (is_lower c || is_decimal c) && hash_chars s

unfoldable pub looks_like_replica_set_hash : String → Bool
looks_like_replica_set_hash token =
    if ltb (size token) 8 || ltb 10 (size token) then false else hash_chars token

-- `len(parts) >= 3 && looksLikeReplicaSetHash(parts[len(parts)-2])`, the parts in front of it given
abbrev pub has_hash : String → List String → Bool
has_hash token List.[] = false
has_hash token (List.◌∷◌ x xs) = looks_like_replica_set_hash token

-- the parts of the name, the last one first
unfoldable pub guess_from : List String → String
unfolding looks_like_replica_set_hash
guess_from List.[] = ""
guess_from (List.◌∷◌ last List.[]) = ""
guess_from (List.◌∷◌ last (List.◌∷◌ token front)) =
    if nat_eq (size last) 5
    then (if has_hash token front
        then join "-" (reverse front)
        else join "-" (reverse (List.◌∷◌ token front)))
    else ""

unfoldable pub guess_deployment_name_from_pod : String → String
unfolding guess_from
guess_deployment_name_from_pod pod_name = guess_from (reverse (split "-" (trim_space pod_name)))
