-- ===== src/Examples/Streams.antt =====
-- The emitter, the deduplicator and the retention period at concrete inputs.
use Prim.Native.String.{String, ◌++◌}
use rca_operator.Base.{ℕ, ◌*◌, ◌≡◌, List, [], ◌∷◌, some, arith}
use rca_operator.Base.Decimal.{itoa}
use rca_operator.Examples.Data.{oom, span_error}
use rca_operator.Retention.{day, parse_retention_duration}
use rca_operator.Retention.Days.{parse_retention_duration-itoa}
use rca_operator.Signals.Deduplicator.{new_deduplicator}
use rca_operator.Signals.Deduplicator.Answers.{answers, expected, is_duplicate-expected}
use rca_operator.Watcher.Emitter.{Emitter, new_emitter}
use rca_operator.Watcher.Event.{Event}

-- a window of 10 and room for one signal
abbrev emitter : Emitter
emitter = new_emitter 10 1

abbrev stream : List (ℕ × Event)
stream = (1, oom) ∷ (4, oom) ∷ (5, span_error) ∷ (11, oom) ∷ []

abbrev calls : List (ℕ × String)
calls = (1, "pod-a") ∷ (4, "pod-a") ∷ (5, "pod-b") ∷ (11, "pod-a") ∷ []

is_duplicate-expected_example : answers (new_deduplicator 10) calls ≡ expected 10 [] calls
is_duplicate-expected_example =
    is_duplicate-expected 10 0 calls (omega arith, (omega arith, (omega arith, (omega arith, tt))))

parse_retention_duration-itoa_example : parse_retention_duration (itoa 30 ++ "d") ≡ some (30 * day)
parse_retention_duration-itoa_example = parse_retention_duration-itoa 30 (omega arith) (omega arith)
