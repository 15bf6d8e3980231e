-- ===== src/Signals/Summary.antt =====
-- The summaries of internal/signals/normalizer.go: truncateBody, stripEmptyKV and buildSummary. The
-- two regular expressions are written out as scans. Bytes are characters: a body of other characters
-- than ASCII is cut by characters here.
pub mod Stable
use Prim.Native.Char.{Char, code}
use Prim.Native.String.{String, [], ◌∷◌, ◌++◌}
use rca_operator.Base.{
  ℕ, zero, suc, ◌||◌, ◌&&◌, not, Bool, true, false, Option, none, some, leb, nat_eq, if◌then◌else◌,
  ◌==◌,
}
use rca_operator.Base.Decimal.{itoa}
use rca_operator.Base.Texts.{trim_space}
use rca_operator.Reporter.Text.{size, take_chars}
use rca_operator.Watcher.Event.{
  Event, crash_loop_back_off, oom_killed, image_pull_back_off, pod_pending_too_long,
  grace_period_violation, pod_healthy, pod_deleted, node_not_ready, pod_evicted, probe_failure,
  stalled_rollout, node_pressure, stalled_stateful_set, stalled_daemon_set, job_failed,
  cron_job_failed, otel_span_error, otel_span_latency_spike, otel_log_match, otel_span_event,
}

unfoldable pub truncate_body : String → ℕ → String
unfolding take_chars
truncate_body s max =
    if leb max 0 || leb (size s) max then s else take_chars max s ++ "…(truncated)"

-- `\s`: tab, newline, form feed, carriage return and space
abbrev pub is_blank : Char → Bool
is_blank c =
    nat_eq (code c) 32
    || (nat_eq (code c) 9 || (nat_eq (code c) 10 || (nat_eq (code c) 12 || nat_eq (code c) 13)))

abbrev is_letter : Char → Bool
is_letter c =
    (leb b'A' (code c) && leb (code c) b'Z')
    || ((leb b'a' (code c) && leb (code c) b'z') || nat_eq (code c) b'_')

-- `[\w.-]`
abbrev is_key_char : Char → Bool
is_key_char c =
    is_letter c
    || ((leb b'0' (code c) && leb (code c) b'9') || (nat_eq (code c) b'.' || nat_eq (code c) b'-'))

-- `(\s|$)`: the text from the white space on
abbrev pub at_blank : String → Option String
at_blank [] = some []
at_blank (c ∷ s) = if is_blank c then some (c ∷ s) else none

-- `[\w.-]*=(\s|$)`: what is left, the white space first
unfoldable pub value_missing : String → Option String
value_missing [] = none
value_missing (c ∷ s) =
    let rest = value_missing s in
    if nat_eq (code c) b'=' then at_blank s else if is_key_char c then rest else none

-- `[A-Za-z_][\w.-]*=(\s|$)`
unfoldable pub empty_pair : String → Option String
unfolding value_missing
empty_pair [] = none
empty_pair (c ∷ s) = if is_letter c then value_missing s else none

-- `$2` is put out, and the search goes on behind it
abbrev pub behind : (String → String) → String → String
behind k [] = []
behind k (d ∷ s) = d ∷ k s

-- The replacement from a place on that is not the start of the text; the fuel is the size of what is
-- left.
unfoldable pub replace_from : ℕ → String → String
unfolding empty_pair
replace_from zero s = s
replace_from (suc fuel) [] = []
replace_from (suc fuel) (c ∷ s) =
    let kept = c ∷ replace_from fuel s in
    let matched : String = elim (empty_pair s) [
      | none ↦ kept
      | some rest ↦ behind (replace_from fuel) rest
    ] in
    if is_blank c then matched else kept

-- emptyKVRegex.ReplaceAllString(s, "$2")
unfoldable pub remove_empty_pairs : String → String
unfolding replace_from
remove_empty_pairs s = elim (empty_pair s) [
  | none ↦ replace_from (size s) s
  | some rest ↦ behind (replace_from (size s)) rest
]

-- the loop of stripEmptyKV, which repeats until nothing changes
unfoldable pub repeat_removal : ℕ → String → String
repeat_removal zero s = s
repeat_removal (suc fuel) s =
    let out = remove_empty_pairs s in
    let again = repeat_removal fuel out in if out == s then s else again

-- the replacement of `\s+` by a space; `seen` tells that the character in front is white space
unfoldable pub collapse_blanks : Bool → String → String
collapse_blanks seen [] = []
collapse_blanks seen (c ∷ s) =
    let space = collapse_blanks true s in
    let other = c ∷ collapse_blanks false s in
    if is_blank c then (if seen then space else " " ++ space) else other

unfoldable pub strip_empty_kv : String → String
unfolding repeat_removal collapse_blanks
strip_empty_kv s = trim_space (collapse_blanks false (repeat_removal (suc (size s)) s))

module _ (duration_text : ℕ → String) where
  -- fmt.Sprintf with the format of each case; `duration_text` is the method String of time.Duration
  unfoldable pub build_summary : Event → String
  unfolding itoa truncate_body
  build_summary (crash_loop_back_off e) =
      let s =
        "CrashLoopBackOff restarts=" ++ itoa e.restart_count ++ " threshold=" ++ itoa e.threshold in
      if not (nat_eq e.last_exit_code 0) && not (e.exit_code_category == "")
      then s
        ++ " exitCode="
        ++ itoa e.last_exit_code
        ++ " category="
        ++ e.exit_code_category
        ++ " description="
        ++ e.exit_code_description
      else s
  build_summary (oom_killed e) = "OOMKilled exitCode=" ++ itoa e.exit_code ++ " reason=" ++ e.reason
  build_summary (image_pull_back_off e) =
      "Image pull failure reason=" ++ e.reason ++ " message=" ++ e.message
  build_summary (pod_pending_too_long e) =
      "Pod pending too long pendingFor="
      ++ duration_text e.pending_for
      ++ " timeout="
      ++ duration_text e.timeout
  build_summary (grace_period_violation e) =
      "Pod deletion exceeded grace period grace="
      ++ itoa e.grace_period_seconds
      ++ "s overdue="
      ++ duration_text e.overdue_for
  build_summary (pod_healthy e) = ""
  build_summary (pod_deleted e) = ""
  build_summary (node_not_ready e) =
      "Node not ready reason=" ++ e.reason ++ " message=" ++ e.message
  build_summary (pod_evicted e) =
      "Pod evicted from node reason=" ++ e.reason ++ " message=" ++ e.message
  build_summary (probe_failure e) =
      "Probe failed probeType=" ++ e.probe_type ++ " message=" ++ e.message
  build_summary (stalled_rollout e) =
      "Deployment rollout stalled reason="
      ++ e.reason
      ++ " desiredReplicas="
      ++ itoa e.desired_replicas
      ++ " readyReplicas="
      ++ itoa e.ready_replicas
      ++ " message="
      ++ e.message
  build_summary (node_pressure e) =
      "Node " ++ e.node_name ++ " condition=" ++ e.pressure_type ++ " message=" ++ e.message
  build_summary (stalled_stateful_set e) =
      "StatefulSet rollout stalled reason="
      ++ e.reason
      ++ " desiredReplicas="
      ++ itoa e.desired_replicas
      ++ " readyReplicas="
      ++ itoa e.ready_replicas
      ++ " updatedReplicas="
      ++ itoa e.updated_replicas
      ++ " message="
      ++ e.message
  build_summary (stalled_daemon_set e) =
      "DaemonSet rollout stalled reason="
      ++ e.reason
      ++ " desired="
      ++ itoa e.desired_number_scheduled
      ++ " ready="
      ++ itoa e.number_ready
      ++ " updated="
      ++ itoa e.updated_number_scheduled
      ++ " message="
      ++ e.message
  build_summary (job_failed e) = "Job failed reason=" ++ e.reason ++ " message=" ++ e.message
  build_summary (cron_job_failed e) =
      "CronJob failed lastJob=" ++ e.last_job_name ++ " reason=" ++ e.reason ++ " message="
      ++ e.message
  build_summary (otel_span_error e) =
      "Error span service=" ++ e.service_name ++ " span=" ++ e.span_name ++ " status="
      ++ e.status_code ++ " message=" ++ e.status_message
  build_summary (otel_span_latency_spike e) =
      "Latency spike service="
      ++ e.service_name
      ++ " span="
      ++ e.span_name
      ++ " durationNs="
      ++ itoa e.duration_nanos
      ++ " thresholdNs="
      ++ itoa e.threshold_ns
  build_summary (otel_log_match e) =
      "Log match service="
      ++ e.service_name
      ++ " severity="
      ++ e.severity
      ++ " body="
      ++ truncate_body e.body 512
  build_summary (otel_span_event e) =
      "Span event service=" ++ e.service_name ++ " event=" ++ e.event_name
