-- ===== src/Autodetect/Rule/Admitted.antt =====
-- The rule that createRule of internal/autodetect/creator.go makes for a mined pair, at the admission
-- webhook.
use mathlib.Core.Bool.{false≢true, true≢false}
use mathlib.Core.List.{Memᴰ}
use rca_operator.Base.{
  ℕ, String, ◌≡◌, refl, subst, inl, inr, true, false, ◌||◌, List, [], ◌∷◌, All, eq_iff, ltb, leb,
  ◌≤◌, arith, Bool-cases, ◌==◌,
}
use rca_operator.Base.Maps.{lookup, put}
use rca_operator.Base.Members.{All-Memᴰ}
use rca_operator.Correlator.Buffer.{Entry}
use rca_operator.Reporter.Text.{rank}
use rca_operator.RuleEngine.Rule.{Std}
use rca_operator.RuleEngine.Scope.{value_or_empty}
use rca_operator.Watcher.Event.{
  Event, type_name, is_known_event_type, pod_healthy, pod_deleted, crash_loop_back_off, oom_killed,
  image_pull_back_off, pod_pending_too_long, grace_period_violation, node_not_ready, pod_evicted,
  probe_failure, stalled_rollout, node_pressure, stalled_stateful_set, stalled_daemon_set,
  job_failed, cron_job_failed, otel_span_error, otel_span_latency_spike, otel_log_match,
  otel_span_event,
}
use rca_operator.Webhook.{
  admitted, one_of, valid_severities, valid_scopes, validate_attribute_matches, validate_conditions,
  validate_rule,
}
use rca_operator.Signals.Mapping.{default_mappings}
use rca_operator.Autodetect.Pattern.{EventPair, extract_entries, is_valid_scope_pair, mine_patterns}
use rca_operator.Autodetect.Pattern.Pairs.{IsPaired, mine_patterns-IsPaired}
use rca_operator.Autodetect.Accumulator.{Config, PatternRecord}
use rca_operator.Autodetect.Rule.{
  TimeFormat, severity_map, put_severities, higher_ranked, resolve_severity, new_rule,
}

-- a type that rules may name and that has a severity
abbrev IsRated : String → Type 0
IsRated t =
    (is_known_event_type t ≡ true)
    × (one_of valid_severities (value_or_empty (lookup t severity_map)) ≡ true)

type_name-IsRated :
    (e : Event)
    → ((type_name e == "PodHealthy") || (type_name e == "PodDeleted")) ≡ false
    → IsRated (type_name e)
unfolding type_name is_known_event_type one_of severity_map put_severities default_mappings lookup
    put
type_name-IsRated (pod_healthy e) h = absurd (true≢false h)
type_name-IsRated (pod_deleted e) h = absurd (true≢false h)
type_name-IsRated (crash_loop_back_off e) h = (refl, refl)
type_name-IsRated (oom_killed e) h = (refl, refl)
type_name-IsRated (image_pull_back_off e) h = (refl, refl)
type_name-IsRated (pod_pending_too_long e) h = (refl, refl)
type_name-IsRated (grace_period_violation e) h = (refl, refl)
type_name-IsRated (node_not_ready e) h = (refl, refl)
type_name-IsRated (pod_evicted e) h = (refl, refl)
type_name-IsRated (probe_failure e) h = (refl, refl)
type_name-IsRated (stalled_rollout e) h = (refl, refl)
type_name-IsRated (node_pressure e) h = (refl, refl)
type_name-IsRated (stalled_stateful_set e) h = (refl, refl)
type_name-IsRated (stalled_daemon_set e) h = (refl, refl)
type_name-IsRated (job_failed e) h = (refl, refl)
type_name-IsRated (cron_job_failed e) h = (refl, refl)
type_name-IsRated (otel_span_error e) h = (refl, refl)
type_name-IsRated (otel_span_latency_spike e) h = (refl, refl)
type_name-IsRated (otel_log_match e) h = (refl, refl)
type_name-IsRated (otel_span_event e) h = (refl, refl)

extract_entries-IsRated :
    (entries : List Entry) → All (λ e. IsRated e.event_type) (extract_entries entries)
unfolding extract_entries
extract_entries-IsRated [] = tt
extract_entries-IsRated (entry ∷ entries) =
    elim (Bool-cases
      ((type_name entry.event == "PodHealthy") || (type_name entry.event == "PodDeleted"))) [
        | inl h ↦ rw h (extract_entries-IsRated entries)
        | inr h ↦ rw h (type_name-IsRated entry.event h, extract_entries-IsRated entries)
      ]

higher_ranked-All {ℓ} : (P : String → Type ℓ) (a b : String) → P a → P b → P (higher_ranked a b)
unfolding higher_ranked
higher_ranked-All P a b h i = elim (Bool-cases (leb (rank b) (rank a))) [
  | inl e ↦ rw e h
  | inr e ↦ rw e i
]

valid_scope :
    (pair : EventPair) → is_valid_scope_pair pair ≡ true → one_of valid_scopes pair.scope ≡ true
unfolding is_valid_scope_pair one_of
valid_scope pair h = elim (Bool-cases (pair.scope == "samePod")) [
  | inl e ↦ rw ((eq_iff pair.scope "samePod").0 e) refl
  | inr e ↦ elim (Bool-cases (pair.scope == "sameNode")) [
    | inl f ↦ rw ((eq_iff pair.scope "sameNode").0 f) refl
    | inr f ↦ elim (Bool-cases (pair.scope == "sameNamespace")) [
      | inl g ↦ rw ((eq_iff pair.scope "sameNamespace").0 g) refl
      | inr g ↦ absurd (false≢true (ground (arith, h, e, f, g)))
    ]
  ]
]

resolve_severity-valid :
    (pair : EventPair)
    → IsRated pair.trigger_type
    → IsRated pair.condition_type
    → one_of valid_severities (resolve_severity pair) ≡ true
unfolding resolve_severity
resolve_severity-valid pair h i =
    higher_ranked-All (λ s. one_of valid_severities s ≡ true) _ _ h.1 i.1

module _ (std : Std) (time : TimeFormat) (cfg : Config) where
  -- The rule that is created for a pair mined from a snapshot passes every check of the admission
  -- webhook, its severity included, where the priority of generated rules is at least 1.
  pub new_rule-admitted :
      (entries : List Entry) (now : ℕ) (name : String) (r : PatternRecord)
      → Memᴰ r.pair (mine_patterns entries)
      → 1 ≤ cfg.auto_rule_priority
      → validate_rule std (new_rule time cfg now name r).rule ≡ admitted
  unfolding validate_rule validate_conditions validate_attribute_matches new_rule
  new_rule-admitted entries now name r m h =
      let (e, f, a, b, i, j, near, less, fits) =
        All-Memᴰ (IsPaired entries) (mine_patterns entries) r.pair (mine_patterns-IsPaired entries)
          m in
      let rated = extract_entries-IsRated entries in
      let trigger : IsRated r.pair.trigger_type =
        subst IsRated i (All-Memᴰ (λ x. IsRated x.event_type) _ e rated a) in
      let condition : IsRated r.pair.condition_type =
        subst IsRated j (All-Memᴰ (λ x. IsRated x.event_type) _ f rated b) in
      let bound : ltb cfg.auto_rule_priority 1 ≡ false = ground (arith, h) in
      rw
        (
          bound,
          trigger.0,
          resolve_severity-valid r.pair trigger condition,
          condition.0,
          valid_scope r.pair fits,
        )
        refl
