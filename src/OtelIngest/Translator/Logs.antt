-- ===== src/OtelIngest/Translator/Logs.antt =====
-- What TranslateResourceLogs of internal/otelingest/translator.go sends of one request.
use mathlib.Core.Bool.{false≢true}
use mathlib.Core.List.{Memᴰ}
use rca_operator.Base.{
  ℕ, ◌+◌, ◌≤◌, ◌<◌, String, Bool, ◌≡◌, ◌≢◌, refl, sym, ap, subst, ◌∙◌, inl, inr, true, false, List,
  [], ◌∷◌, ◌++◌, All, All-append, any_by, length, length-append, arith, Bool-cases, if◌then◌else◌,
  ◌==◌, eq_refl,
}
use rca_operator.Base.Maps.{lookup}
use rca_operator.RuleEngine.Scope.{value_or_empty}
use rca_operator.Watcher.Event.{Event, otel_log_match, dedup_key}
use rca_operator.Watcher.Event.Telemetry.{OtelLogMatchEvent}
use rca_operator.OtelIngest.Values.{
  IngestStd, redact, any_value_to_string, resource_attrs, hex_bytes, severity_number_for_text,
}
use rca_operator.OtelIngest.Translator.{
  IngestConfig, LogRecord, base_from_resource, ResourceLogs, Sent, nothing_sent, LogLoop, log_event,
  min_severity, is_below, is_full, send_log, translate_record, translate_records,
  translate_log_scopes, translate_logs, translate_resource_logs,
}

-- No two signals have one key.
abbrev pub HasDistinctKeys : List Event → Type 0
HasDistinctKeys [] = Unit
HasDistinctKeys (e ∷ es) = All (λ f. dedup_key f ≢ dedup_key e) es × HasDistinctKeys es

HasDistinctKeys-append :
    (es : List Event) (e : Event)
    → All (λ f. dedup_key f ≢ dedup_key e) es
    → HasDistinctKeys es
    → HasDistinctKeys (es ++ e ∷ [])
HasDistinctKeys-append [] e h k = (tt, tt)
HasDistinctKeys-append (f ∷ es) e h k =
    (All-append _ es (e ∷ []) k.0 ((λ q. h.0 (sym q)), tt), HasDistinctKeys-append es e h.1 k.1)

-- the keys of the signals are in the set
abbrev KeysIn : List String → List Event → Type 0
KeysIn seen es = All (λ f. any_by (λ k. k == dedup_key f) seen ≡ true) es

KeysIn-more :
    (key : String) (seen : List String) (es : List Event) → KeysIn seen es → KeysIn (key ∷ seen) es
KeysIn-more key seen [] h = tt
KeysIn-more key seen (e ∷ es) h = (ground (arith, h.0), KeysIn-more key seen es h.1)

-- a key outside of the set is that of no signal
KeysIn-other :
    (key : String) (seen : List String) (es : List Event)
    → any_by (λ k. k == key) seen ≡ false
    → KeysIn seen es
    → All (λ f. dedup_key f ≢ key) es
KeysIn-other key seen [] out h = tt
KeysIn-other key seen (e ∷ es) out h = (
  λ q. false≢true (sym out ∙ subst (λ x. any_by (λ k. k == x) seen ≡ true) q h.0),
  KeysIn-other key seen es out h.1,
)

module _ (std : IngestStd) (cfg : IngestConfig std) where
  -- The record is one of the request, under one of its resources, and reaches the least severity.
  -- The signal is that of the record: its severity, body (redacted), ids, service and agent.
  pub record IsLogOf (rl : ResourceLogs) (rec : LogRecord) (x : OtelLogMatchEvent) : Type 0 where
    pub scope : List LogRecord
    pub in_resource : Memᴰ scope rl.scope_logs
    pub in_scope : Memᴰ rec scope
    pub reached : severity_number_for_text cfg.log_filters.min_severity ≤ rec.severity_number
    pub severity_num : x.severity_num ≡ rec.severity_number
    pub body : x.body ≡ redact std (any_value_to_string std rec.body) cfg.redaction
    pub trace_id : x.trace_id ≡ hex_bytes rec.trace_id
    pub span_id : x.span_id ≡ hex_bytes rec.span_id
    pub service_name :
        x.service_name ≡ value_or_empty (lookup "service.name" (resource_attrs std rl.resource))
    pub agent_name : x.base.agent_name ≡ cfg.agent_name

  -- a signal of a log record of the request
  abbrev pub IsLogSignal : List ResourceLogs → Event → Type 0
  IsLogSignal rls e =
      (rl : ResourceLogs) × (rec : LogRecord) × (x : OtelLogMatchEvent) × Memᴰ rl rls
      × (e ≡ otel_log_match x)
      × IsLogOf rl rec x

  -- the number of signals, against the cap
  abbrev pub IsWithinCap : Sent → Type 0
  IsWithinCap s =
      (s.emitted ≡ length s.events)
      × (0 < cfg.log_filters.max_signals_per_request
          → s.emitted ≤ cfg.log_filters.max_signals_per_request)

  module _ (now : ℕ) (rls : List ResourceLogs) where
    record Holds (st : LogLoop std cfg) : Type 0 where
      keys : KeysIn st.seen st.sent.events
      distinct : HasDistinctKeys st.sent.events
      within : IsWithinCap st.sent
      signals : All (IsLogSignal rls) st.sent.events
      room :
          st.returned ≡ false
          → 0 < cfg.log_filters.max_signals_per_request
          → st.sent.emitted < cfg.log_filters.max_signals_per_request

    -- the scope is one of the resource, and the resource one of the request
    record IsAt (rl : ResourceLogs) (recs : List LogRecord) : Type 0 where
      in_request : Memᴰ rl rls
      in_resource : Memᴰ recs rl.scope_logs

    log_event-signal :
        (rl : ResourceLogs) (recs : List LogRecord) (rec : LogRecord)
        → IsAt rl recs
        → Memᴰ rec recs
        → is_below std cfg rec ≡ false
        → IsLogSignal rls
            (otel_log_match (log_event std cfg now (resource_attrs std rl.resource) rec))
    unfolding log_event is_below min_severity base_from_resource
    log_event-signal rl recs rec place k above = (
      rl,
      rec,
      _,
      place.in_request,
      refl,
      record {
        scope = recs;
        in_resource = place.in_resource;
        in_scope = k;
        reached = ground (arith, above);
        severity_num = refl;
        body = refl;
        trace_id = refl;
        span_id = refl;
        service_name = refl;
        agent_name = refl;
      },
    )

    send_log-Holds :
        (e : Event) (st : LogLoop std cfg)
        → any_by (λ k. k == dedup_key e) st.seen ≡ false
        → IsLogSignal rls e
        → st.returned ≡ false
        → Holds st
        → Holds (send_log std cfg e st)
    unfolding send_log is_full
    send_log-Holds e st out log going h = record {
      keys =
          All-append _ st.sent.events (e ∷ [])
            (KeysIn-more (dedup_key e) st.seen st.sent.events h.keys)
            (ground (arith, eq_refl (dedup_key e)), tt);
      distinct =
          HasDistinctKeys-append st.sent.events e
            (KeysIn-other (dedup_key e) st.seen st.sent.events out h.keys) h.distinct;
      within = (
        ap (λ n. n + 1) h.within.0 ∙ sym (length-append st.sent.events (e ∷ [])),
        λ pos. let r = h.room going pos in omega (arith, r),
      );
      signals = All-append (IsLogSignal rls) st.sent.events (e ∷ []) h.signals (log, tt);
      room = λ more pos. ground (arith, more, pos);
    }

    translate_record-Holds :
        (rl : ResourceLogs) (recs : List LogRecord) (rec : LogRecord) (st : LogLoop std cfg)
        → IsAt rl recs
        → Memᴰ rec recs
        → st.returned ≡ false
        → Holds st
        → Holds (translate_record std cfg now (resource_attrs std rl.resource) rec st)
    unfolding translate_record
    translate_record-Holds rl recs rec st place k going h =
        let evt = otel_log_match (log_event std cfg now (resource_attrs std rl.resource) rec) in
        elim (Bool-cases (is_below std cfg rec)) [
          | inl below ↦ rw below h
          | inr above ↦ rw above (elim (Bool-cases (any_by (λ k. k == dedup_key evt) st.seen)) [
            | inl old ↦ rw old h
            | inr new ↦
                rw new
                  (send_log-Holds evt st new (log_event-signal rl recs rec place k above) going h)
          ])
        ]

    either_Holds :
        (b : Bool) (st next : LogLoop std cfg)
        → Holds st
        → (b ≡ false → Holds next)
        → Holds (if b then st else next)
    either_Holds true st next h k = h
    either_Holds false st next h k = k refl

    translate_records-Holds :
        (rl : ResourceLogs) (recs left : List LogRecord) (st : LogLoop std cfg)
        → IsAt rl recs
        → ((rec : LogRecord) → Memᴰ rec left → Memᴰ rec recs)
        → Holds st
        → Holds (translate_records std cfg now (resource_attrs std rl.resource) left st)
    unfolding translate_records
    translate_records-Holds rl recs [] st place part h = h
    translate_records-Holds rl recs (rec ∷ left) st place part h =
        either_Holds st.returned st _ h (λ going.
          translate_records-Holds rl recs left _ place (λ x m. part x (Memᴰ.tail m))
            (translate_record-Holds rl recs rec st place (part rec (Memᴰ.head refl)) going h))

    translate_log_scopes-Holds :
        (rl : ResourceLogs) (left : List (List LogRecord)) (st : LogLoop std cfg)
        → Memᴰ rl rls
        → ((recs : List LogRecord) → Memᴰ recs left → Memᴰ recs rl.scope_logs)
        → Holds st
        → Holds (translate_log_scopes std cfg now (resource_attrs std rl.resource) left st)
    unfolding translate_log_scopes
    translate_log_scopes-Holds rl [] st k part h = h
    translate_log_scopes-Holds rl (recs ∷ left) st k part h =
        translate_log_scopes-Holds rl left _ k (λ x m. part x (Memᴰ.tail m))
          (translate_records-Holds rl recs recs st
            (record { in_request = k; in_resource = part recs (Memᴰ.head refl) }) (λ x m. m) h)

    translate_logs-Holds :
        (left : List ResourceLogs) (st : LogLoop std cfg)
        → ((rl : ResourceLogs) → Memᴰ rl left → Memᴰ rl rls)
        → Holds st
        → Holds (translate_logs std cfg now left st)
    unfolding translate_logs
    translate_logs-Holds [] st part h = h
    translate_logs-Holds (rl ∷ left) st part h =
        translate_logs-Holds left _ (λ x m. part x (Memᴰ.tail m))
          (translate_log_scopes-Holds rl rl.scope_logs st (part rl (Memᴰ.head refl)) (λ x m. m) h)

  -- The signals of a request of logs have distinct keys. Each is that of a record of the request
  -- which is of at least the least severity: it has the severity, the redacted body and the ids of
  -- the record, and the service name of its resource. The number that is returned is that of the
  -- signals, and does not exceed a cap that is set.
  pub translate_resource_logs-sent :
      (now : ℕ) (rls : List ResourceLogs)
      → HasDistinctKeys (translate_resource_logs std cfg now rls).events
        × IsWithinCap (translate_resource_logs std cfg now rls)
        × All (IsLogSignal rls) (translate_resource_logs std cfg now rls).events
  unfolding translate_resource_logs
  translate_resource_logs-sent now rls =
      let h =
        translate_logs-Holds now rls rls
          (record { seen = []; sent = nothing_sent; returned = false }) (λ x m. m)
          (record {
            keys = tt;
            distinct = tt;
            within = (refl, λ pos. omega (arith, pos));
            signals = tt;
            room = λ _ pos. pos;
          }) in
      (h.distinct, h.within, h.signals)
