-- ===== src/Examples/Telemetry.antt =====
-- The translation of OTLP payloads at concrete records.
use mathlib.Core.List.{Memᴰ}
use rca_operator.OtelIngest.Translator.Complete.{key_of, IsSent, translate_resource_logs_sends}
use rca_operator.Base.{
  ◌≤◌, ◌<◌, ◌⊎◌, arith, ℕ, String, ◌≡◌, refl, true, false, none, some, List, [], ◌∷◌, All,
  if◌then◌else◌, ◌==◌,
}
use rca_operator.Base.Maps.{lookup, put}
use rca_operator.Base.Texts.{to_upper, to_lower, trim_space, char_or}
use rca_operator.Watcher.Event.{dedup_key, type_name}
use rca_operator.Base.Decimal.{itoa}
use rca_operator.Reporter.Text.{size}
use rca_operator.OtelIngest.Values.{
  IngestStd, string_value, int_value, pair_then, no_pairs, any_value_to_string, key_values_to_map,
  resource_attrs, redact, redact_each, body_hash, hex_bytes, hex_digit, severity_number,
  severity_number_for_text, severity_text_from_number, unix_nano_to_time, format_int,
}
use rca_operator.OtelIngest.Translator.{
  IngestConfig, ResourceLogs, LogRecord, base_from_resource, log_event, min_severity, is_below,
  is_full, send_log, translate_record, translate_records, translate_log_scopes, translate_logs,
  translate_resource_logs,
}
use rca_operator.OtelIngest.Translator.{nothing_sent, translate_resource_spans}
use rca_operator.OtelIngest.Server.{
  Codec, HttpRequest, read_stream, limit_of, is_json_content_type, decode_content_encoding,
  decode_body, read_limited, accepted, answer, decode_otlp, answer_body, handle, handle_traces,
  handle_logs,
}
use rca_operator.OtelIngest.Server.Answers.{IsAnswered, handlers-IsAnswered}
use rca_operator.OtelIngest.Translator.Logs.{
  HasDistinctKeys, IsWithinCap, IsLogSignal, translate_resource_logs-sent,
}

abbrev ingest_std : IngestStd
ingest_std = record {
  format_float = itoa;
  sha256 = λ s. size s ∷ [];
  Pattern = String;
  compile = λ p. some p;
  replace_all = λ p s token. if s == p then token else s;
}

abbrev ingest_config : IngestConfig ingest_std
ingest_config = record {
  agent_name = "otelingest";
  trace_filters = record { status_code_error = true; http_status_gte = 500; latency_p99_ms = 5000 };
  log_filters = record { min_severity = " warn "; max_signals_per_request = 2 };
  redaction = "secret" ∷ [];
}

abbrev log_record : ℕ → String → LogRecord
log_record severity body = record {
  time_nanos = 7;
  severity_number = severity;
  severity_text = "";
  body = string_value body;
  attributes = pair_then "retries" (int_value true 3) no_pairs;
  trace_id = 171 ∷ 205 ∷ [];
  span_id = [];
}

-- the second record is repeated, and the last one is beyond the cap
abbrev resource_logs : ResourceLogs
resource_logs = record {
  resource = some (pair_then "service.name" (string_value "cart") no_pairs);
  scope_logs =
      (log_record 9 "started" ∷ log_record 17 "secret" ∷ log_record 17 "secret" ∷ [])
      ∷ (log_record 13 "slow" ∷ log_record 21 "gone" ∷ [])
      ∷ [];
}

abbrev request : List ResourceLogs
request = resource_logs ∷ []

translate_resource_logs-sent_example :
    HasDistinctKeys (translate_resource_logs ingest_std ingest_config 9 request).events
    × IsWithinCap ingest_std ingest_config
        (translate_resource_logs ingest_std ingest_config 9 request)
    × All
        (IsLogSignal ingest_std ingest_config request)
        (translate_resource_logs ingest_std ingest_config 9 request).events
translate_resource_logs-sent_example =
    translate_resource_logs-sent ingest_std ingest_config 9 request

reaches_warn :
    severity_number_for_text ingest_config.log_filters.min_severity
    ≤ (log_record 13 "slow").severity_number
unfolding severity_number_for_text to_upper trim_space severity_number
reaches_warn = omega arith

-- the record at the least severity, behind two that have one key
translate_resource_logs_sends_example :
    IsSent ingest_std ingest_config 9
      (key_of ingest_std ingest_config 9 resource_logs (log_record 13 "slow"))
      (translate_resource_logs ingest_std ingest_config 9 request).events
    ⊎ ((0 < 2) × (2 ≤ (translate_resource_logs ingest_std ingest_config 9 request).emitted))
translate_resource_logs_sends_example =
    translate_resource_logs_sends ingest_std ingest_config 9 request resource_logs
      (log_record 13 "slow" ∷ log_record 21 "gone" ∷ []) (log_record 13 "slow") (Memᴰ.head refl)
      (Memᴰ.tail (Memᴰ.head refl)) (Memᴰ.head refl) reaches_warn

two_sent : (translate_resource_logs ingest_std ingest_config 9 request).emitted ≡ 2
unfolding any_value_to_string key_values_to_map resource_attrs redact redact_each body_hash
    hex_bytes hex_digit severity_number severity_number_for_text severity_text_from_number
    unix_nano_to_time format_int base_from_resource log_event min_severity is_below is_full send_log
    translate_record translate_records translate_log_scopes translate_logs translate_resource_logs
    dedup_key type_name trim_space to_upper lookup put itoa char_or
two_sent = refl

abbrev codec : Codec
codec = record {
  gunzip = λ bytes. none;
  parse_media_type = λ s. some s;
  spans_of_json = λ bytes. none;
  spans_of_proto = λ bytes. some [];
  logs_of_json = λ bytes. some request;
  logs_of_proto = λ bytes. none;
}

abbrev post : HttpRequest
post = record {
  method = "POST";
  content_type = "application/json";
  content_encoding = "identity";
  body = record { bytes = 123 ∷ 125 ∷ []; breaks = false };
}

handlers-IsAnswered_example :
    IsAnswered codec codec.spans_of_json codec.spans_of_proto
      (λ rss. translate_resource_spans ingest_std ingest_config 9 rss nothing_sent)
      100
      post
      (handle_traces codec ingest_std ingest_config 100 9 post)
    × IsAnswered codec codec.logs_of_json codec.logs_of_proto
        (λ rls. translate_resource_logs ingest_std ingest_config 9 rls)
        100
        post
        (handle_logs codec ingest_std ingest_config 100 9 post)
handlers-IsAnswered_example = handlers-IsAnswered codec ingest_std ingest_config 100 9 post

logs_accepted : (handle_logs codec ingest_std ingest_config 100 9 post).status ≡ 200
unfolding handle_logs handle read_limited read_stream limit_of decode_body decode_content_encoding
    answer_body decode_otlp is_json_content_type answer accepted to_lower trim_space
logs_accepted = refl

-- the spans are not in JSON
traces_refused : (handle_traces codec ingest_std ingest_config 100 9 post).status ≡ 400
unfolding handle_traces handle read_limited read_stream limit_of decode_body decode_content_encoding
    answer_body decode_otlp is_json_content_type answer to_lower trim_space
traces_refused = refl
