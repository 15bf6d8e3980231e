-- ===== src/OtelIngest/Server.antt =====
-- The handlers of internal/otelingest/server.go. What lies below them is a parameter: gzip, the two
-- decoders of a message, mime.ParseMediaType. A body is what can be read of it, and whether reading
-- fails behind that. The empty response is always encoded; the listener and its shutdown are left
-- out.
pub mod Answers
use rca_operator.Base.{
  ℕ, String, Bool, true, false, not, Option, none, some, List, [], ltb, length, nat_eq,
  if◌then◌else◌, ◌==◌, ◌||◌,
}
use rca_operator.Base.Texts.{to_lower, trim_space}
use rca_operator.Watcher.Event.{Event}
use rca_operator.OtelIngest.Values.{IngestStd}
use rca_operator.OtelIngest.Translator.{
  IngestConfig, ResourceSpans, ResourceLogs, Sent, nothing_sent, translate_resource_spans,
  translate_resource_logs,
}

pub record Stream : Type 0 where
  pub bytes : List ℕ
  pub breaks : Bool

pub record Codec : Type 0 where
  -- gzip.NewReader, and what the reader yields
  pub gunzip : List ℕ → Option Stream
  -- the media type, none for an error
  pub parse_media_type : String → Option String
  -- protojson.Unmarshal and proto.Unmarshal of the two messages
  pub spans_of_json : List ℕ → Option (List ResourceSpans)
  pub spans_of_proto : List ℕ → Option (List ResourceSpans)
  pub logs_of_json : List ℕ → Option (List ResourceLogs)
  pub logs_of_proto : List ℕ → Option (List ResourceLogs)

pub record HttpRequest : Type 0 where
  pub method : String
  pub content_type : String
  pub content_encoding : String
  pub body : Stream

-- a pair of []byte and error
pub data Body : Type 0 where
  oversized : Body
  unreadable : Body
  decoded : List ℕ → Body

pub record HttpReply : Type 0 where
  pub status : ℕ
  pub content_type : String
  pub sent : List Event

-- io.ReadAll behind a limit
unfoldable pub read_stream : ℕ → Stream → Body
read_stream max s =
    if ltb max (length s.bytes) then oversized else if s.breaks then unreadable else decoded s.bytes

unfoldable pub status_for_error : Body → ℕ
status_for_error oversized = 413
status_for_error unreadable = 400
status_for_error (decoded bytes) = 400

-- a value of MaxRequestBytes that is not positive is the default of 16 MiB
unfoldable pub limit_of : ℕ → ℕ
limit_of max = if nat_eq max 0 then 16777216 else max

module _ (codec : Codec) where
  unfoldable pub is_json_content_type : String → Bool
  is_json_content_type content_type = elim (codec.parse_media_type content_type) [
    | none ↦ to_lower (trim_space content_type) == "application/json"
    | some media_type ↦ media_type == "application/json"
  ]

  unfoldable pub decode_gzip : ℕ → Option Stream → Body
  decode_gzip max none = unreadable
  decode_gzip max (some s) = read_stream max s

  unfoldable pub decode_content_encoding : String → ℕ → List ℕ → Body
  decode_content_encoding content_encoding max body =
      let encoding = to_lower (trim_space content_encoding) in
      if (encoding == "") || (encoding == "identity")
      then decoded body
      else if encoding == "gzip"
      then decode_gzip max (codec.gunzip body)
      else unreadable

  unfoldable pub decode_body : String → ℕ → Body → Body
  decode_body content_encoding max oversized = oversized
  decode_body content_encoding max unreadable = unreadable
  decode_body content_encoding max (decoded body) =
      decode_content_encoding content_encoding max body

  unfoldable pub read_limited : ℕ → HttpRequest → Body
  read_limited max r =
      decode_body r.content_encoding (limit_of max) (read_stream (limit_of max) r.body)

  -- http.Error
  abbrev pub refusal : ℕ → HttpReply
  refusal status = record { status = status; content_type = "text/plain; charset=utf-8"; sent = [] }

  -- writeOTLPResponse, with the signals that were sent
  unfoldable pub accepted : String → Sent → HttpReply
  accepted content_type s = record {
    status = 200;
    content_type =
        if is_json_content_type content_type then "application/json" else "application/x-protobuf";
    sent = s.events;
  }

  module _ {Message : Type 0} (of_json of_proto : List ℕ → Option Message)
      (translate : Message → Sent) where
    unfoldable pub answer : String → Option Message → HttpReply
    answer content_type none = refusal 400
    answer content_type (some msg) = accepted content_type (translate msg)

    -- decodeOTLP
    unfoldable pub decode_otlp : String → List ℕ → Option Message
    decode_otlp content_type body =
        if is_json_content_type content_type then of_json body else of_proto body

    unfoldable pub answer_body : String → Body → HttpReply
    answer_body content_type oversized = refusal (status_for_error oversized)
    answer_body content_type unreadable = refusal (status_for_error unreadable)
    answer_body content_type (decoded body) = answer content_type (decode_otlp content_type body)

    -- the two handlers, which differ in the message only
    unfoldable pub handle : ℕ → HttpRequest → HttpReply
    handle max r =
        let answered = answer_body r.content_type (read_limited max r) in
        if not (r.method == "POST") then refusal 405 else answered

  module _ (std : IngestStd) (cfg : IngestConfig std) (max now : ℕ) where
    unfoldable pub handle_traces : HttpRequest → HttpReply
    handle_traces r =
        handle codec.spans_of_json codec.spans_of_proto
          (λ rss. translate_resource_spans std cfg now rss nothing_sent) max r

    unfoldable pub handle_logs : HttpRequest → HttpReply
    handle_logs r =
        handle codec.logs_of_json codec.logs_of_proto
          (λ rls. translate_resource_logs std cfg now rls) max r
