-- ===== src/OtelIngest/Server/Answers.antt =====
-- The answers of the handlers of internal/otelingest/server.go: each status with its cause.
use rca_operator.Base.{
  test_fails, ℕ, ◌*◌, ◌≤◌, ◌<◌, String, ◌≡◌, ◌≢◌, refl, sym, ap, subst, ◌∙◌, inl, inr, ◌⊎◌, true,
  false, Option, none, some, List, [], length, ltb, nat_eq, arith, Bool-cases, Option-cases,
  if◌then◌else◌, ◌==◌, eq→path,
}
use mathlib.Core.Option.{some_inj}
use rca_operator.Base.Texts.{to_lower, trim_space}
use rca_operator.OtelIngest.Translator.{
  Sent, IngestConfig, nothing_sent, translate_resource_spans, translate_resource_logs,
}
use rca_operator.OtelIngest.Values.{IngestStd}
use rca_operator.OtelIngest.Server.{
  Stream, Codec, HttpRequest, Body, oversized, unreadable, decoded, HttpReply, read_stream,
  limit_of, is_json_content_type, decode_gzip, decode_content_encoding, decode_body, read_limited,
  accepted, answer, decode_otlp, answer_body, handle, handle_traces, handle_logs, status_for_error,
}

-- What a bounded read yields of a stream: it is too long, breaks, or is read to its end.
abbrev pub IsRead : ℕ → Stream → Body → Type 0
IsRead max s oversized = max < length s.bytes
IsRead max s unreadable = (length s.bytes ≤ max) × (s.breaks ≡ true)
IsRead max s (decoded bytes) = (length s.bytes ≤ max) × (s.breaks ≡ false) × (bytes ≡ s.bytes)

-- MaxRequestBytes, or 16 MiB where that is not set
abbrev pub body_limit : ℕ → ℕ
body_limit max = if nat_eq max 0 then 16 * 1024 * 1024 else max

abbrev pub encoding_of : HttpRequest → String
encoding_of r = to_lower (trim_space r.content_encoding)

read_stream-IsRead : (max : ℕ) (s : Stream) → IsRead max s (read_stream max s)
unfolding read_stream
read_stream-IsRead max s = elim (Bool-cases (ltb max (length s.bytes))) [
  | inl e ↦ rw e (ground (arith, e))
  | inr e ↦ rw e (elim (Bool-cases s.breaks) [
    | inl broken ↦ rw broken (ground (arith, e), refl)
    | inr whole ↦ rw whole (ground (arith, e), refl, refl)
  ])
]

module _ (codec : Codec) where
  -- What the body of a request is, by its encoding: as it stands, or decompressed, each within the
  -- limit; any other encoding is not read.
  pub data IsDecodedAs (max : ℕ) (r : HttpRequest) (bytes : List ℕ) (b : Body) : Type 0 where
    plain :
        (encoding_of r ≡ "") ⊎ (encoding_of r ≡ "identity")
        → b ≡ decoded bytes
        → IsDecodedAs max r bytes b
    gzipped :
        (s : Stream)
        → encoding_of r ≡ "gzip"
        → codec.gunzip bytes ≡ some s
        → IsRead max s b
        → IsDecodedAs max r bytes b
    not_gzip :
        encoding_of r ≡ "gzip"
        → codec.gunzip bytes ≡ none
        → b ≡ unreadable
        → IsDecodedAs max r bytes b
    unsupported :
        encoding_of r ≢ ""
        → encoding_of r ≢ "identity"
        → encoding_of r ≢ "gzip"
        → b ≡ unreadable
        → IsDecodedAs max r bytes b

  -- The two reads of a request: of its body, and of what the body encodes.
  pub data IsBody (max : ℕ) (r : HttpRequest) (b : Body) : Type 0 where
    too_long : max < length r.body.bytes → b ≡ oversized → IsBody max r b
    broken : length r.body.bytes ≤ max → r.body.breaks ≡ true → b ≡ unreadable → IsBody max r b
    whole :
        length r.body.bytes ≤ max
        → r.body.breaks ≡ false
        → IsDecodedAs max r r.body.bytes b
        → IsBody max r b

  decode_content_encoding-IsDecodedAs :
      (max : ℕ) (r : HttpRequest) (bytes : List ℕ)
      → IsDecodedAs max r bytes (decode_content_encoding codec r.content_encoding max bytes)
  unfolding decode_content_encoding decode_gzip
  decode_content_encoding-IsDecodedAs max r bytes = elim (Bool-cases (encoding_of r == "")) [
    | inl e ↦ rw e (plain (inl (eq→path _ _ e)) refl)
    | inr e ↦ elim (Bool-cases (encoding_of r == "identity")) [
      | inl f ↦ rw (e, f) (plain (inr (eq→path _ _ f)) refl)
      | inr f ↦ elim (Bool-cases (encoding_of r == "gzip")) [
        | inl g ↦
            rw (e, f, g)
              (elim (Option-cases (codec.gunzip bytes)) [
                | inl n ↦ rw n (not_gzip (eq→path _ _ g) n refl)
                | inr (s, n) ↦ rw n (gzipped s (eq→path _ _ g) n (read_stream-IsRead max s))
              ])
        | inr g ↦
            rw (e, f, g) (unsupported (test_fails _ _ e) (test_fails _ _ f) (test_fails _ _ g) refl)
      ]
    ]
  ]

  decode_body-IsBody :
      (max : ℕ) (r : HttpRequest) (b : Body)
      → IsRead max r.body b
      → IsBody max r (decode_body codec r.content_encoding max b)
  unfolding decode_body
  decode_body-IsBody max r oversized h = too_long h refl
  decode_body-IsBody max r unreadable h = broken h.0 h.1 refl
  decode_body-IsBody max r (decoded bytes) (fits, unbroken, e) = whole fits unbroken (
      subst (λ l. IsDecodedAs max r l (decode_content_encoding codec r.content_encoding max bytes))
        e (decode_content_encoding-IsDecodedAs max r bytes))

  read_limited-IsBody :
      (max : ℕ) (r : HttpRequest) → IsBody (body_limit max) r (read_limited codec max r)
  unfolding read_limited limit_of
  read_limited-IsBody max r =
      decode_body-IsBody (body_limit max) r _ (read_stream-IsRead (body_limit max) r.body)

  -- the media type is that of JSON, or the text itself where it has none
  abbrev pub IsJson : String → Type 0
  IsJson content_type =
      (codec.parse_media_type content_type ≡ some "application/json")
      ⊎ ((codec.parse_media_type content_type ≡ none)
          × (to_lower (trim_space content_type) ≡ "application/json"))

  is_json_content_type-cases :
      (content_type : String)
      → ((is_json_content_type codec content_type ≡ true) × IsJson content_type)
        ⊎ ((is_json_content_type codec content_type ≡ false) × (¬ IsJson content_type))
  unfolding is_json_content_type
  is_json_content_type-cases content_type =
      elim (Option-cases (codec.parse_media_type content_type)) [
        | inl n ↦
            let text = to_lower (trim_space content_type) in
            elim (Bool-cases (text == "application/json")) [
              | inl e ↦ inl (rw (is_json_content_type, n) e, inr (n, eq→path _ _ e))
              | inr e ↦ inr (
                rw (is_json_content_type, n) e,
                λ j. elim j [
                  | inl q ↦ absurd (ground (arith, n, q))
                  | inr q ↦ test_fails _ _ e q.1
                ],
              )
            ]
        | inr (media_type, n) ↦ elim (Bool-cases (media_type == "application/json")) [
          | inl e ↦ inl (rw (is_json_content_type, n) e, inl (n ∙ ap some (eq→path _ _ e)))
          | inr e ↦ inr (
            rw (is_json_content_type, n) e,
            λ j. elim j [
              | inl q ↦ test_fails _ _ e (some_inj.0 (sym n ∙ q))
              | inr q ↦ absurd (ground (arith, n, q))
            ],
          )
        ]
      ]

  module _ {Message : Type 0} (of_json of_proto : List ℕ → Option Message)
      (translate : Message → Sent) where
    -- The message of the bytes, by the content type.
    abbrev pub IsMessage : String → List ℕ → Option Message → Type 0
    IsMessage content_type bytes m =
        (IsJson content_type × (of_json bytes ≡ m))
        ⊎ ((¬ IsJson content_type) × (of_proto bytes ≡ m))

    abbrev Refuses : ℕ → HttpReply → Type 0
    Refuses status reply = (reply.status ≡ status) × (reply.sent ≡ [])

    -- An answer with its cause.
    pub data IsAnswered (max : ℕ) (r : HttpRequest) (reply : HttpReply) : Type 0 where
      not_posted : r.method ≢ "POST" → Refuses 405 reply → IsAnswered max r reply
      over_limit :
          r.method ≡ "POST"
          → IsBody (body_limit max) r oversized
          → Refuses 413 reply
          → IsAnswered max r reply
      not_read :
          r.method ≡ "POST"
          → IsBody (body_limit max) r unreadable
          → Refuses 400 reply
          → IsAnswered max r reply
      no_message :
          (bytes : List ℕ)
          → r.method ≡ "POST"
          → IsBody (body_limit max) r (decoded bytes)
          → IsMessage r.content_type bytes none
          → Refuses 400 reply
          → IsAnswered max r reply
      translated :
          (bytes : List ℕ) (message : Message)
          → r.method ≡ "POST"
          → IsBody (body_limit max) r (decoded bytes)
          → IsMessage r.content_type bytes (some message)
          → reply.status ≡ 200
          → reply.sent ≡ (translate message).events
          → IsAnswered max r reply

    decode_otlp-IsMessage :
        (content_type : String) (bytes : List ℕ)
        → IsMessage content_type bytes
            (decode_otlp codec of_json of_proto translate content_type bytes)
    unfolding decode_otlp
    decode_otlp-IsMessage content_type bytes = elim (is_json_content_type-cases content_type) [
      | inl (e, json) ↦ rw e (inl (json, refl))
      | inr (e, other) ↦ rw e (inr (other, refl))
    ]

    answer-IsAnswered :
        (max : ℕ) (r : HttpRequest) (bytes : List ℕ) (m : Option Message)
        → r.method ≡ "POST"
        → IsBody (body_limit max) r (decoded bytes)
        → IsMessage r.content_type bytes m
        → IsAnswered max r (answer codec of_json of_proto translate r.content_type m)
    unfolding answer accepted
    answer-IsAnswered max r bytes none p h e = no_message bytes p h e (refl, refl)
    answer-IsAnswered max r bytes (some m) p h e = translated bytes m p h e refl refl

    answer_body-IsAnswered :
        (max : ℕ) (r : HttpRequest) (b : Body)
        → r.method ≡ "POST"
        → IsBody (body_limit max) r b
        → IsAnswered max r (answer_body codec of_json of_proto translate r.content_type b)
    unfolding answer_body status_for_error
    answer_body-IsAnswered max r oversized p h = over_limit p h (refl, refl)
    answer_body-IsAnswered max r unreadable p h = not_read p h (refl, refl)
    answer_body-IsAnswered max r (decoded bytes) p h =
        answer-IsAnswered max r bytes _ p h (decode_otlp-IsMessage r.content_type bytes)

    handle-IsAnswered :
        (max : ℕ) (r : HttpRequest)
        → IsAnswered max r (handle codec of_json of_proto translate max r)
    unfolding handle
    handle-IsAnswered max r = elim (Bool-cases (r.method == "POST")) [
      | inl e ↦ rw e (answer_body-IsAnswered max r _ (eq→path _ _ e) (read_limited-IsBody max r))
      | inr e ↦ rw e (not_posted (test_fails _ _ e) (refl, refl))
    ]

  -- Both handlers answer a request by its cause. One that is no POST gets 405; a POST whose body, or
  -- what its gzip holds, is longer than the limit gets 413; one whose body breaks off, is no gzip
  -- where that is its encoding, has another encoding, or is no message of its content type gets 400.
  -- Nothing is sent then. Any other POST gets 200, and exactly the signals of the message are sent
  -- that its body, decompressed where it is gzip, encodes.
  pub handlers-IsAnswered :
      (std : IngestStd) (cfg : IngestConfig std) (max now : ℕ) (r : HttpRequest)
      → IsAnswered codec.spans_of_json codec.spans_of_proto
          (λ rss. translate_resource_spans std cfg now rss nothing_sent)
          max
          r
          (handle_traces codec std cfg max now r)
        × IsAnswered codec.logs_of_json codec.logs_of_proto
            (λ rls. translate_resource_logs std cfg now rls)
            max
            r
            (handle_logs codec std cfg max now r)
  unfolding handle_traces handle_logs
  handlers-IsAnswered std cfg max now r =
      (handle-IsAnswered _ _ _ max r, handle-IsAnswered _ _ _ max r)
