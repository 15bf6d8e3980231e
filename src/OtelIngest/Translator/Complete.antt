-- ===== src/OtelIngest/Translator/Complete.antt =====
-- What TranslateResourceLogs of internal/otelingest/translator.go does not leave out.
use mathlib.Core.List.{Memᴰ}
use rca_operator.Base.{
  ℕ, ◌≤◌, ◌<◌, String, Bool, ◌≡◌, refl, subst, inl, inr, ◌⊎◌, true, false, List, [], ◌∷◌, any_by,
  arith, if◌then◌else◌, ◌==◌, ◌||◌, eq_refl, eq→path,
}
use rca_operator.Base.Members.{Memᴰ-append_left, Memᴰ-append_last}
use rca_operator.Base.Maps.{Map}
use rca_operator.Watcher.Event.{Event, otel_log_match, dedup_key}
use rca_operator.OtelIngest.Values.{IngestStd, resource_attrs, severity_number_for_text}
use rca_operator.OtelIngest.Translator.{
  IngestConfig, LogRecord, ResourceLogs, nothing_sent, LogLoop, log_event, min_severity, is_below,
  is_full, send_log, translate_record, translate_records, translate_log_scopes, translate_logs,
  translate_resource_logs,
}

or_cases : (a b : Bool) → (a || b) ≡ true → (a ≡ true) ⊎ (b ≡ true)
or_cases true b h = inl refl
or_cases false b h = inr h

module _ (std : IngestStd) (cfg : IngestConfig std) (now : ℕ) where
  abbrev pub key_of : ResourceLogs → LogRecord → String
  key_of rl rec =
      dedup_key (otel_log_match (log_event std cfg now (resource_attrs std rl.resource) rec))

  -- a signal of the key was sent
  abbrev pub IsSent : String → List Event → Type 0
  IsSent key events = (e : Event) × Memᴰ e events × (dedup_key e ≡ key)

  abbrev IsFull : ℕ → Type 0
  IsFull emitted =
      (0 < cfg.log_filters.max_signals_per_request)
      × (cfg.log_filters.max_signals_per_request ≤ emitted)

  record IsTrue (st : LogLoop std cfg) : Type 0 where
    sent : (key : String) → any_by (λ k. k == key) st.seen ≡ true → IsSent key st.sent.events
    full : st.returned ≡ true → IsFull st.sent.emitted

  -- the key is dealt with, or the cap has ended the loops
  abbrev IsDealt : String → LogLoop std cfg → Type 0
  IsDealt key st = (st.returned ≡ true) ⊎ (any_by (λ k. k == key) st.seen ≡ true)

  send_log-IsTrue :
      (evt : Event) (st : LogLoop std cfg) → IsTrue st → IsTrue (send_log std cfg evt st)
  unfolding send_log is_full
  send_log-IsTrue evt st h = record {
    sent = λ key seen. elim (or_cases (dedup_key evt == key) _ seen) [
      | inl here ↦ (evt, Memᴰ-append_last evt evt st.sent.events refl, eq→path _ _ here)
      | inr before ↦
          let (e, m, k) = h.sent key before in (e, Memᴰ-append_left e st.sent.events _ m, k)
    ];
    full = λ more. ground (arith, more);
  }

  send_log-IsDealt :
      (evt : Event) (key : String) (st : LogLoop std cfg)
      → st.returned ≡ false
      → IsDealt key st
      → IsDealt key (send_log std cfg evt st)
  unfolding send_log
  send_log-IsDealt evt key st going (inl over) = ground (arith, going, over)
  send_log-IsDealt evt key st going (inr seen) = inr (ground (arith, seen))

  record IsStep (key : String) (st next : LogLoop std cfg) : Type 0 where
    true_after : IsTrue st → IsTrue next
    dealt_after : IsDealt key st → IsDealt key next

  either_IsStep :
      (key : String) (b : Bool) (st p q : LogLoop std cfg)
      → IsStep key st p
      → (b ≡ false → IsStep key st q)
      → IsStep key st (if b then p else q)
  either_IsStep key true st p q h k = h
  either_IsStep key false st p q h k = k refl

  no_step : (key : String) (st : LogLoop std cfg) → IsStep key st st
  no_step key st = record { true_after = λ h. h; dealt_after = λ h. h }

  steps :
      (key : String) (r s t : LogLoop std cfg) → IsStep key r s → IsStep key s t → IsStep key r t
  steps key r s t h k = record {
    true_after = λ x. k.true_after (h.true_after x);
    dealt_after = λ x. k.dealt_after (h.dealt_after x);
  }

  module _ (key : String) where
    translate_record-IsStep :
        (ra : Map String) (rec : LogRecord) (st : LogLoop std cfg)
        → st.returned ≡ false
        → IsStep key st (translate_record std cfg now ra rec st)
    unfolding translate_record
    translate_record-IsStep ra rec st going =
        let evt = otel_log_match (log_event std cfg now ra rec) in
        either_IsStep key (is_below std cfg rec) st _ _ (no_step key st) (λ _.
          either_IsStep key (any_by (λ k. k == dedup_key evt) st.seen) st _ _ (no_step key st) (λ _.
            record {
              true_after = send_log-IsTrue evt st;
              dealt_after = send_log-IsDealt evt key st going;
            }))

    translate_records-IsStep :
        (ra : Map String) (recs : List LogRecord) (st : LogLoop std cfg)
        → IsStep key st (translate_records std cfg now ra recs st)
    unfolding translate_records
    translate_records-IsStep ra [] st = no_step key st
    translate_records-IsStep ra (rec ∷ recs) st =
        either_IsStep key st.returned st _ _ (no_step key st) (λ going.
          steps key st (translate_record std cfg now ra rec st) _
            (translate_record-IsStep ra rec st going) (translate_records-IsStep ra recs _))

    translate_log_scopes-IsStep :
        (ra : Map String) (scopes : List (List LogRecord)) (st : LogLoop std cfg)
        → IsStep key st (translate_log_scopes std cfg now ra scopes st)
    unfolding translate_log_scopes
    translate_log_scopes-IsStep ra [] st = no_step key st
    translate_log_scopes-IsStep ra (recs ∷ scopes) st =
        steps key st (translate_records std cfg now ra recs st) _
          (translate_records-IsStep ra recs st) (translate_log_scopes-IsStep ra scopes _)

    translate_logs-IsStep :
        (rls : List ResourceLogs) (st : LogLoop std cfg)
        → IsStep key st (translate_logs std cfg now rls st)
    unfolding translate_logs
    translate_logs-IsStep [] st = no_step key st
    translate_logs-IsStep (rl ∷ rls) st =
        steps key st
          (translate_log_scopes std cfg now (resource_attrs std rl.resource) rl.scope_logs st) _
          (translate_log_scopes-IsStep (resource_attrs std rl.resource) rl.scope_logs st)
          (translate_logs-IsStep rls _)

  -- the record that is looked for
  module _ (rl : ResourceLogs) (rec : LogRecord)
      (reached : severity_number_for_text cfg.log_filters.min_severity ≤ rec.severity_number) where
    abbrev IsDone : LogLoop std cfg → Type 0
    IsDone st = IsDealt (key_of rl rec) st

    translate_record-IsDone :
        (st : LogLoop std cfg)
        → IsDone (translate_record std cfg now (resource_attrs std rl.resource) rec st)
    unfolding translate_record is_below min_severity send_log
    translate_record-IsDone st =
        let above : is_below std cfg rec ≡ false = ground (arith, reached) in
        rw above (by_key (any_by (λ k. k == key_of rl rec) st.seen) refl)
      where
        by_key :
            (b : Bool)
            → any_by (λ k. k == key_of rl rec) st.seen ≡ b
            → IsDone (
                if b
                then st
                else send_log std cfg
                    (otel_log_match (log_event std cfg now (resource_attrs std rl.resource) rec))
                    st)
        by_key true e = inr e
        by_key false e = inr (ground (arith, eq_refl (key_of rl rec)))

    either_IsDone :
        (b : Bool) (p q : LogLoop std cfg)
        → (b ≡ true → IsDone p)
        → (b ≡ false → IsDone q)
        → IsDone (if b then p else q)
    either_IsDone true p q h k = h refl
    either_IsDone false p q h k = k refl

    translate_records-IsDone :
        (recs : List LogRecord) (st : LogLoop std cfg)
        → Memᴰ rec recs
        → IsDone (translate_records std cfg now (resource_attrs std rl.resource) recs st)
    unfolding translate_records
    translate_records-IsDone [] st m = elim m [ ]
    translate_records-IsDone (x ∷ recs) st (Memᴰ.head e) =
        either_IsDone st.returned st _ (λ over. inl over)
          (λ _.
            let h =
              translate_records-IsStep (key_of rl rec) (resource_attrs std rl.resource) recs _ in
            h.dealt_after (
              subst
                (λ z. IsDone (translate_record std cfg now (resource_attrs std rl.resource) z st)) e
                (translate_record-IsDone st)))
    translate_records-IsDone (x ∷ recs) st (Memᴰ.tail m) =
        either_IsDone st.returned st _ (λ over. inl over) (λ _. translate_records-IsDone recs _ m)

    translate_log_scopes-IsDone :
        (scopes : List (List LogRecord)) (recs : List LogRecord) (st : LogLoop std cfg)
        → Memᴰ recs scopes
        → Memᴰ rec recs
        → IsDone (translate_log_scopes std cfg now (resource_attrs std rl.resource) scopes st)
    unfolding translate_log_scopes
    translate_log_scopes-IsDone [] recs st k m = elim k [ ]
    translate_log_scopes-IsDone (recs' ∷ scopes) recs st (Memᴰ.head e) m =
        let h =
          translate_log_scopes-IsStep (key_of rl rec) (resource_attrs std rl.resource) scopes _ in
        h.dealt_after (translate_records-IsDone recs' st (subst (Memᴰ rec) e m))
    translate_log_scopes-IsDone (recs' ∷ scopes) recs st (Memᴰ.tail k) m =
        translate_log_scopes-IsDone scopes recs _ k m

    translate_logs-IsDone :
        (rls : List ResourceLogs) (recs : List LogRecord) (st : LogLoop std cfg)
        → Memᴰ rl rls
        → Memᴰ recs rl.scope_logs
        → Memᴰ rec recs
        → IsDone (translate_logs std cfg now rls st)
    unfolding translate_logs
    translate_logs-IsDone [] recs st j k m = elim j [ ]
    translate_logs-IsDone (rl' ∷ rls) recs st (Memᴰ.head e) k m =
        (translate_logs-IsStep (key_of rl rec) rls _).dealt_after (
          subst
            (λ z.
              IsDone
                (translate_log_scopes std cfg now (resource_attrs std z.resource) z.scope_logs st))
            e (translate_log_scopes-IsDone rl.scope_logs recs st k m))
    translate_logs-IsDone (rl' ∷ rls) recs st (Memᴰ.tail j) k m =
        translate_logs-IsDone rls recs _ j k m

  -- Every record of a request of logs that is of at least the least severity is not left out: a
  -- signal with the key of its signal is sent, or a cap is set and that many signals are sent.
  pub translate_resource_logs_sends :
      (rls : List ResourceLogs) (rl : ResourceLogs) (recs : List LogRecord) (rec : LogRecord)
      → Memᴰ rl rls
      → Memᴰ recs rl.scope_logs
      → Memᴰ rec recs
      → severity_number_for_text cfg.log_filters.min_severity ≤ rec.severity_number
      → IsSent (key_of rl rec) (translate_resource_logs std cfg now rls).events
        ⊎ ((0 < cfg.log_filters.max_signals_per_request)
            × (cfg.log_filters.max_signals_per_request
                ≤ (translate_resource_logs std cfg now rls).emitted))
  unfolding translate_resource_logs
  translate_resource_logs_sends rls rl recs rec j k m reached =
      let start : LogLoop std cfg = record { seen = []; sent = nothing_sent; returned = false } in
      let h =
        (translate_logs-IsStep (key_of rl rec) rls start).true_after (record {
          sent = λ key none. ground (arith, none);
          full = λ none. ground (arith, none);
        }) in
      elim (translate_logs-IsDone rl rec reached rls recs start j k m) [
        | inl over ↦ inr (h.full over)
        | inr seen ↦ inl (h.sent (key_of rl rec) seen)
      ]
