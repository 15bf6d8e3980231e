-- ===== src/Examples/Reports.antt =====
-- The reporter at concrete signals.
use mathlib.Core.Bool.{false≢true}
use rca_operator.Base.{◌≡◌, ◌≢◌, ◌≤◌, refl, [], ◌∷◌, arith, path→eq, length, sym, ◌∙◌}
use rca_operator.Base.Decimal.{itoa}
use rca_operator.Base.Join.{join}
use rca_operator.Base.Maps.{lookup}
use rca_operator.Base.Texts.{to_lower, has_prefix, lower_char}
use rca_operator.Incident.Report.{empty_status}
use rca_operator.Incident.Input.{fingerprint, scope_parts}
use rca_operator.Incident.Resources.{IsDistinct, has_resource}
use rca_operator.Reporter.Bounds.{increment_counter-itoa, update_status-bounds}
use rca_operator.Reporter.Ensure.{
  ensure_signal, with_defaults, ensure_found, ensure_not_open, ensure_by_workload, create_incident,
  patch_status_then,
}
use rca_operator.Reporter.Find.{
  find_open_incident, cached_open, scan_open, list_candidates, find_resolvable_incident,
  latest_resolved, find_existing_by_workload_ref, existing_in, latest_matching,
}
use rca_operator.Reporter.Opens.{HasOpen, ensure_signal_opens}
use rca_operator.Reporter.State.{done}
use rca_operator.Reporter.Fingerprint.{strip_legacy_type, before}
use rca_operator.Reporter.Text.{increment_counter}
use rca_operator.Reporter.Unique.Ensure.{IsSoundState, ensure_signal-IsSound}
use rca_operator.Reporter.Write.{update_status, initial_report}
use rca_operator.Examples.Data.{pod_resource, input_example, platform_example}
use rca_operator.Examples.Server.{server, server_laws, start}

one_resource : IsDistinct (pod_resource ∷ [])
unfolding has_resource
one_resource = (refl, tt)

increment_counter-itoa_example : increment_counter (itoa 41) ≡ itoa 42
increment_counter-itoa_example = increment_counter-itoa 41 (omega arith)

update_status-bounds_example :
    (length (update_status empty_status "OOMKilled" input_example).timeline ≤ 50)
    × (length (update_status empty_status "OOMKilled" input_example).correlated_signals ≤ 20)
    × IsDistinct (update_status empty_status "OOMKilled" input_example).affected_resources
update_status-bounds_example = update_status-bounds empty_status "OOMKilled" input_example tt

input_fingerprint : fingerprint input_example ≡ "Workload|shop|deployment|cart"
unfolding fingerprint scope_parts join to_lower lower_char
input_fingerprint = refl

pub input_named : fingerprint input_example ≢ ""
input_named h = false≢true (path→eq "Workload|shop|deployment|cart" "" (sym input_fingerprint ∙ h))

pub input_bare : strip_legacy_type (fingerprint input_example) ≡ fingerprint input_example
unfolding strip_legacy_type before has_prefix
input_bare = rw input_fingerprint refl

start-IsSound : IsSoundState server server_laws platform_example start
start-IsSound = record { current = λ x m. elim m [ ]; unique = λ x y m k. elim m [ ] }

-- two signals one after the other, the second of which finds the report of the first
ensure_signal-IsSound_example :
    IsSoundState server server_laws platform_example
      (ensure_signal server platform_example 200 input_example
        (ensure_signal server platform_example 100 input_example start).0).0
ensure_signal-IsSound_example =
    ensure_signal-IsSound server server_laws platform_example 200 input_example
      (ensure_signal server platform_example 100 input_example start).0
      (ensure_signal-IsSound server server_laws platform_example 100 input_example start
        start-IsSound input_named input_bare)
      input_named input_bare

first_signal_done : (ensure_signal server platform_example 100 input_example start).1 ≡ done
unfolding ensure_signal with_defaults ensure_found find_open_incident cached_open scan_open
    list_candidates find_resolvable_incident latest_resolved ensure_not_open
    find_existing_by_workload_ref existing_in latest_matching ensure_by_workload create_incident
    patch_status_then initial_report lookup
first_signal_done = refl

ensure_signal_opens_example :
    HasOpen
      (fingerprint input_example)
      (ensure_signal server platform_example 100 input_example start).0.world
ensure_signal_opens_example =
    ensure_signal_opens server server_laws platform_example 100 input_example start
      first_signal_done
