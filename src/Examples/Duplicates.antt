-- ===== src/Examples/Duplicates.antt =====
-- Consolidation at a concrete cluster: two open reports of one incident.
use mathlib.Core.List.{Memᴰ}
use rca_operator.Base.{◌≡◌, refl, false, List, [], ◌∷◌, map}
use rca_operator.Base.Entries.{Entries}
use rca_operator.Base.Maps.{lookup, put}
use rca_operator.Base.Join.{join}
use rca_operator.Base.Texts.{
  char_or, has_prefix, lower_char, to_lower, trim_last, trim_left, trim_right, trim_space,
}
use rca_operator.Incident.Input.{is_otel_incident_type, scope_parts}
use rca_operator.Incident.Report.{IncidentReport}
use rca_operator.Incident.Resources.{merge_affected_resources, append_if_missing, has_resource}
use rca_operator.Incident.Status.{mark_resolved, append_timeline, effective_start_time}
use rca_operator.Reporter.Consolidate.{
  is_skipped, group_reports, group_key, grow, grown, merge_extras, set_written, backfill,
  resolve_extras, merge_group, consolidate_group, consolidate_groups, consolidate_listed,
  consolidate,
}
use rca_operator.Reporter.Consolidate.Groups.{IsGroup, IsGrouped, group_reports-IsGroup}
use rca_operator.Reporter.Fingerprint.{
  report_fingerprint, strip_legacy_type, before, has_scope_level, resource_fingerprint,
}
use rca_operator.Reporter.State.{State}
use rca_operator.Examples.Lifecycle.{active_report, detecting_report}
use rca_operator.Examples.Server.{server, start}

abbrev newer : IncidentReport
newer = record detecting_report { name = "oomkilled-cart-2"; created = 5 }

abbrev listed : List IncidentReport
listed = newer ∷ active_report ∷ []

newer_open : is_skipped newer ≡ false
unfolding is_skipped report_fingerprint strip_legacy_type before is_otel_incident_type trim_space
newer_open = refl

group_reports-IsGroup_example :
    IsGrouped (group_reports listed []) newer × Entries (IsGroup listed) (group_reports listed [])
group_reports-IsGroup_example = group_reports-IsGroup listed newer (Memᴰ.head refl) newer_open

abbrev two_open : State server
two_open = record start { world = listed }

-- the older report stays open, and the other one is resolved
newer_resolved :
    map (λ x. x.status.phase) (consolidate server 100 two_open).0.world ≡ "Resolved" ∷ "Active" ∷ []
unfolding consolidate consolidate_listed consolidate_groups group_reports is_skipped
    report_fingerprint is_otel_incident_type trim_space put group_key consolidate_group merge_group
    grown lookup grow resolve_extras set_written mark_resolved join char_or has_prefix lower_char
    to_lower trim_last trim_left trim_right scope_parts append_if_missing has_resource
    merge_affected_resources append_timeline effective_start_time backfill merge_extras before
    has_scope_level resource_fingerprint strip_legacy_type
newer_resolved = refl
