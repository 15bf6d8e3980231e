-- ===== src/Reporter/Consolidate.antt =====
-- Consolidate of internal/reporter/cr_reporter.go: open reports of one namespace and fingerprint are
-- merged into the oldest of them. Errors of the writes are only logged.
pub mod Groups
pub mod Quiet
use Prim.Native.String.{◌++◌}
use mathlib.Core.List.{◌++◌ as ◌append◌}
use rca_operator.Base.{
  ℕ, String, Bool, true, false, Option, none, some, List, [], ◌∷◌, ltb, if◌then◌else◌, ◌==◌, ◌||◌,
}
use rca_operator.Base.Maps.{Map, lookup, put}
use rca_operator.Incident.Report.{IncidentReport, AffectedResource}
use rca_operator.Incident.Resources.{merge_affected_resources}
use rca_operator.Incident.Status.{mark_resolved}
use rca_operator.Reporter.Api.{Api}
use rca_operator.Reporter.Find.{is_resolved}
use rca_operator.Reporter.Fingerprint.{report_fingerprint}
use rca_operator.Reporter.Resolve.{emit_all}
use rca_operator.Reporter.State.{Reply, done, failed, State, remember, set_world}

pub record Group : Type 0 where
  pub canonical : IncidentReport
  pub extras : List IncidentReport

unfoldable pub group_key : IncidentReport → String
group_key item = item.namespace ++ "/" ++ report_fingerprint item

-- a report of a group that exists
unfoldable pub grow : IncidentReport → Group → Group
grow item g =
    if ltb item.created g.canonical.created
    then record { canonical = item; extras = g.extras append g.canonical ∷ [] }
    else record g { extras = g.extras append item ∷ [] }

unfoldable pub grown : IncidentReport → Option Group → Group
grown item none = record { canonical = item; extras = [] }
grown item (some g) = grow item g

-- the `continue`s
unfoldable pub is_skipped : IncidentReport → Bool
is_skipped item = is_resolved item || (report_fingerprint item == "")

-- the loop that builds the groups
unfoldable pub group_reports : List IncidentReport → Map Group → Map Group
group_reports [] groups = groups
group_reports (item ∷ items) groups =
    let key = group_key item in
    let next = put key (grown item (lookup key groups)) groups in
    group_reports items (if is_skipped item then groups else next)

unfoldable pub merge_extras : List IncidentReport → List AffectedResource → List AffectedResource
merge_extras [] out = out
merge_extras (extra ∷ extras) out =
    merge_extras extras (merge_affected_resources out extra.status.affected_resources)

module _ (api : Api) where
  unfoldable pub set_written : Option api.World → State api → State api
  set_written none s = s
  set_written (some w) s = set_world api w s

  -- the back-fill of the fingerprint, with the report as it is left
  unfoldable pub backfill : String → IncidentReport → State api → IncidentReport × State api
  backfill fp report s =
      let filled = record report { spec = record report.spec { fingerprint = fp } } in
      let written = set_written (api.patch filled s.world) s in
      if report.spec.fingerprint == "" then (filled, written) else (report, s)

  unfoldable pub resolve_extras : ℕ → String → List IncidentReport → State api → State api
  resolve_extras now name [] s = s
  resolve_extras now name (extra ∷ extras) s =
      let (resolved, metrics) =
        mark_resolved extra now
          ("Merged into canonical incident " ++ name ++ " during startup consolidation") in
      let counted = emit_all api metrics s in
      resolve_extras now name extras (set_written (api.patch_status resolved counted.world) counted)

  -- the rest of the body of the loop over the groups, which does nothing for a group of one
  unfoldable pub merge_group : ℕ → IncidentReport → List IncidentReport → State api → State api
  merge_group now canonical [] s = s
  merge_group now canonical (extra ∷ extras) s =
      let merged = record canonical {
        status = record canonical.status {
          affected_resources = merge_extras (extra ∷ extras) canonical.status.affected_resources;
        };
      } in
      resolve_extras now canonical.name (extra ∷ extras)
        (set_written (api.patch_status merged s.world) s)

  unfoldable pub consolidate_group : ℕ → Group → State api → State api
  consolidate_group now g s =
      let fp = report_fingerprint g.canonical in
      let (canonical, filled) = backfill fp g.canonical (remember api fp g.canonical s) in
      merge_group now canonical g.extras filled

  unfoldable pub consolidate_groups : ℕ → Map Group → State api → State api
  consolidate_groups now [] s = s
  consolidate_groups now ((k, g) ∷ groups) s =
      consolidate_groups now groups (consolidate_group now g s)

  unfoldable pub consolidate_listed :
      ℕ → Option (List IncidentReport) → State api → State api × Reply
  consolidate_listed now none s = (s, failed)
  consolidate_listed now (some l) s = (consolidate_groups now (group_reports l []) s, done)

  unfoldable pub consolidate : ℕ → State api → State api × Reply
  consolidate now s = consolidate_listed now (api.list_all s.world) s
