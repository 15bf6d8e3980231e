-- ===== src/Reporter/Find.antt =====
-- The three lookups of internal/reporter/cr_reporter.go that decide which report a signal belongs
-- to: findOpenIncident, findResolvableIncident and findExistingByWorkloadRef.
use rca_operator.Base.{
  ℕ, ◌+◌, String, Bool, true, false, not, ◌&&◌, ◌||◌, Option, none, some, List, [], ◌∷◌, any_by,
  find_by, ltb, if◌then◌else◌, ◌==◌,
}
use rca_operator.Base.Maps.{lookup}
use rca_operator.Incident.Report.{AffectedResource, IncidentObjectRef, IncidentReport}
use rca_operator.Incident.Input.{is_otel_incident_type}
use rca_operator.Incident.Status.{effective_resolved_time, phase_resolved}
use rca_operator.Reporter.Api.{Api}
use rca_operator.Reporter.Fingerprint.{report_fingerprint}
use rca_operator.Reporter.State.{Found, broken, absent, present, State, remember, forget}
use rca_operator.Reporter.Write.{report_incident_type}

-- ReopenWindow: 30 minutes
abbrev pub reopen_window : ℕ
reopen_window = 1800000000000

abbrev pub is_resolved : IncidentReport → Bool
is_resolved report = report.status.phase == phase_resolved

-- the condition under which the loop of findOpenIncident returns the report
unfoldable pub is_open_for : String → IncidentReport → Bool
is_open_for fingerprint report =
    not (is_resolved report) && (report_fingerprint report == fingerprint)

abbrev found : Option IncidentReport → Found
found none = absent
found (some r) = present r

-- `bestResolvedAt`: `best == nil || resolvedAt.After(bestResolvedAt)`
abbrev is_later : ℕ → Option ℕ → Bool
is_later t none = true
is_later t (some u) = ltb u t

abbrev best_time : Option IncidentReport → Option ℕ
best_time none = none
best_time (some r) = effective_resolved_time r.status

-- the body of the loop of findResolvableIncident on a report that is resolved at `t`
abbrev reopenable : ℕ → Option ℕ → Bool
reopenable now none = false
reopenable now (some t) = not (ltb (t + reopen_window) now)

abbrev resolved_later : Option ℕ → Option IncidentReport → Bool
resolved_later none best = false
resolved_later (some t) best = is_later t (best_time best)

unfoldable pub is_candidate : ℕ → String → IncidentReport → Bool
is_candidate now fingerprint report =
    is_resolved report
    && ((report_fingerprint report == fingerprint)
        && reopenable now (effective_resolved_time report.status))

-- the loop of findResolvableIncident
unfoldable pub latest_resolved :
    ℕ → String → Option IncidentReport → List IncidentReport → Option IncidentReport
unfolding is_candidate
latest_resolved now fingerprint best [] = best
latest_resolved now fingerprint best (report ∷ rs) =
    let better =
      is_candidate now fingerprint report
      && resolved_later (effective_resolved_time report.status) best in
    latest_resolved now fingerprint (if better then some report else best) rs

abbrev refers_to : IncidentObjectRef → Option IncidentObjectRef → Bool
refers_to w none = false
refers_to w (some ref) =
    (ref.kind == w.kind) && ((ref.namespace == w.namespace) && (ref.name == w.name))

abbrev covers : IncidentObjectRef → AffectedResource → Bool
covers w res = (res.kind == w.kind) && ((res.namespace == w.namespace) && (res.name == w.name))

-- reportMatchesWorkloadRef on a ref that is not nil
unfoldable pub report_matches_workload_ref : IncidentReport → IncidentObjectRef → String → Bool
unfolding report_incident_type
report_matches_workload_ref report w incoming =
    if is_otel_incident_type incoming && not (is_otel_incident_type (report_incident_type report))
    then false
    else refers_to w report.spec.scope.workload_ref
      || any_by (covers w) report.status.affected_resources

-- the loop of findExistingByWorkloadRef for bestResolved
unfoldable pub latest_matching :
    (IncidentReport → Bool) → Option IncidentReport → List IncidentReport → Option IncidentReport
latest_matching matches best [] = best
latest_matching matches best (report ∷ rs) =
    let better =
      matches report
      && (is_resolved report && resolved_later (effective_resolved_time report.status) best) in
    latest_matching matches (if better then some report else best) rs

abbrev or_resolved : Option IncidentReport → Option IncidentReport → Option IncidentReport
or_resolved none resolved = resolved
or_resolved (some r) resolved = some r

-- what findExistingByWorkloadRef returns for the listed reports: bestOpen, else bestResolved
unfoldable pub existing_in :
    IncidentObjectRef → String → List IncidentReport → Option IncidentReport
existing_in w incoming reports =
    let matches : IncidentReport → Bool = λ r. report_matches_workload_ref r w incoming in
    or_resolved (find_by (λ r. matches r && not (is_resolved r)) reports)
      (latest_matching matches none reports)

module _ (api : Api) where
  -- List by the hash, and over the namespace where that returns nothing
  unfoldable pub list_candidates : String → String → api.World → Option (List IncidentReport)
  list_candidates namespace hash w = elim (api.list_hash namespace hash w) [
    | none ↦ none
    | some [] ↦ api.list namespace w
    | some (r ∷ rs) ↦ some (r ∷ rs)
  ]

  -- the cached report, where it is still open and has the fingerprint
  unfoldable pub cached_open : String → State api → Option IncidentReport
  cached_open fingerprint s = elim (lookup fingerprint s.open_by_fingerprint) [
    | none ↦ none
    | some ref ↦ elim (api.get ref.namespace ref.name s.world) [
      | none ↦ none
      | some report ↦ if is_open_for fingerprint report then some report else none
    ]
  ]

  abbrev scanned : String → Option IncidentReport → State api → State api × Found
  scanned fingerprint none s = (s, absent)
  scanned fingerprint (some r) s = (remember api fingerprint r s, present r)

  -- findOpenIncident after the cache; forgetting a key that is not there changes nothing
  unfoldable pub scan_open : String → String → String → State api → State api × Found
  scan_open namespace fingerprint hash s = elim (list_candidates namespace hash s.world) [
    | none ↦ (s, broken)
    | some reports ↦ scanned fingerprint (find_by (is_open_for fingerprint) reports) s
  ]

  unfoldable pub find_open_incident : String → String → String → State api → State api × Found
  find_open_incident namespace fingerprint hash s = elim (cached_open fingerprint s) [
    | some report ↦ (s, present report)
    | none ↦ scan_open namespace fingerprint hash (forget api fingerprint s)
  ]

  unfoldable pub find_resolvable_incident : ℕ → String → String → String → State api → Found
  find_resolvable_incident now namespace fingerprint hash s =
      elim (list_candidates namespace hash s.world) [
        | none ↦ broken
        | some reports ↦ found (latest_resolved now fingerprint none reports)
      ]

  unfoldable pub find_existing_by_workload_ref :
      String → String → Option IncidentObjectRef → State api → Found
  find_existing_by_workload_ref namespace incoming none s = absent
  find_existing_by_workload_ref namespace incoming (some w) s =
      let listed : Found = elim (api.list namespace s.world) [
        | none ↦ broken
        | some reports ↦ found (existing_in w incoming reports)
      ] in
      if w.name == "" then absent else listed
