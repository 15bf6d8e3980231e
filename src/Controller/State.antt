-- ===== src/Controller/State.antt =====
-- The struct IncidentReportReconciler of internal/controller/incidentreport_controller.go, and what
-- a reconciliation returns and sends.
use rca_operator.Base.{ℕ, String, Bool, Option, List, [], ◌∷◌, ◌++◌}
use rca_operator.Incident.Report.{IncidentReport}
use rca_operator.Incident.Status.{Metric}
use rca_operator.Controller.Cluster.{Lookup, Cluster}
use rca_operator.Reporter.Api.{Api}

-- ctrl.Result and error
pub data Result : Type 0 where
  failed : Result
  done : Result
  requeue : ℕ → Result

-- What leaves the controller: a notification with its action, or a counted transition.
pub data Sent : Type 0 where
  notification : String → IncidentReport → Sent
  transition : Metric → Sent

module _ (api : Api) where
  -- What the reconciler is built with: the client's Get with its two kinds of failure, the graph
  -- builder (none: there is none, it fails, or the graph is empty), and the notifier (none: there is
  -- none; false: the call fails).
  pub record Reconciler : Type 0 where
    pub fetch : String → String → api.World → Lookup IncidentReport
    pub build_graph : IncidentReport → Option String
    pub notifier : Option (String → IncidentReport → Bool)
    pub cluster : Cluster
    pub parse_rfc3339 : String → Option ℕ

  pub record State : Type 0 where
    pub world : api.World
    pub sent : List Sent

  abbrev pub set_world : api.World → State → State
  set_world w s = record s { world = w }

  abbrev pub send : Sent → State → State
  send m s = record s { sent = s.sent ++ m ∷ [] }
