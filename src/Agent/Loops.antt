-- ===== src/Agent/Loops.antt =====
-- An invariant of the loops over namespaces and reports of
-- internal/controller/rcaagent_controller.go.
use rca_operator.Base.{String, ◌≡◌, refl, Option, none, some, List, [], ◌∷◌, All}
use rca_operator.Incident.Report.{IncidentReport}
use rca_operator.Reporter.Api.{Api}
use rca_operator.Reporter.State.{Reply, done, failed}
use rca_operator.Agent.{
  Progress, unless_failed, over_reports, over_listed, over_namespaces, over_known,
}

-- A body of the loop that keeps P for the reports with Q, and the listed reports have Q.
module _ (api : Api) (P : api.World → Type 0) (Q : IncidentReport → Type 0)
    (step : IncidentReport → Progress api → Progress api)
    (listed : (ns : String) (w : api.World) (l : List IncidentReport)
      → P w
      → api.list ns w ≡ some l
      → All Q l)
    (keeps : (r : IncidentReport) (p : Progress api) → Q r → P p.world → P (step r p).world) where
  unless_failed-keeps :
      (reply : Reply) (p q : Progress api)
      → P p.world
      → P q.world
      → P (unless_failed api reply p q).world
  unfolding unless_failed
  unless_failed-keeps failed p q h k = h
  unless_failed-keeps done p q h k = k

  over_reports-keeps :
      (l : List IncidentReport) (p : Progress api)
      → All Q l
      → P p.world
      → P (over_reports api step l p).world
  unfolding over_reports
  over_reports-keeps [] p q h = h
  over_reports-keeps (r ∷ l) p q h =
      over_reports-keeps l _ q.1 (unless_failed-keeps p.reply p (step r p) h (keeps r p q.0 h))

  over_listed-keeps :
      (ns : String) (o : Option (List IncidentReport)) (p : Progress api)
      → api.list ns p.world ≡ o
      → P p.world
      → P (over_listed api step o p).world
  unfolding over_listed
  over_listed-keeps ns none p e h = h
  over_listed-keeps ns (some l) p e h = over_reports-keeps l p (listed ns p.world l h e) h

  over_namespaces-keeps :
      (namespaces : List String) (p : Progress api)
      → P p.world
      → P (over_namespaces api step namespaces p).world
  unfolding over_namespaces
  over_namespaces-keeps [] p h = h
  over_namespaces-keeps (ns ∷ namespaces) p h =
      over_namespaces-keeps namespaces _
        (unless_failed-keeps p.reply p _ h (over_listed-keeps ns _ p refl h))

  pub over_known-keeps :
      (o : Option (List String)) (p : Progress api) → P p.world → P (over_known api step o p).world
  unfolding over_known
  over_known-keeps none p h = h
  over_known-keeps (some namespaces) p h = over_namespaces-keeps namespaces p h
