-- ===== src/Reporter/Api.antt =====
-- The Kubernetes client of the reporter, as a parameter. A call that fails returns none and leaves
-- the world as it was; every error of Get is treated alike by the reporter.
use rca_operator.Base.{
  String, ◌≡◌, Bool, false, ◌&&◌, Option, some, List, [], ◌∷◌, ◌++◌, map, All, filter_by,
  if◌then◌else◌, ◌==◌,
}
use mathlib.Core.List.{Memᴰ}
use rca_operator.Incident.Report.{IncidentReport, empty_status}

pub record Api : Type 1 where
  pub World : Type 0
  -- List with client.InNamespace, and with client.MatchingLabels on the fingerprint hash too
  pub list : String → World → Option (List IncidentReport)
  pub list_hash : String → String → World → Option (List IncidentReport)
  -- List over all namespaces
  pub list_all : World → Option (List IncidentReport)
  pub get : String → String → World → Option IncidentReport
  -- the created object, with its generated name
  pub create : IncidentReport → World → Option (IncidentReport × World)
  -- Patch sends metadata and spec, Status().Patch the status
  pub patch : IncidentReport → World → Option World
  pub patch_status : IncidentReport → World → Option World

-- One object of the API server: namespace and name.
abbrev pub same_object : IncidentReport → IncidentReport → Bool
same_object a b = (a.namespace == b.namespace) && (a.name == b.name)

abbrev pub with_meta : IncidentReport → IncidentReport → IncidentReport
with_meta r x =
    if same_object x r
    then record x { labels = r.labels; annotations = r.annotations; spec = r.spec }
    else x

abbrev pub with_status : IncidentReport → IncidentReport → IncidentReport
with_status r x = if same_object x r then record x { status = r.status } else x

-- What the reporter relies on: the calls read and write one collection of reports, each object of
-- which has its own namespace and name. A merge patch writes the fields that the reporter changed;
-- the other fields are those that it read. A created object starts with an empty status.
pub record ApiLaws (api : Api) : Type 0 where
  pub reports : api.World → List IncidentReport
  pub list_law :
      (ns : String) (w : api.World) (l : List IncidentReport)
      → api.list ns w ≡ some l
      → l ≡ filter_by (λ r. r.namespace == ns) (reports w)
  pub list_all_law :
      (w : api.World) (l : List IncidentReport) → api.list_all w ≡ some l → l ≡ reports w
  pub list_hash_law :
      (ns hash : String) (w : api.World) (l : List IncidentReport)
      → api.list_hash ns hash w ≡ some l
      → l ≡ filter_by (λ r. (r.namespace == ns) && (r.labels.fingerprint_hash == hash)) (reports w)
  pub get_law :
      (ns name : String) (w : api.World) (r : IncidentReport)
      → api.get ns name w ≡ some r
      → Memᴰ r (reports w)
  pub create_law :
      (r r' : IncidentReport) (w w' : api.World)
      → api.create r w ≡ some (r', w')
      → (reports w' ≡ reports w ++ r' ∷ [])
        × (r'.namespace ≡ r.namespace)
        × (r'.labels ≡ r.labels)
        × (r'.spec ≡ r.spec)
        × (r'.status ≡ empty_status)
        × All (λ x. same_object x r' ≡ false) (reports w)
  pub patch_law :
      (r : IncidentReport) (w w' : api.World)
      → api.patch r w ≡ some w'
      → reports w' ≡ map (with_meta r) (reports w)
  pub patch_status_law :
      (r : IncidentReport) (w w' : api.World)
      → api.patch_status r w ≡ some w'
      → reports w' ≡ map (with_status r) (reports w)
