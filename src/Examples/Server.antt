-- ===== src/Examples/Server.antt =====
-- An API server that keeps its reports in a list: it has the behaviour that the reporter relies on.
use Prim.Native.String.{◌++◌}
use mathlib.Core.List.{◌++◌ as ◌append◌}
use mathlib.Core.Option.{some-injective, none-ne-some}
use rca_operator.Base.{
  ◌≡◌, refl, sym, subst, true, false, Option, none, some, List, [], ◌∷◌, map, All, arith, any_by,
  filter_by, find_by, if◌then◌else◌, ◌==◌, ◌&&◌, Bool-cases, inl, inr,
}
use rca_operator.Base.Members.{find_by-some}
use rca_operator.Incident.Report.{IncidentReport, empty_status}
use rca_operator.Reporter.Api.{Api, ApiLaws, same_object, with_meta, with_status}
use rca_operator.Reporter.State.{State}

-- a created object has the generated name and an empty status
abbrev stored : IncidentReport → IncidentReport
stored r = record r { name = r.name ++ "x"; status = empty_status }

abbrev pub server_create :
    IncidentReport → List IncidentReport → Option (IncidentReport × List IncidentReport)
server_create r w =
    if any_by (λ x. same_object x (stored r)) w
    then none
    else some (stored r, w append stored r ∷ [])

abbrev pub server : Api
server = record {
  World = List IncidentReport;
  list = λ ns w. some (filter_by (λ r. r.namespace == ns) w);
  list_hash = λ ns hash w.
      some (filter_by (λ r. (r.namespace == ns) && (r.labels.fingerprint_hash == hash)) w);
  list_all = λ w. some w;
  get = λ ns name w. find_by (λ r. (r.namespace == ns) && (r.name == name)) w;
  create = server_create;
  patch = λ r w. some (map (with_meta r) w);
  patch_status = λ r w. some (map (with_status r) w);
}

none_same :
    (r : IncidentReport) (w : List IncidentReport)
    → any_by (λ x. same_object x r) w ≡ false
    → All (λ x. same_object x r ≡ false) w
none_same r [] h = tt
none_same r (x ∷ w) h = (ground arith, none_same r w (ground arith))

abbrev Written :
    IncidentReport → List IncidentReport → IncidentReport → List IncidentReport → Type 0
Written r w r' w' =
    (w' ≡ w append r' ∷ [])
    × (r'.namespace ≡ r.namespace)
    × (r'.labels ≡ r.labels)
    × (r'.spec ≡ r.spec)
    × (r'.status ≡ empty_status)
    × All (λ x. same_object x r' ≡ false) w

pub create-Written :
    (r r' : IncidentReport) (w w' : List IncidentReport)
    → server_create r w ≡ some (r', w')
    → Written r w r' w'
create-Written r r' w w' h =
    let target : IncidentReport × List IncidentReport = (r', w') in
    let made : IncidentReport × List IncidentReport = (stored r, w append stored r ∷ []) in
    elim (Bool-cases (any_by (λ x. same_object x (stored r)) w)) [
      | inl taken ↦ absurd (none-ne-some target (ground (arith, taken)))
      | inr free ↦
          let sent : some made ≡ some target = ground (arith, free) in
          subst (λ p. Written r w p.0 p.1) (some-injective made target sent)
            (refl, refl, refl, refl, refl, none_same (stored r) w free)
    ]

abbrev pub server_laws : ApiLaws server
server_laws = record {
  reports = λ w. w;
  list_law = λ ns w l h. ground arith;
  list_all_law = λ w l h. sym (some-injective w l h);
  list_hash_law = λ ns hash w l h. ground arith;
  get_law = λ ns name w r h. (find_by-some _ w r h).0;
  create_law = λ r r' w w' h. create-Written r r' w w' h;
  patch_law = λ r w w' h. ground arith;
  patch_status_law = λ r w w' h. ground arith;
}

abbrev pub start : State server
start = record { world = []; open_by_fingerprint = []; recorder = true; emitted = [] }
