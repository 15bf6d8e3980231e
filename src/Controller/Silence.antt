-- ===== src/Controller/Silence.antt =====
-- What internal/controller/incidentreport_controller.go takes for silence about an incident, from the
-- fields of its report, and that the reads of the controller agree with it.
use rca_operator.Base.{
  test_fails, ℕ, ◌+◌, ◌*◌, ◌≤◌, ◌<◌, ◌≡◌, ◌≢◌, ◌⊎◌, refl, Bool, true, false, Option, some, none,
  ltb, if◌then◌else◌, inl, inr, arith, String, ◌==◌, eq→path,
}
use rca_operator.Controller.Paths.{Facts, facts}
use rca_operator.Controller.Reconcile.{last_confirmed}
use rca_operator.Controller.State.{Reconciler}
use rca_operator.Controller.Transitions.{last_seen, stabilization_window}
use rca_operator.Incident.Report.{IncidentReport}
use rca_operator.Incident.Status.{first_some, effective_start_time}
use rca_operator.Reporter.Api.{Api}

-- the instant from which the incident exists
abbrev pub IsStart : Facts → ℕ → Type 0
IsStart f t =
    (f.first_observed_at ≡ some t) ⊎ ((f.first_observed_at ≡ none) × (f.start_time ≡ some t))

-- the window of the report in nanoseconds, or 30 seconds
abbrev pub IsWindow : Facts → ℕ → Type 0
IsWindow f w =
    ((0 < f.stabilization_window_seconds) × (w ≡ f.stabilization_window_seconds * 1000000000))
    ⊎ ((f.stabilization_window_seconds ≡ 0) × (w ≡ 30 * 1000000000))

module _ (parse : String → Option ℕ) where
  -- the instant of the annotation for the last signal
  abbrev pub IsSeen : Facts → ℕ → Type 0
  IsSeen f t = (f.last_seen ≢ "") × (parse f.last_seen ≡ some t)

  -- the last instant at which something confirmed the incident
  abbrev pub IsConfirmed : Facts → ℕ → Type 0
  IsConfirmed f t =
      (f.last_observed_at ≡ some t)
      ⊎ ((f.last_observed_at ≡ none) × (IsSeen f t ⊎ (((u : ℕ) → ¬ IsSeen f u) × IsStart f t)))

  -- An incident under detection whose window is over, and no signal was seen within the window.
  pub record IsPassing (now : ℕ) (f : Facts) : Type 0 where
    pub detecting : f.phase ≡ "Detecting"
    pub first : ℕ
    pub window : ℕ
    pub started : IsStart f first
    pub windowed : IsWindow f window
    pub over : first + window ≤ now
    pub unseen : (t : ℕ) → IsSeen f t → t + window ≤ now

  -- An active incident that nothing has confirmed for five minutes.
  pub record IsIdle (now : ℕ) (f : Facts) : Type 0 where
    pub active : f.phase ≡ "Active"
    pub last : ℕ
    pub confirmed : IsConfirmed f last
    pub idle : last + 5 * 60 * 1000000000 ≤ now

  abbrev pub MayClose : ℕ → Facts → Type 0
  MayClose now f = (f.present ≡ some false) × (IsPassing now f ⊎ IsIdle now f)

module _ (api : Api) (r : Reconciler api) where
  abbrev pub SeenCase : Facts → Option ℕ → Type 0
  SeenCase f none = (t : ℕ) → ¬ IsSeen r.parse_rfc3339 f t
  SeenCase f (some t) = IsSeen r.parse_rfc3339 f t

  abbrev pub StartCase : Facts → Option ℕ → Type 0
  StartCase f none = Unit
  StartCase f (some t) = IsStart f t

  pub seen : (y : IncidentReport) → SeenCase (facts r.cluster y) (last_seen api r y)
  unfolding last_seen
  seen y = by_text (y.annotations.last_seen == "") refl
    where
      parsed :
          (o : Option ℕ)
          → r.parse_rfc3339 y.annotations.last_seen ≡ o
          → y.annotations.last_seen ≢ ""
          → SeenCase (facts r.cluster y) o
      parsed none e given = λ t h. ground (arith, e, h.1)
      parsed (some t) e given = (given, e)

      by_text :
          (b : Bool)
          → (y.annotations.last_seen == "") ≡ b
          → SeenCase
              (facts r.cluster y)
              (if b then none else r.parse_rfc3339 y.annotations.last_seen)
      by_text true e = λ t h. h.0 (eq→path _ _ e)
      by_text false e = parsed _ refl (test_fails _ _ e)

  pub started : (y : IncidentReport) → StartCase (facts r.cluster y) (effective_start_time y.status)
  unfolding effective_start_time
  started y = first_of y.status.first_observed_at y.status.start_time refl refl
    where
      first_of :
          (a b : Option ℕ)
          → y.status.first_observed_at ≡ a
          → y.status.start_time ≡ b
          → StartCase (facts r.cluster y) (first_some a b)
      first_of (some t) b e k = inl e
      first_of none (some t) e k = inr (e, k)
      first_of none none e k = tt

  pub stabilization_window-IsWindow :
      (y : IncidentReport) → IsWindow (facts r.cluster y) (stabilization_window y)
  unfolding stabilization_window
  stabilization_window-IsWindow y = by_test (ltb 0 y.status.stabilization_window_seconds) refl
    where
      by_test :
          (b : Bool)
          → ltb 0 y.status.stabilization_window_seconds ≡ b
          → IsWindow
              (facts r.cluster y)
              (if b then y.status.stabilization_window_seconds * 1000000000 else 30000000000)
      by_test true e = inl (ground (arith, e), refl)
      by_test false e = inr (ground (arith, e), refl)

  pub last_confirmed-cases :
      (now : ℕ) (y : IncidentReport)
      → IsConfirmed r.parse_rfc3339 (facts r.cluster y) (last_confirmed api r now y)
        ⊎ (last_confirmed api r now y ≡ now)
  unfolding last_confirmed
  last_confirmed-cases now y =
      latest y.status.last_observed_at (last_seen api r y) (effective_start_time y.status) refl
        (seen y) (started y)
    where
      latest :
          (o a b : Option ℕ)
          → y.status.last_observed_at ≡ o
          → SeenCase (facts r.cluster y) a
          → StartCase (facts r.cluster y) b
          → let last : ℕ = elim o [
            | some t ↦ t
            | none ↦ elim (first_some a b) [ some t ↦ t | none ↦ now ]
          ] in
            IsConfirmed r.parse_rfc3339 (facts r.cluster y) last ⊎ (last ≡ now)
      latest (some t) a b e s k = inl (inl e)
      latest none (some t) b e s k = inl (inr (e, inl s))
      latest none none (some t) e s k = inl (inr (e, inr (s, k)))
      latest none none none e s k = inr refl
