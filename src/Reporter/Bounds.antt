-- ===== src/Reporter/Bounds.antt =====
-- What bounds the fields of a report: the severity only rises, the lists that grow with each signal
-- stay within their limits, and no affected object is named twice.
use Prim.Native.String.{◌++◌ as ◌joined◌}
use rca_operator.Base.{
  ℕ, ◌+◌, ◌≤◌, ◌<◌, String, ◌≡◌, ◌⊎◌, inl, inr, sym, ap, ◌∙◌, refl, Bool-cases, false, ◌++◌, ◌∷◌,
  [], length, length-keep_last, ltb, nat_eq, ◌==◌, arith, eq→path, ne→eq, ltb→lt, ltb→ge,
}
use rca_operator.Base.Decimal.{itoa, atoi, bad, natural, atoi-itoa, max_int}
use rca_operator.Incident.Report.{IncidentReportStatus}
use rca_operator.Incident.Input.{Input}
use rca_operator.Incident.Resources.{IsDistinct, merge_affected_resources-IsDistinct}
use rca_operator.Incident.Status.{append_timeline}
use rca_operator.Reporter.Text.{increment_counter, rank, higher_severity}
use rca_operator.Reporter.Write.{trim_signals, update_status, reopen_status}

rank_unset : (s : String) → s ≡ "" → rank s ≡ 0
rank_unset s e = ap rank e ∙ (unfold rank in refl)

-- The kept severity is one of the two, and none of them ranks higher.
pub higher_severity_lem :
    (current incoming : String)
    → (rank current ≤ rank (higher_severity current incoming))
      × (rank incoming ≤ rank (higher_severity current incoming))
      × ((higher_severity current incoming ≡ current)
          ⊎ (higher_severity current incoming ≡ incoming))
unfolding higher_severity
higher_severity_lem current incoming = elim (Bool-cases (ltb (rank current) (rank incoming))) [
  | inl rises ↦ rw rises (
      let above = ltb→lt (rank current) (rank incoming) rises in
      (omega arith, omega arith, inr refl))
  | inr stays ↦
      let below = ltb→ge (rank current) (rank incoming) stays in
      rw stays (elim (Bool-cases (current == "")) [
        | inl unset ↦
            let none_set = rank_unset current (eq→path current "" unset) in
            rw unset (omega arith, omega arith, inr refl)
        | inr is_set ↦ rw is_set (omega arith, omega arith, inl refl)
      ])
]

empty_is_bad : atoi "" ≡ bad
unfolding atoi
empty_is_bad = refl

pub itoa_nonempty : (n : ℕ) → n ≤ max_int → (itoa n == "") ≡ false
itoa_nonempty n h = ne→eq (itoa n) "" (λ e.
    let parsed : bad ≡ natural n = sym empty_is_bad ∙ ap atoi (sym e) ∙ atoi-itoa n h in
    ground (arith, parsed))

-- The counter annotation of n signals becomes that of n + 1 signals.
pub increment_counter-itoa : (n : ℕ) → n < max_int → increment_counter (itoa n) ≡ itoa (n + 1)
unfolding increment_counter
increment_counter-itoa n h =
    let some_digit = itoa_nonempty n (omega arith) in
    let small : nat_eq n max_int ≡ false = ground arith in
    rw (some_digit, atoi-itoa n (omega arith), small) refl

-- An update keeps the limits of the lists, and the affected objects distinct.
pub update_status-bounds :
    (s : IncidentReportStatus) (target : String) (input : Input)
    → IsDistinct s.affected_resources
    → (length (update_status s target input).timeline ≤ 50)
      × (length (update_status s target input).correlated_signals ≤ 20)
      × IsDistinct (update_status s target input).affected_resources
unfolding update_status append_timeline trim_signals
update_status-bounds s target input d = (
  length-keep_last 50
      (s.timeline ++ record { time = input.observed_at; event = input.summary } ∷ []),
  length-keep_last 20 (s.correlated_signals ++ input.summary ∷ []),
  merge_affected_resources-IsDistinct s.affected_resources input.affected_resources d,
)

-- A reopening keeps them too.
pub reopen_status-bounds :
    (s : IncidentReportStatus) (target : String) (input : Input)
    → IsDistinct s.affected_resources
    → (length (reopen_status s target input).timeline ≤ 50)
      × (length (reopen_status s target input).correlated_signals ≤ 20)
      × IsDistinct (reopen_status s target input).affected_resources
unfolding reopen_status append_timeline trim_signals
reopen_status-bounds s target input d = (
  length-keep_last 50 (
      s.timeline
      ++ record { time = input.observed_at; event = "Incident re-opened: " joined input.summary }
        ∷ []),
  length-keep_last 20 (s.correlated_signals ++ input.summary ∷ []),
  merge_affected_resources-IsDistinct s.affected_resources input.affected_resources d,
)
