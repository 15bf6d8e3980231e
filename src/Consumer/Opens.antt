-- ===== src/Consumer/Opens.antt =====
-- A failure that is handled without an error is in an open report.
use rca_operator.Base.{ℕ, ◌≡◌, Option, some}
use rca_operator.Consumer.{Environment, Consumer, final_input}
use rca_operator.Incident.Input.{Input, fingerprint}
use rca_operator.Reporter.Api.{Api, ApiLaws}
use rca_operator.Reporter.Opens.{HasOpen}
use rca_operator.Reporter.Write.{Platform}
use rca_operator.RuleEngine.Rule.{Std}
use rca_operator.Watcher.Event.{Event}

module _ (api : Api) (laws : ApiLaws api) (std : Std) (platform : Platform) (env : Environment)
    (now : ℕ) where
  -- the report of what the signal is normalized to
  abbrev pub IsStoredOpen : Event → Option Input → Consumer api std platform → api.World → Type 0
  IsStoredOpen event o c w =
      (input : Input) × (o ≡ some input)
      × HasOpen (fingerprint (final_input api std platform env now event input c.engine))
          (laws.reports w)
