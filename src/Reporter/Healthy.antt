-- ===== src/Reporter/Healthy.antt =====
-- What holds of the stored reports at any time.
use rca_operator.Reporter.Api.{Api, ApiLaws}
use rca_operator.Reporter.Evolution.{IsDistinct}
use rca_operator.Reporter.Unique.{IsSound}
use rca_operator.Reporter.Write.{Platform}

pub record IsHealthy (api : Api) (laws : ApiLaws api) (platform : Platform) (w : api.World)
    : Type 0 where
  pub sound : IsSound platform.fingerprint_hash (laws.reports w)
  pub distinct : IsDistinct (laws.reports w)
