-- ===== src/Signals/Normalizer/Coverage.antt =====
-- Which signals become incidents.
use rca_operator.Base.{Bool, true, false, Option, none, some}
use rca_operator.Signals.Mapping.{Normalizer}
use rca_operator.Watcher.Event.{Event, pod_healthy, pod_deleted}

abbrev pub is_none {ℓ} : {A : Type ℓ} → Option A → Bool
is_none none = true
is_none (some a) = false

-- a signal that a pod is well again, or gone
abbrev pub is_lifecycle : Event → Bool
is_lifecycle (pod_healthy e) = true
is_lifecycle (pod_deleted e) = true
is_lifecycle _ = false
