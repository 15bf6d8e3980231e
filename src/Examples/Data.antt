-- ===== src/Examples/Data.antt =====
-- Signals, rules, reports and the stand-ins for the standard library that the examples use.
use rca_operator.Base.{ℕ, String, true, false, Option, none, some, List, [], ◌∷◌, leb, ltb}
use rca_operator.Base.Texts.{contains}
use rca_operator.Base.Decimal.{atoi, bad, negative, natural, itoa, Parsed}
use rca_operator.Watcher.Event.{Event, pod_healthy, oom_killed, otel_span_error}
use rca_operator.Watcher.Event.Cluster.{BaseEvent}
use rca_operator.Correlator.Buffer.History.{Call, adds, reads}
use rca_operator.RuleEngine.Rule.{Std, RuleCondition, CorrelationRule, LoadedCondition}
use rca_operator.Incident.Report.{AffectedResource, IncidentObjectRef}
use rca_operator.Incident.Input.{Input}
use rca_operator.Reporter.Write.{Platform}

abbrev number_in : Parsed → Option ℕ
number_in bad = none
number_in (negative n) = none
number_in (natural n) = some n

abbrev pub std_example : Std
std_example = record {
  Template = String;
  Regex = String;
  Float = ℕ;
  parse_template = λ name text. some text;
  execute = λ text context. some text;
  compile_regex = λ p. some p;
  match_string = λ p s. contains s p;
  parse_float = λ s. number_in (atoi s);
  float_zero = 0;
  float_le = leb;
  float_lt = ltb;
}

abbrev pub base_example : BaseEvent
base_example = record {
  at = 10;
  agent_name = "agent";
  namespace = "shop";
  pod_name = "cart-1";
  pod_uid = "u1";
  node_name = "node-1";
}

abbrev pub oom : Event
oom =
    oom_killed (record {
      base = base_example;
      container_name = "cart";
      exit_code = 137;
      reason = "OOMKilled";
    })

abbrev pub healthy : Event
healthy = pod_healthy base_example

abbrev pub span_error : Event
span_error = otel_span_error (record {
  base = base_example;
  trace_id = "t1";
  span_id = "s1";
  parent_span_id = "";
  service_name = "cart";
  span_name = "GET /";
  span_kind = "server";
  status_code = "ERROR";
  status_message = "boom";
  duration_nanos = 5;
  start_time = 1;
  end_time = 6;
  attrs = ("http.status_code", "500") ∷ [];
  resource_attrs = [];
})

abbrev pub calls : List (ℕ × Call)
calls = (1, adds oom) ∷ (5, adds span_error) ∷ (9, reads) ∷ []

abbrev pub condition : RuleCondition
condition = record { event_type = "OOMKilled"; scope = "samePod"; negate = false; attributes = [] }

abbrev pub rule_example : CorrelationRule
rule_example = record {
  name = "oom-errors";
  auto_generated = false;
  priority = 100;
  trigger = "OTelSpanError";
  conditions = condition ∷ [];
  fires = record {
    incident_type = "MemoryPressure";
    severity = "P1";
    summary = "errors after an OOM kill";
    resource = "deployment";
    scope = "Workload";
  };
}

abbrev pub not_healthy : LoadedCondition std_example
not_healthy = record {
  event_type = "PodHealthy";
  scope = "samePod";
  negate = true;
  attributes = [];
}

abbrev pub pod_resource : AffectedResource
pod_resource = record {
  api_version = "v1";
  kind = "Pod";
  name = "cart-1";
  namespace = "shop";
  uid = "";
}

abbrev pub deployment_ref : IncidentObjectRef
deployment_ref = record {
  api_version = "apps/v1";
  kind = "Deployment";
  namespace = "shop";
  name = "cart";
  uid = "";
}

abbrev pub input_example : Input
input_example = record {
  namespace = "shop";
  agent_ref = "agent";
  incident_type = "OOMKilled";
  severity = "P2";
  summary = "killed";
  reason = "OOMKilled";
  message = "";
  dedup_key = "k";
  observed_at = 100;
  scope = record {
    level = "Workload";
    namespace = "shop";
    workload_ref = some deployment_ref;
    resource_ref = none;
  };
  affected_resources = pod_resource ∷ [];
  trace_id = "";
  fired_rule = "";
}

abbrev pub platform_example : Platform
platform_example = record {
  fingerprint_hash = λ s. s;
  format_rfc3339 = itoa;
  parse_rfc3339 = λ s. number_in (atoi s);
}
