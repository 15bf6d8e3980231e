-- ===== src/Agent/Secrets.antt =====
-- The secrets that an RCAAgent refers to, of internal/controller/rcaagent_controller.go. The Get of a
-- secret is an argument, which says whether it returned no error.
pub mod Trigger
use rca_operator.Base.{
  String, Bool, true, false, Option, none, some, List, [], ◌∷◌, ◌++◌, any_by, filter_by,
  if◌then◌else◌, ◌==◌,
}
use rca_operator.Base.Texts.{trim_space}
use rca_operator.Reporter.State.{NamespacedName}
use rca_operator.Agent.{Agent}

pub record SecretRefUsage : Type 0 where
  pub name : String
  pub usage : String

unfoldable pub secret_ref : String → Option String → List SecretRefUsage
secret_ref usage none = []
secret_ref usage (some name) =
    if trim_space name == "" then [] else record { name = trim_space name; usage = usage } ∷ []

unfoldable pub referenced_secret_refs : Agent → List SecretRefUsage
referenced_secret_refs agent =
    secret_ref "Slack webhook" agent.slack_webhook_secret_ref
    ++ secret_ref "PagerDuty routing key" agent.pager_duty_secret_ref

unfoldable pub references_secret : Agent → String → Bool
references_secret agent secret_name =
    any_by (λ ref. ref.name == secret_name) (referenced_secret_refs agent)

-- the loop of validateReferencedSecrets: the reference that the error names
unfoldable pub first_missing :
    (String → String → Bool) → String → List SecretRefUsage → Option SecretRefUsage
first_missing has_secret namespace [] = none
first_missing has_secret namespace (ref ∷ refs) =
    let rest = first_missing has_secret namespace refs in
    if has_secret namespace ref.name then rest else some ref

unfoldable pub validate_referenced_secrets :
    (String → String → Bool) → Agent → Option SecretRefUsage
validate_referenced_secrets has_secret agent =
    first_missing has_secret agent.namespace (referenced_secret_refs agent)

abbrev request_for : Agent → NamespacedName
request_for agent = record { namespace = agent.namespace; name = agent.name }

-- the loop over the listed agents
unfoldable pub requests_for : String → List Agent → List NamespacedName
requests_for secret_name [] = []
requests_for secret_name (agent ∷ agents) =
    let rest = requests_for secret_name agents in
    if references_secret agent secret_name then request_for agent ∷ rest else rest

unfoldable pub requests_listed : String → Option (List Agent) → List NamespacedName
requests_listed secret_name none = []
requests_listed secret_name (some agents) = requests_for secret_name agents

-- the agents are listed in the namespace of the secret
unfoldable pub find_agents_for_secret :
    (String → Option (List Agent)) → String → String → List NamespacedName
find_agents_for_secret list namespace secret_name = requests_listed secret_name (list namespace)
