-- ===== src/Lib.antt =====
-- The RCA operator: a Kubernetes operator that turns signals of a cluster into incident reports.
--
-- Signals (internal/watcher/events.go) pass the emitter (internal/watcher/emitter.go) and go to a
-- correlation buffer (internal/correlator/correlator.go). The consumer
-- (internal/correlator/consumer.go) normalizes each signal to an input
-- (internal/incident/model.go), enriches it with the owner of its pod, and lets the rule engine
-- (internal/rulengine/crd_engine.go) evaluate the signal against the rules in force, over what the
-- buffer holds. The input goes to the reporter (internal/reporter/cr_reporter.go), the single
-- writer of IncidentReport resources, which finds the open, the recently resolved or the related
-- report of the incident, or creates one. The controller
-- (internal/controller/incidentreport_controller.go) moves the reports through their phases. The
-- detector (internal/autodetect) mines snapshots of the buffer for patterns that come back and
-- makes rules of them. Spans and logs come in over HTTP (internal/otelingest) and become signals.
--
-- Files:
--   Base: lists, maps, texts, sorting and decimal numbers, with their lemmas.
--   Watcher/Event: the signals, their dedup keys and attributes. Watcher/Emitter: Emit.
--   Correlator/Buffer: NewBuffer, Add, Snapshot, SnapshotByTrace, Subscribe, purgeOld; below it
--     the index (Trace), the window and the history of calls. Correlator/Engine: the in-process
--     correlator and the registry of internal/correlator/rules.go. Correlator/Order: the order of
--     rules. Correlator/Classify: internal/correlator/classify.go.
--   RuleEngine/Rule: the resources and their compilation (LoadRules). RuleEngine/Scope,
--     Attributes: scopeMatches, evaluateAttribute. RuleEngine/Engine: conditionsMet, Evaluate;
--     below it its laws.
--   Webhook: the admission check of internal/webhook/rcacorrelationrule_webhook.go.
--   Incident/Report: the resource of api/v1alpha1. Incident/Input, Resources, Status: the input
--     and its fingerprint, mergeAffectedResources, internal/incidentstatus/status.go.
--   Incident/Resolver: internal/incident/resolver.go, the owner of a pod.
--   Signals/Mapping, Summary, Guess, Normalizer: internal/signals/normalizer.go, its table,
--     summaries, the name of a Deployment and the inputs. Signals/Enricher:
--     internal/signals/enricher.go. Signals/Deduplicator: internal/signals/deduplicator.go.
--     Retention: internal/retention/parse.go.
--   Consumer: handleEvent and the loop of Run of internal/correlator/consumer.go; below it
--     Identity, Handling and Opens, laws of these.
--   Autodetect/Pattern, Accumulator, Rule, Creator, Detector: the files pattern.go,
--     accumulator.go, creator.go (Rule is what is computed from one rule or pattern, Creator what
--     is done to the cluster) and detector.go of internal/autodetect. Autodetect/Api: its
--     Kubernetes client, a parameter. Pattern/Groups, Pairs and Mining, Rule/Admitted, Creator/Tidy,
--     Cleanup and Cap, Detector/Tidy: laws of these.
--   Reporter/Text, TraceIds, Fingerprint: the text functions. Reporter/Write: what is written.
--     Reporter/Api: the Kubernetes client, a parameter. Reporter/State, Find, Ensure, Resolve,
--     Consolidate: the struct, the lookups, EnsureSignal, the resolution for healthy and deleted
--     pods, and Consolidate; below it Groups and Quiet, laws of it. Reporter/Bounds, Unique,
--     Distinct, Opens, Evolution, Healthy, Fingerprint/Plain: laws of these.
--   Controller/Cluster, State, Transitions, Reconcile: incidentStillPresent, the struct,
--     Reconcile. Controller/Lifecycle, Steps, Announcing, Resolved, Phases, Paths, Silence,
--     Open, Closing: laws of these.
--   OtelIngest/Values, Translator, Server, Settings: internal/otelingest, the conversions of
--     translator.go and of redact.go, the filters and signals of translator.go, the handlers of
--     server.go, config.go. Translator/Logs, Translator/Complete and
--     Server/Answers: laws of these.
--   Agent: the retention and the orphan check of internal/controller/rcaagent_controller.go, and
--     Agent/Secrets: its secrets; Loops, Orphans, Graphs, Expired, Kept and
--     Secrets/Trigger, laws of these.
--   System: consumer, reporter, controller and retention together. Examples: concrete inputs.
--
-- Instants are nanoseconds, natural numbers, and the clock is an argument of each operation.
-- Mutexes make each operation one step. Recursion is structural, but for the digits of a number,
-- whose fuel is more than the number, and the loop of stripEmptyKV, whose fuel is one more than the
-- length of the text, from which each round takes a character. Templates, regular expressions,
-- floats, SHA-1, RFC 3339 and the text of a time.Duration are parameters. A byte is a character, so
-- texts that are cut to a number of bytes are taken to be ASCII. A Go map is iterated in the order
-- of insertion. Counts, settings and priorities are not negative. The API server is a parameter
-- too: a call fails or works on one collection of reports. The clock and the objects of the cluster
-- stand still during one reconciliation.
--
-- Not modelled: the rest of the controller of agents, the controller of rules, the watchers, the
-- incident graph and the listener of the OTLP ingest. Left out: the dashboard, the clients for
-- Jaeger and for notifications, metrics and the wiring of goroutines, which are I/O, and generated
-- code.
pub mod Base
pub mod Watcher
pub mod Correlator
pub mod RuleEngine
pub mod Incident
pub mod Reporter
pub mod Webhook
pub mod Controller
pub mod Consumer
pub mod Signals
pub mod Autodetect
pub mod OtelIngest
pub mod Retention
pub mod Agent
pub mod System
pub mod Examples
