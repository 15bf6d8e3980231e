-- ===== src/Watcher/Event/Cluster.antt =====
-- The signals that come from Kubernetes objects: internal/watcher/events.go, up to
-- CronJobFailedEvent. Instants and durations are nanoseconds; the counters and exit codes are
-- carried and never computed with here, so they are natural numbers.
use rca_operator.Base.{ℕ, String}

-- The embedded struct of every signal.
pub record BaseEvent : Type 0 where
  pub at : ℕ
  pub agent_name : String
  pub namespace : String
  pub pod_name : String
  pub pod_uid : String
  pub node_name : String

pub record CrashLoopBackOffEvent : Type 0 where
  pub base : BaseEvent
  pub open base use *
  pub container_name : String
  pub restart_count : ℕ
  pub threshold : ℕ
  pub last_exit_code : ℕ
  pub exit_code_category : String
  pub exit_code_description : String

pub record OomKilledEvent : Type 0 where
  pub base : BaseEvent
  pub open base use *
  pub container_name : String
  pub exit_code : ℕ
  pub reason : String

pub record ImagePullBackOffEvent : Type 0 where
  pub base : BaseEvent
  pub open base use *
  pub container_name : String
  pub reason : String
  pub message : String

pub record PodPendingTooLongEvent : Type 0 where
  pub base : BaseEvent
  pub open base use *
  pub pending_for : ℕ
  pub timeout : ℕ

pub record GracePeriodViolationEvent : Type 0 where
  pub base : BaseEvent
  pub open base use *
  pub grace_period_seconds : ℕ
  pub overdue_for : ℕ

-- NodeNotReadyEvent and PodEvictedEvent have the same two fields.
pub record NodeNotReadyEvent : Type 0 where
  pub base : BaseEvent
  pub open base use *
  pub reason : String
  pub message : String

pub record PodEvictedEvent : Type 0 where
  pub base : BaseEvent
  pub open base use *
  pub reason : String
  pub message : String

pub record ProbeFailureEvent : Type 0 where
  pub base : BaseEvent
  pub open base use *
  pub probe_type : String
  pub message : String

pub record StalledRolloutEvent : Type 0 where
  pub base : BaseEvent
  pub open base use *
  pub deployment_name : String
  pub revision : ℕ
  pub desired_replicas : ℕ
  pub ready_replicas : ℕ
  pub reason : String
  pub message : String

pub record NodePressureEvent : Type 0 where
  pub base : BaseEvent
  pub open base use *
  pub pressure_type : String
  pub message : String

pub record StalledStatefulSetEvent : Type 0 where
  pub base : BaseEvent
  pub open base use *
  pub stateful_set_name : String
  pub revision : ℕ
  pub desired_replicas : ℕ
  pub ready_replicas : ℕ
  pub updated_replicas : ℕ
  pub reason : String
  pub message : String

pub record StalledDaemonSetEvent : Type 0 where
  pub base : BaseEvent
  pub open base use *
  pub daemon_set_name : String
  pub revision : ℕ
  pub desired_number_scheduled : ℕ
  pub number_ready : ℕ
  pub updated_number_scheduled : ℕ
  pub reason : String
  pub message : String

pub record JobFailedEvent : Type 0 where
  pub base : BaseEvent
  pub open base use *
  pub job_name : String
  pub reason : String
  pub message : String

pub record CronJobFailedEvent : Type 0 where
  pub base : BaseEvent
  pub open base use *
  pub cron_job_name : String
  pub last_job_name : String
  pub reason : String
  pub message : String
