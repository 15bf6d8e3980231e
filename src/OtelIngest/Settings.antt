-- ===== src/OtelIngest/Settings.antt =====
-- internal/otelingest/config.go: the compilation of the redaction patterns, and the defaults that
-- applyConfigDefaults of server.go fills in. Durations are in nanoseconds.
use rca_operator.Base.{
  ℕ, ◌+◌, String, Option, none, some, List, [], ◌∷◌, nat_eq, if◌then◌else◌, ◌==◌,
}
use rca_operator.OtelIngest.Values.{IngestStd}

module _ (std : IngestStd) where
  -- the patterns, and how many of the texts are none
  pub record Redaction : Type 0 where
    pub patterns : List std.Pattern
    pub errors : ℕ

  unfoldable pub add_pattern : Option std.Pattern → Redaction → Redaction
  add_pattern none r = record r { errors = r.errors + 1 }
  add_pattern (some p) r = record r { patterns = p ∷ r.patterns }

  unfoldable pub compile_redaction : List String → Redaction
  compile_redaction [] = record { patterns = []; errors = 0 }
  compile_redaction (p ∷ ps) =
      let rest = compile_redaction ps in
      let added = add_pattern (std.compile p) rest in if p == "" then rest else added

-- the fields of Config that have defaults
pub record ServerConfig : Type 0 where
  pub bind_address : String
  pub read_timeout : ℕ
  pub write_timeout : ℕ
  pub max_request_bytes : ℕ
  pub agent_name : String

abbrev pub default_config : ServerConfig
default_config = record {
  bind_address = ":4319";
  read_timeout = 10000000000;
  write_timeout = 10000000000;
  max_request_bytes = 16777216;
  agent_name = "otelingest";
}

abbrev or_default_text : String → String → String
or_default_text text d = if text == "" then d else text

abbrev or_default : ℕ → ℕ → ℕ
or_default n d = if nat_eq n 0 then d else n

unfoldable pub apply_config_defaults : ServerConfig → ServerConfig
apply_config_defaults cfg = record {
  bind_address = or_default_text cfg.bind_address default_config.bind_address;
  read_timeout = or_default cfg.read_timeout default_config.read_timeout;
  write_timeout = or_default cfg.write_timeout default_config.write_timeout;
  max_request_bytes = or_default cfg.max_request_bytes default_config.max_request_bytes;
  agent_name = or_default_text cfg.agent_name default_config.agent_name;
}
