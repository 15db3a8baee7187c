-- ===== src/Events.antt =====
-- crates/af-events/src/lib.rs: the Contract #1 event types, over the type `F` of the `f64` fields.
pub mod Validate
pub mod Parse
use agentic_footprint.Prelude.{ℕ, String, Bool, Option, List}
use agentic_footprint.Prelude.Int.{ℤ}

pub record Collector : Type 0 where
  pub name : String
  pub version : String

pub record Attribution : Type 0 where
  pub agent_id : Option String
  pub subagent_id : Option String
  pub task_id : Option String
  pub tool_call_id : Option String

pub record Usage : Type 0 where
  pub input_tokens : Option ℕ
  pub output_tokens : Option ℕ
  pub thought_tokens : Option ℕ
  pub cached_read_tokens : Option ℕ
  pub cached_write_tokens : Option ℕ

pub data UsageSource : Type 0 where
  api_response agent_telemetry transcript estimated : UsageSource

pub data Status : Type 0 where
  ok error cancelled unknown : Status

pub record LlmCall : Type 0 where
  pub provider : String
  pub model_id_requested : String
  pub model_id_served : Option String
  pub endpoint : Option String
  pub usage : Usage
  pub usage_source : UsageSource
  pub duration_ms : Option ℕ
  pub status : Option Status
  pub streaming : Option Bool

pub data EnergyKind : Type 0 where
  cpu dram gpu total other : EnergyKind

pub data EnergyMethod : Type 0 where
  rapl powermetrics nvml tdp_model other : EnergyMethod

pub record EnergyComponent (F : Type 0) : Type 0 where
  pub kind : EnergyKind
  pub label : Option String
  pub energy_j : F
  pub method : EnergyMethod

pub record EnergySample (F : Type 0) : Type 0 where
  pub t_start : String
  pub t_end : String
  pub components : List (EnergyComponent F)
  pub host_id : Option String

pub data ToolKind : Type 0 where
  bash mcp file_op subagent web other : ToolKind

pub data ExecutionLocus : Type 0 where
  local remote hybrid unknown : ExecutionLocus

pub record ActionSpan : Type 0 where
  pub span_id : String
  pub tool_name : String
  pub tool_kind : ToolKind
  pub execution_locus : ExecutionLocus
  pub t_start : String
  pub t_end : String
  pub pids : Option (List ℤ)
  pub cgroup : Option String
  pub status : Option Status

pub record ProcessDelta : Type 0 where
  pub pid : ℤ
  pub cpu_time_delta_ms : ℕ
  pub orphan_of : Option String
  pub memory_rss_bytes : Option ℕ
  pub io_read_bytes : Option ℕ
  pub io_write_bytes : Option ℕ

pub record ProcessSample : Type 0 where
  pub t_start : String
  pub t_end : String
  pub processes : List ProcessDelta

pub record AgentApp : Type 0 where
  pub name : String
  pub version : Option String

pub record Hardware (F : Type 0) : Type 0 where
  pub cpu_model : Option String
  pub gpu_models : Option (List String)
  pub ram_gb : Option F

pub data PowerSource : Type 0 where
  ac battery unknown : PowerSource

pub record SessionMeta (F : Type 0) : Type 0 where
  pub agent_app : AgentApp
  pub os : Option String
  pub hardware : Option (Hardware F)
  pub geo_zone : Option String
  pub power_source : Option PowerSource

pub data Payload (F : Type 0) : Type 0 where
  llm_call : LlmCall → Payload F
  energy_sample : EnergySample F → Payload F
  action_span : ActionSpan → Payload F
  process_sample : ProcessSample → Payload F
  session_meta : SessionMeta F → Payload F

abbrev pub type_tag : {F : Type 0} → Payload F → String
type_tag (llm_call _) = "llm_call"
type_tag (energy_sample _) = "energy_sample"
type_tag (action_span _) = "action_span"
type_tag (process_sample _) = "process_sample"
type_tag (session_meta _) = "session_meta"

pub record Envelope (F : Type 0) : Type 0 where
  pub schema_version : String
  pub event_id : String
  pub ts : String
  pub collector : Collector
  pub session_id : String
  pub attribution : Option Attribution
  pub payload : Payload F
