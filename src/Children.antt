-- ===== src/Children.antt =====
-- What the module and the stack controller share (internal/controller/opentofu): the blank
-- object that createExecution fills, its name prefix, and the end of lastExecution. The two
-- source files spell these out alike.
pub mod Latest
pub mod Serial
pub mod View
use mathlib.Core.List.{head?}
use soyplane.Base.{
  String, ◌<>◌, Option, none, some, List, [], ◌∷◌, if◌then◌else◌, ◌==◌, string_comparable,
  newest_first,
}
use soyplane.Api.{ObjectMeta, Time, TofuExecution, TofuExecutionStatus}

-- `metav1.ObjectMeta{}`
abbrev pub empty_meta : ObjectMeta
empty_meta = record {
  name = "";
  generate_name = "";
  namespace = "";
  uid = "";
  generation = 0;
  creation_timestamp = 0;
  labels = none;
  annotations = none;
  owner_references = [];
}

-- `TofuExecutionStatus{}`
abbrev pub empty_status : TofuExecutionStatus
empty_status = record {
  execution_summary = record {
    revision = "";
    started_at = none;
    finished_at = none;
    summary = "";
    triggered_by = "";
    job_name = "";
  };
  phase = "";
  conditions = [];
}

-- The name prefix of a new execution: the template's, or the parent's name with a dash.
unfoldable pub generate_name_or : String → String → String
generate_name_or template parent = if template == "" then parent <> "-" else template

abbrev pub creation_time : TofuExecution → Time
creation_time exec = exec.meta.creation_timestamp

-- `ownedExecutions[0]` behind the sort, or nil if there is none.
unfoldable pub latest : List TofuExecution → Option TofuExecution
latest owned = head? (newest_first creation_time owned)
