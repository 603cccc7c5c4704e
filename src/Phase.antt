-- ===== src/Phase.antt =====
-- internal/controller/opentofu/common.go: the annotations that mark a parent's generation, and
-- the phases that end an execution.
use text.Mathlib.TextLemmas.{nil≢cons}
use soyplane.Base.{◌≢◌, String, Bool, ◌==◌, ◌||◌, string_comparable}

abbrev pub module_generation_annotation : String
module_generation_annotation = "opentofu.soyplane.io/module-generation"

abbrev pub stack_generation_annotation : String
stack_generation_annotation = "opentofu.soyplane.io/stack-generation"

unfoldable pub is_execution_terminal : String → Bool
is_execution_terminal phase = phase == "Succeeded" || phase == "Failed"

-- The phase of an execution that no reconciler has seen yet ends nothing.
pub blank-ne-succeeded : ◌≢◌ {A = String} "" "Succeeded"
blank-ne-succeeded = nil≢cons

pub blank-ne-failed : ◌≢◌ {A = String} "" "Failed"
blank-ne-failed = nil≢cons
