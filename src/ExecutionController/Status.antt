-- ===== src/ExecutionController/Status.antt =====
-- The part of Reconcile that brings an execution's status in line with its job.
use soyplane.Base.{
  String, Bool, true, false, ◌||◌, Option, none, some, if◌then◌else◌, ◌==◌, string_comparable,
  nat_comparable, ltb,
}
use soyplane.Api.{Time, ExecutionSummary, TofuExecutionStatus, Job, JobStatus}

abbrev pub is_set {ℓ} : {A : Type ℓ} → Option A → Bool
is_set none = false
is_set (some _) = true

-- `phase`, from the pod counts of the job.
unfoldable pub phase_of : JobStatus → String
phase_of st =
    if ltb 0 st.failed
    then "Failed"
    else if ltb 0 st.succeeded
    then "Succeeded"
    else if ltb 0 st.active || is_set st.terminating || st.has_uncounted_terminated_pods
    then "Running"
    else "Pending"

-- `summaryMsg`
unfoldable pub summary_message : String → String
summary_message phase =
    if phase == "Succeeded"
    then "Plan completed successfully"
    else if phase == "Failed"
    then "Plan failed"
    else if phase == "Running"
    then "Plan is running"
    else "Plan pending"

-- The summary so far, and `summaryChanged`.
pub record Draft : Type 0 where
  pub summary : ExecutionSummary
  pub changed : Bool

unfoldable pub note_job_name : String → Draft → Draft
note_job_name name d =
    if d.summary.job_name == name
    then d
    else record { summary = record d.summary { job_name = name }; changed = true }

-- Is the recorded time set, and the same instant?
abbrev pub same_time : Option Time → Time → Bool
same_time none t = false
same_time (some u) t = u == t

unfoldable pub note_started : Option Time → Draft → Draft
note_started none d = d
note_started (some t) d =
    if same_time d.summary.started_at t
    then d
    else record { summary = record d.summary { started_at = some t }; changed = true }

unfoldable pub note_finished : Option Time → Draft → Draft
note_finished none d = d
note_finished (some t) d =
    if same_time d.summary.finished_at t
    then d
    else record { summary = record d.summary { finished_at = some t }; changed = true }

unfoldable pub note_message : String → Draft → Draft
note_message message d =
    if d.summary.summary == message
    then d
    else record { summary = record d.summary { summary = message }; changed = true }

-- All four, in the source's order.
unfoldable pub draft_summary : Job → ExecutionSummary → Draft
unfolding note_job_name note_started note_finished note_message
draft_summary job summary = note_message (summary_message (phase_of job.status)) (
    note_finished job.status.completion_time (
      note_started job.status.start_time
        (note_job_name job.meta.name (record { summary = summary; changed = false }))))

-- The new status, and `statusChanged`.
unfoldable pub sync_status : Job → TofuExecutionStatus → TofuExecutionStatus × Bool
unfolding draft_summary
sync_status job status =
    let d = draft_summary job status.execution_summary in
    let phase = phase_of job.status in
    if status.phase == phase
    then (record status { execution_summary = d.summary }, d.changed)
    else (record status { execution_summary = d.summary; phase = phase }, true)
