-- ===== src/ExecutionController/Sync.antt =====
-- The status that Reconcile writes, and when it writes.
use soyplane.Base.{◌≡◌, ◌↔◌, ap, sym, ◌∙◌, refl, String, false, Option, some, none, arith}
use soyplane.Api.{Time, ExecutionSummary, TofuExecutionStatus, Job}
use soyplane.ExecutionController.{
  phase_of, summary_message, Draft, note_job_name, note_started, note_finished, note_message,
  draft_summary, sync_status,
}

-- A time of the job replaces the recorded one; where the job has none, that stays.
abbrev pub newer : Option Time → Option Time → Option Time
newer none old = old
newer (some t) old = some t

-- The summary that the four notes leave, written down at once.
abbrev pub expected_summary : Job → ExecutionSummary → ExecutionSummary
expected_summary job s = record s {
  job_name = job.meta.name;
  started_at = newer job.status.start_time s.started_at;
  finished_at = newer job.status.completion_time s.finished_at;
  summary = summary_message (phase_of job.status);
}

note_job_name-summary :
    (n : String) (d : Draft) → (note_job_name n d).summary ≡ record d.summary { job_name = n }
unfolding note_job_name
note_job_name-summary n d = ground arith

note_started-summary :
    (t : Option Time) (d : Draft)
    → (note_started t d).summary ≡ record d.summary { started_at = newer t d.summary.started_at }
unfolding note_started
note_started-summary none d = refl
note_started-summary (some t) d = ground arith

note_finished-summary :
    (t : Option Time) (d : Draft)
    → (note_finished t d).summary ≡ record d.summary { finished_at = newer t d.summary.finished_at }
unfolding note_finished
note_finished-summary none d = refl
note_finished-summary (some t) d = ground arith

note_message-summary :
    (m : String) (d : Draft) → (note_message m d).summary ≡ record d.summary { summary = m }
unfolding note_message
note_message-summary m d = ground arith

draft_summary-summary :
    (job : Job) (s : ExecutionSummary) → (draft_summary job s).summary ≡ expected_summary job s
unfolding draft_summary
draft_summary-summary job s =
    rw (note_message-summary, note_finished-summary, note_started-summary, note_job_name-summary)
      refl

-- The status of an execution that is in line with its job; what the job does not tell
-- (revision, trigger, conditions, and times that the job lacks) is kept.
abbrev pub expected_status : Job → TofuExecutionStatus → TofuExecutionStatus
expected_status job st = record st {
  execution_summary = expected_summary job st.execution_summary;
  phase = phase_of job.status;
}

sync_status-expected :
    (job : Job) (st : TofuExecutionStatus) → (sync_status job st).0 ≡ expected_status job st
unfolding sync_status
sync_status-expected job st = ground (arith, draft_summary-summary job st.execution_summary)

-- A note that finds what it would write changes nothing, and one that reports no change found it.
module _ (d : Draft) where
  job_name_kept : (n : String) → (note_job_name n d).changed ≡ false → note_job_name n d ≡ d
  unfolding note_job_name
  job_name_kept n h = ground arith

  started_kept : (t : Option Time) → (note_started t d).changed ≡ false → note_started t d ≡ d
  unfolding note_started
  started_kept none h = refl
  started_kept (some t) h = ground arith

  finished_kept : (t : Option Time) → (note_finished t d).changed ≡ false → note_finished t d ≡ d
  unfolding note_finished
  finished_kept none h = refl
  finished_kept (some t) h = ground arith

  message_kept : (m : String) → (note_message m d).changed ≡ false → note_message m d ≡ d
  unfolding note_message
  message_kept m h = ground arith

  job_name_found : (n : String) → n ≡ d.summary.job_name → note_job_name n d ≡ d
  unfolding note_job_name
  job_name_found n e = ground arith

  started_found :
      (t : Option Time) → newer t d.summary.started_at ≡ d.summary.started_at → note_started t d ≡ d
  unfolding note_started
  started_found none e = refl
  started_found (some t) e = ground arith

  finished_found :
      (t : Option Time)
      → newer t d.summary.finished_at ≡ d.summary.finished_at
      → note_finished t d ≡ d
  unfolding note_finished
  finished_found none e = refl
  finished_found (some t) e = ground arith

  message_found : (m : String) → m ≡ d.summary.summary → note_message m d ≡ d
  unfolding note_message
  message_found m e = ground arith

draft_found :
    (job : Job) (s : ExecutionSummary)
    → expected_summary job s ≡ s
    → draft_summary job s ≡ record { summary = s; changed = false }
unfolding draft_summary
draft_found job s e =
    let d : Draft = record { summary = s; changed = false } in
    rw
      (
        job_name_found d job.meta.name (ap (λ x. x.job_name) e),
        started_found d job.status.start_time (ap (λ x. x.started_at) e),
        finished_found d job.status.completion_time (ap (λ x. x.finished_at) e),
      )
      (message_found d (summary_message (phase_of job.status)) (ap (λ x. x.summary) e))

draft_kept :
    (job : Job) (s : ExecutionSummary)
    → (draft_summary job s).changed ≡ false
    → (draft_summary job s).summary ≡ s
unfolding draft_summary
draft_kept job s h =
    let d : Draft = record { summary = s; changed = false } in
    let d1 = note_job_name job.meta.name d in
    let d2 = note_started job.status.start_time d1 in
    let d3 = note_finished job.status.completion_time d2 in
    let k3 = message_kept d3 _ h in
    let k2 = finished_kept d2 _ (ap (λ x. x.changed) (sym k3) ∙ h) in
    let k1 = started_kept d1 _ (ap (λ x. x.changed) (sym k2 ∙ sym k3) ∙ h) in
    let k0 = job_name_kept d _ (ap (λ x. x.changed) (sym k1 ∙ sym k2 ∙ sym k3) ∙ h) in
    ap (λ x. x.summary) (k3 ∙ k2 ∙ k1 ∙ k0)

-- Reconcile computes the status that is in line with the job, and reports a change exactly if
-- the recorded status is another: a write is neither missed nor made without need.
pub sync_status_exact :
    (job : Job) (st : TofuExecutionStatus)
    → ((sync_status job st).0 ≡ expected_status job st)
      × (((sync_status job st).1 ≡ false) ↔ (expected_status job st ≡ st))
unfolding sync_status
sync_status_exact job st = (
  sync_status-expected job st,
  (
    λ h. ground (
      arith,
      draft_kept job st.execution_summary,
      draft_summary-summary job st.execution_summary,
    ),
    λ e. ground (arith, draft_found job st.execution_summary (ap (λ x. x.execution_summary) e)),
  ),
)

-- A status in line with the job is in line with it when looked at again.
pub expected_status_idem :
    (job : Job) (st : TofuExecutionStatus)
    → expected_status job (expected_status job st) ≡ expected_status job st
expected_status_idem job st = ground arith
