-- ===== src/ExecutionController/Phases.antt =====
-- How the pod counts of a job become a phase, a message and a requeue.
use text.Mathlib.TextEquality.{eq_iff}
use soyplane.Base.{◌<◌, ◌≡◌, ◌≢◌, ◌↔◌, ◌⊎◌, String, true, false, arith}
use soyplane.Api.{JobStatus, Job}
use soyplane.Phase.{is_execution_terminal}
use soyplane.Cluster.{done, requeue_after_5s}
use soyplane.ExecutionController.{phase_of, requeue_for}

-- The four phases that the CRD's schema allows (tofuexecution_types.go, the enum of `phase`).
abbrev pub IsPhase : String → Type 0
IsPhase p = (p ≡ "Pending") ⊎ ((p ≡ "Running") ⊎ ((p ≡ "Succeeded") ⊎ (p ≡ "Failed")))

abbrev pub SomePodEnded : JobStatus → Type 0
SomePodEnded st = (0 < st.failed) ⊎ (0 < st.succeeded)

pub phases_differ :
    (◌≢◌ {A = String} "Pending" "Running")
    × (◌≢◌ {A = String} "Pending" "Succeeded")
    × (◌≢◌ {A = String} "Pending" "Failed")
    × (◌≢◌ {A = String} "Running" "Succeeded")
    × (◌≢◌ {A = String} "Running" "Failed")
    × (◌≢◌ {A = String} "Succeeded" "Failed")
phases_differ = (
  ground (arith, eq_iff "Pending" "Running"),
  ground (arith, eq_iff "Pending" "Succeeded"),
  ground (arith, eq_iff "Pending" "Failed"),
  ground (arith, eq_iff "Running" "Succeeded"),
  ground (arith, eq_iff "Running" "Failed"),
  ground (arith, eq_iff "Succeeded" "Failed"),
)

-- The phase is one of the schema's four, and it is terminal, in the sense of the module and the
-- stack controller, exactly if some pod of the job has failed or succeeded.
pub phase_of_terminal_iff :
    (st : JobStatus)
    → IsPhase (phase_of st) × ((is_execution_terminal (phase_of st) ≡ true) ↔ SomePodEnded st)
unfolding phase_of is_execution_terminal
phase_of_terminal_iff st = (ground arith, ground (arith, phases_differ))

-- Reconcile asks to be called again in five seconds if the phase that the job gives is not
-- terminal, and not at all if it is.
pub requeue_for_iff :
    (job : Job)
    → (is_execution_terminal (phase_of job.status) ≡ false → requeue_for job ≡ requeue_after_5s)
      × (is_execution_terminal (phase_of job.status) ≡ true → requeue_for job ≡ done)
unfolding phase_of requeue_for is_execution_terminal
requeue_for_iff job = (λ h. ground (arith, phases_differ), λ h. ground (arith, phases_differ))

-- One failed pod ends the execution as "Failed" with no further requeue, although the job may
-- still have active pods, or have succeeded on a retry.
pub failed_pod_is_final :
    (job : Job)
    → 0 < job.status.failed
    → (phase_of job.status ≡ "Failed")
      × (is_execution_terminal (phase_of job.status) ≡ true)
      × (requeue_for job ≡ done)
unfolding phase_of requeue_for is_execution_terminal
failed_pod_is_final job h = (ground arith, ground arith, ground (arith, phases_differ))
