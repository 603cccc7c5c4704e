-- ===== src/Lib.antt =====
-- Soyplane: a Kubernetes operator that runs OpenTofu and Terraform.
--
-- A TofuModule or a TofuStack asks for runs; its controller creates a TofuExecution, and another
-- whenever the last has ended and the spec has changed. The execution controller creates a Job
-- for an execution, with an image that the settings may supply, and copies the job's state to the
-- execution's status, from where the parents copy it to theirs. The agent is the program meant
-- to run in the job's pod.
--
-- The files, with the code that they are about:
--   Api, Api/*            api/opentofu/v1alpha1/*_types.go and common.go: a struct is a record with
--                         the same fields, a pointer or a map that may be nil an Option, a
--                         time the number of its second
--   Phase                 internal/controller/opentofu/common.go
--   Settings/Schema       internal/settings/schema.go
--   Settings/Metrics      internal/settings/metrics.go
--   Settings/Config       internal/settings/config.go: Init, Load, ConfigureEvents and the watch
--                         callback are functions from the package's variables to their next
--                         values; each runs under the package's mutex, so each is one step.
--                         Settings/Reload, Start and History are about them
--   Cluster               the Kubernetes client, a parameter: a state with the calls that the
--                         controllers make. Cluster/Laws holds what theorems assume of it, by
--                         topic: documented behaviour, and CreatesLater, which no document
--                         promises, that no two executions are created in one second.
--                         Cluster/Memory is a cluster that keeps all of it, and
--                         Cluster/Interference what histories of several controllers assume
--                         besides
--   Runs, Runs/*          what a module's or a stack's controller promises, without the cluster:
--                         a machine on a list of runs (docs/crds.md, "Execution Flow")
--   Children, Children/*  what tofumodule_controller.go and tofustack_controller.go in
--                         internal/controller/opentofu spell out alike;
--                         Children/View shows executions as runs of the machine
--   ModuleController, /*  internal/controller/opentofu/tofumodule_controller.go: one function for
--                         each method, of the same name; an Action is a state, and a result or
--                         an error. Marker, Template, Runs, Repeat, Rest, Errors,
--                         Progress, Effect, Refine and Stale are theorems
--   StackController, /*   internal/controller/opentofu/tofustack_controller.go, alike
--   ExecutionController,  internal/controller/opentofu/tofuexecution_controller.go: Status is the
--     /*                  part that computes a status, Construct constructJobFromExecution,
--                         Reconcile the rest. Phases, Sync, Stale, Jobs, Cycle, Calls, Effect and
--                         Handover are theorems
--   System, System/*      the three controllers on one cluster: a step is a whole Reconcile of one
--                         object or an act of others, a history a sequence of steps.
--                         System/Overlap takes the Reconcile of a module apart: two reads and a
--                         write, with steps in between. System/Life follows a run from
--                         its creation to the outcome of its job, System/Report that outcome to
--                         the module, System/Rest to where nothing is left to do, and
--                         System/Retry a failed pod, which the job may retry, to the next run
--   Scheme                the kinds that the init functions of api/opentofu/v1alpha1 register, with
--                         groupversion_info.go there, and the schemes of cmd/manager/main.go and
--                         internal/agent/agent.go
--   Watches, Watches/*    SetupWithManager of the three controllers: what each is built For and
--                         what it Owns. Runtime is a parameter, controller-runtime's answer to an
--                         event; Watches/Laws says what is assumed of it, Kinds and Events
--                         are theorems
--   Agent, Agent/Outcome  internal/agent and cmd/agent/main.go, which get the module's source; the
--                         engine's run and the outputs that docs/crds.md speaks of have no code
--   DeepCopy, DeepCopy/*  api/opentofu/v1alpha1/zz_generated.deepcopy.go: Memory has pointers, slices
--                         and maps with their addresses, and the ways to copy them; for each Go
--                         type there is a Layout (its fields in memory), copy_ (DeepCopyInto),
--                         deep_copy_ (DeepCopy) and, where it has one, deep_copy_object_
--                         (DeepCopyObject). Library is a parameter, the structs of
--                         Kubernetes with their copies. Objects puts the types of the scheme
--                         together
--   Sharing, Sharing/*    createExecution and constructJobFromExecution of the controllers once
--                         more, as to the maps in memory that they clone, make and write to
--   Manager, Manager/*    cmd/manager/main.go: Flags is the command line and the callback of
--                         -configs, Main is main over a parameter, the calls into
--                         controller-runtime; the log lines of errors are the values of Exit.
--                         Serving, Order, Configs, Ready and Started are theorems
--   Base, Base/*          Go's comparisons, results, maps, stable sort, decimal printing, and
--                         strings.Split and strings.TrimSpace on characters
--   Tests/*               every theorem below at a concrete input
--
-- Bounds: strconv.FormatInt is a recursion on fuel (emit in Base/Decimal), n + 1 rounds for the
-- number n. Each round prints a digit and divides by ten, and n has at most n + 1 digits, so the
-- fuel is enough. Every other loop is a recursion on its list. A generation is a number without
-- a sign, since the API server counts it from 1.
--
-- Not modelled: log lines and the logger's flags; the group and version of a kind; Reconciles of
-- stacks and of executions that overlap with others' steps (they are whole steps of a history);
-- the order in which Go takes the entries of a map (DeepCopy has them in a list);
-- internal/agent/{outputs,variables,repository}.go (no code yet); test/ (the tests). But
-- for Sharing, the controllers are modelled on values, without addresses: they assign to the
-- fields of the object that a read gave them, and put entries only into clones of maps.
-- controller-runtime, apimachinery, koanf, validator and go-defaults are not in the repository:
-- they are parameters, with named hypotheses.
pub mod Base
pub mod Api
pub mod Settings
pub mod Phase
pub mod Cluster
pub mod Children
pub mod ModuleController
pub mod StackController
pub mod ExecutionController
pub mod Agent
pub mod Runs
pub mod System
pub mod Scheme
pub mod Watches
pub mod Manager
mod Tests
pub mod DeepCopy
pub mod Sharing
