-- ===== src/Cluster/Memory.antt =====
-- A small API server: one module, one stack, and lists of executions and jobs, with every call
-- accepted. It keeps every law of `Laws` and of `Interference`, so these can hold together.
pub mod Laws
pub mod Interference
use soyplane.Base.{
  string_comparable, map, ℕ, suc, ◌<◌, String, ◌<>◌, Bool, true, false, none, some, List, [], ◌∷◌,
  Result, ok, err, if◌then◌else◌, ◌==◌, not, ◌&&◌, ◌||◌, select, format_int, ltb,
}
use soyplane.Api.{
  ObjectMeta, NamespacedName, OwnerReference, TofuModule, TofuStack, TofuExecution, Job,
}
use soyplane.Children.{empty_status}
use soyplane.Cluster.{Cluster, Error, api, invalid_settings}
use soyplane.Cluster.Interference.{with_status_of}

pub record Store : Type 0 where
  pub mdl : TofuModule
  pub stack : TofuStack
  pub executions : List TofuExecution
  pub jobs : List Job

abbrev Answer : Type 0
Answer = Result Error (Unit {0}) × Store

abbrev not_found : Error
not_found = api "NotFound" "not found"

-- Is the object the one of this name?
abbrev is_named : NamespacedName → ObjectMeta → Bool
is_named k m = m.name == k.name && m.namespace == k.namespace

abbrev is_same : ObjectMeta → ObjectMeta → Bool
is_same a b = a.name == b.name && a.namespace == b.namespace

abbrev pub find_module : NamespacedName → Store → Result Error TofuModule
find_module k s = if is_named k s.mdl.meta then ok s.mdl else err not_found

abbrev pub find_stack : NamespacedName → Store → Result Error TofuStack
find_stack k s = if is_named k s.stack.meta then ok s.stack else err not_found

abbrev find : NamespacedName → List TofuExecution → Result Error TofuExecution
find k [] = err not_found
find k (x ∷ l) = if is_named k x.meta then ok x else find k l

abbrev replace : TofuExecution → List TofuExecution → List TofuExecution
replace y = map (with_status_of y)

abbrev pub executions_in : String → List TofuExecution → List TofuExecution
executions_in ns = select (λ x. x.meta.namespace == ns)

abbrev pub jobs_in : String → List Job → List Job
jobs_in ns = select (λ j. j.meta.namespace == ns)

-- The first second after all creations so far.
abbrev next_time : List TofuExecution → ℕ
next_time [] = 1
next_time (x ∷ l) =
    let n = next_time l in
    if ltb x.meta.creation_timestamp n then n else suc x.meta.creation_timestamp

abbrev as_stored : TofuExecution → List TofuExecution → TofuExecution
as_stored x l = record x {
  meta = record x.meta {
    name = x.meta.generate_name <> format_int (next_time l);
    uid = format_int (next_time l);
    creation_timestamp = next_time l;
  };
  status = empty_status;
}

abbrev controls : ObjectMeta → List OwnerReference → Bool
controls owner [] = false
controls owner (r ∷ refs) = (r.controller && r.uid == owner.uid) || controls owner refs

abbrev is_kind_of : String → Error → Bool
is_kind_of reason (api r _) = r == reason
is_kind_of reason (invalid_settings _) = false

abbrev pub memory : Cluster
memory = record {
  State = Store;
  get_module = find_module;
  get_stack = find_stack;
  get_execution = λ k s. find k s.executions;
  list_executions = λ ns s. ok (executions_in ns s.executions);
  list_jobs = λ ns s. ok (jobs_in ns s.jobs);
  create_execution =
      λ x s. let y = as_stored x s.executions in (ok y, record s { executions = y ∷ s.executions });
  create_job = λ j s. (ok j, record s { jobs = j ∷ s.jobs });
  delete_job = λ j s. (
    ok tt,
    record s {
      jobs =
          select (λ o. not (o.meta.name == j.meta.name && o.meta.namespace == j.meta.namespace))
            s.jobs;
    },
  );
  update_module_status = λ m s.
      if is_same m.meta s.mdl.meta then (ok tt, record s { mdl = m }) else (err not_found, s);
  update_stack_status = λ m s.
      if is_same m.meta s.stack.meta then (ok tt, record s { stack = m }) else (err not_found, s);
  update_execution_status = λ x s. (ok tt, record s { executions = replace x s.executions });
  is_not_found = is_kind_of "NotFound";
  is_conflict = is_kind_of "Conflict";
  ignore_not_found = λ e. if is_kind_of "NotFound" e then none else some e;
  is_controlled_by = λ object owner. controls owner object.owner_references;
  set_controller_reference = λ owner kind object. ok (record object {
    owner_references =
        record { kind = kind; name = owner.name; uid = owner.uid; controller = true }
        ∷ object.owner_references;
  });
}
