-- ===== src/Settings/Reload.antt =====
-- `Load` and `Init` are transactions (docs/settings.md, "Reload Semantics").
use soyplane.Base.{◌≡◌, String, Bool, true, false, none, some, List, ◌∷◌, map, arith, ok, err}
use soyplane.Settings.{
  SettingsError, Libraries, Stage, at_init, at_watch, at_reload, increment, Reports,
  record_reload_failure, failure_event, Settings, load, init, load_providers, snapshot,
  chosen_paths, ObjectReference,
}

-- A report counts the failure under its stage and under no other.
pub record_reload_failure-failures :
    (stage : Stage) (e : SettingsError) (r : Reports)
    → (record_reload_failure stage e r).failures ≡ increment stage r.failures
unfolding record_reload_failure
record_reload_failure-failures stage e r = ground arith

-- A failure is reported as one more event if a recorder and a target are configured, and as none
-- if either is missing.
pub record_reload_failure-events :
    (stage : Stage) (e : SettingsError) (r : Reports)
    → ((ref : ObjectReference)
        → r.has_recorder ≡ true
        → r.event_target ≡ some ref
        → (record_reload_failure stage e r).events ≡ failure_event stage e ref ∷ r.events)
      × (r.has_recorder ≡ false → (record_reload_failure stage e r).events ≡ r.events)
      × (r.event_target ≡ none → (record_reload_failure stage e r).events ≡ r.events)
unfolding record_reload_failure
record_reload_failure-events stage e r =
    (λ ref hr ht. ground arith, λ hr. ground arith, λ ht. ground arith)

module _ (L : Libraries) where
  -- What every reader of the settings sees is as before.
  pub record IsUntouched (s t : Settings L) : Type 0 where
    pub same_tree : t.tree ≡ s.tree
    pub same_providers : t.providers ≡ s.providers
    pub same_cached : t.cached ≡ s.cached
    pub same_ready : t.settings_ready ≡ s.settings_ready
    pub same_snapshot : snapshot L t ≡ snapshot L s

  -- A failed `Load` leaves the snapshot, the tree and the providers alone, and adds one to the
  -- failures counted for the stage "reload".
  pub load_failed :
      (files : L.Files) (s : Settings L) {e : SettingsError}
      → (load L files s).0 ≡ err e
      → IsUntouched s (load L files s).1
        × ((load L files s).1.reports.failures ≡ increment at_reload s.reports.failures)
  unfolding load snapshot
  load_failed files s {e} h = ground (arith, record_reload_failure-failures at_reload e s.reports)

  -- A `Load` that returns no error publishes what its providers hold now: the tree and the
  -- settings come from one reading, and that reading is what a snapshot returns.
  pub load_succeeded :
      (files : L.Files) (s : Settings L)
      → (load L files s).0 ≡ ok tt
      → let t = (load L files s).1 in
        (load_providers L files s.providers ≡ ok (t.tree, t.cached))
        × (snapshot L t ≡ ok t.cached)
        × (t.reports ≡ s.reports)
  unfolding load snapshot
  load_succeeded files s h = ground arith

  -- The stage that a failed `Init` reports: "init" if the files could not be loaded, "watch" if
  -- they could and a watch could not be registered.
  pub init_stage : L.Files → List String → Settings L → Stage
  init_stage files given s =
      elim (load_providers L files (map L.file_provider (chosen_paths L given s))) [
        | err _ ↦ at_init
        | ok _ ↦ at_watch
      ]

  -- A failed `Init` leaves the snapshot, the tree and the providers alone, so that it can be
  -- tried again; it adds one to the failures of one stage; and it registers no watch if the
  -- configuration itself was refused.
  pub init_failed :
      (files : L.Files) (given : List String) (watch : Bool) (s : Settings L) {e : SettingsError}
      → (init L files given watch s).0 ≡ err e
      → let t = (init L files given watch s).1 in
        IsUntouched s t
        × (t.reports.failures ≡ increment (init_stage files given s) s.reports.failures)
        × (init_stage files given s ≡ at_init → t.watched ≡ s.watched)
  unfolding init snapshot init_stage
  init_failed files given true s {e} h = ground (
    arith,
    record_reload_failure-failures at_init e s.reports,
    record_reload_failure-failures at_watch e s.reports,
  )
  init_failed files given false s {e} h =
      ground (arith, record_reload_failure-failures at_init e s.reports)

  -- An `Init` that returns no error leaves the settings ready, and a second one then changes
  -- nothing, whatever paths and files it is given.
  pub init_once :
      (files files' : L.Files) (given given' : List String) (watch watch' : Bool) (s : Settings L)
      → (init L files given watch s).0 ≡ ok tt
      → let t = (init L files given watch s).1 in
        (t.settings_ready ≡ true)
        × (snapshot L t ≡ ok t.cached)
        × (init L files' given' watch' t ≡ (ok tt, t))
  unfolding init snapshot
  init_once files files' given given' true watch' s h = ground arith
  init_once files files' given given' false watch' s h = ground arith
