-- ===== src/Tests/Lagging.antt =====
-- The module controller with a client whose reads are behind.
use soyplane.Base.{◌≡◌, refl, none, [], ok, inl, format_int, text_dec, newest_first}
use soyplane.Api.{TofuExecution}
use soyplane.ModuleController.Stale.{stale_list_starts_again}
use soyplane.Cluster.Laws.{TracksOwners}
use soyplane.Children.{latest}
use soyplane.Cluster.{Cluster, done}
use soyplane.Cluster.Memory.{memory}
use soyplane.Cluster.Memory.Laws.{memory_tracks_owners}
use soyplane.ModuleController.{owned_executions, current_generation, reconcile}
use soyplane.ModuleController.Runs.{Sees}
use soyplane.Tests.Fixtures.{key_of, module_at, empty_store}

-- A client whose cache has heard of no execution yet.
abbrev lagging : Cluster
lagging = record memory { list_executions = λ ns s. ok [] }

lagging_tracks_owners : TracksOwners lagging
lagging_tracks_owners = record {
  set_controls = memory_tracks_owners.set_controls;
  set_keeps = memory_tracks_owners.set_keeps;
  controlled_by_refs = memory_tracks_owners.controlled_by_refs;
}

Sees-nothing : Sees lagging (key_of (module_at 2).meta) empty_store (module_at 2) []
unfolding text_dec
Sees-nothing = record { module_read = refl; children_read = refl }

nothing_is_owned : latest (owned_executions lagging (module_at 2) []) ≡ none
unfolding owned_executions latest newest_first
nothing_is_owned = refl

first_goes_well : (reconcile lagging (key_of (module_at 2).meta) empty_store).0 ≡ ok done
unfolding text_dec reconcile owned_executions latest newest_first
first_goes_well = refl

Sees-nothing_yet :
    Sees lagging
      (key_of (module_at 2).meta)
      (reconcile lagging (key_of (module_at 2).meta) empty_store).1
      (module_at 2)
      []
unfolding text_dec reconcile owned_executions latest newest_first
Sees-nothing_yet = record { module_read = refl; children_read = refl }

stale_list_starts_again_example :
    let k = key_of (module_at 2).meta in
    let t = (reconcile lagging k empty_store).1 in
    (x : TofuExecution) × (t ≡ (lagging.create_execution x empty_store).1)
    × ((reconcile lagging k t).1 ≡ (lagging.create_execution x t).1)
    × (x.meta.name ≡ "")
    × (current_generation x ≡ format_int 2)
stale_list_starts_again_example =
    stale_list_starts_again lagging lagging_tracks_owners Sees-nothing (inl nothing_is_owned)
      first_goes_well Sees-nothing_yet
