-- ===== src/Watches/Laws.antt =====
-- Documented behaviour of controller-runtime's builder and of SetControllerReference, and what
-- follows for an object with one owner.
use soyplane.Base.{
  ◌≡◌, ◌≢◌, ◌↔◌, ◌⊎◌, refl, sym, ap, ◌∙◌, subst, inl, inr, String, true, List, [], ◌∷◌, ok,
}
use soyplane.Api.{ObjectMeta, NamespacedName, OwnerReference}
use soyplane.Cluster.{Cluster}
use soyplane.Scheme.{knows, manager_scheme}
use soyplane.Watches.{Controller, Runtime}

abbrev pub IsIn : {A : Type 0} → A → List A → Type 0
IsIn x [] = ⊥
IsIn x (y ∷ l) = (x ≡ y) ⊎ IsIn x l

abbrev pub request_for : ObjectMeta → NamespacedName
request_for object = record { namespace = object.namespace; name = object.name }

-- An owner stands in the namespace of what it owns.
abbrev pub request_for_owner : ObjectMeta → OwnerReference → NamespacedName
request_for_owner object ref = record { namespace = object.namespace; name = ref.name }

-- SetControllerReference gives an object that had no owner one controller, by its kind and name.
pub record NamesOwner (C : Cluster) : Type 0 where
  pub set_refers :
      (owner : ObjectMeta) (kind : String) (object result : ObjectMeta)
      → object.owner_references ≡ []
      → C.set_controller_reference owner kind object ≡ ok result
      → result.owner_references
        ≡ record { kind = kind; name = owner.name; uid = owner.uid; controller = true } ∷ []

module _ (R : Runtime) where
  -- For a kind that the scheme knows, For asks for the object itself; Owns, for the controller of
  -- the object, if that is of the kind reconciled; and there are no other requests.
  pub record Watches : Type 0 where
    pub jobs_known : knows (manager_scheme R.client_go) "Job" ≡ true
    pub for_object :
        (c : Controller) (object : ObjectMeta)
        → knows (manager_scheme R.client_go) c.reconciles ≡ true
        → IsIn (request_for object) (R.requests c c.reconciles object)
    pub for_owner :
        (c : Controller) (object : ObjectMeta) (ref : OwnerReference)
        → knows (manager_scheme R.client_go) c.reconciles ≡ true
        → knows (manager_scheme R.client_go) c.owns ≡ true
        → IsIn ref object.owner_references
        → ref.controller ≡ true
        → ref.kind ≡ c.reconciles
        → IsIn (request_for_owner object ref) (R.requests c c.owns object)
    pub nothing_else :
        (c : Controller) (kind : String) (object : ObjectMeta) (request : NamespacedName)
        → IsIn request (R.requests c kind object)
        → ((kind ≡ c.reconciles) × (request ≡ request_for object))
          ⊎ ((kind ≡ c.owns)
              × ((ref : OwnerReference) × IsIn ref object.owner_references
                  × (ref.controller ≡ true)
                  × (ref.kind ≡ c.reconciles)
                  × (request ≡ request_for_owner object ref)))

  -- The requests are these and no other.
  abbrev pub WakesFor : Controller → String → ObjectMeta → NamespacedName → Type 0
  WakesFor c kind object wanted =
      (request : NamespacedName) → IsIn request (R.requests c kind object) ↔ (request ≡ wanted)

  abbrev pub StaysAsleep : Controller → String → ObjectMeta → Type 0
  StaysAsleep c kind object = (request : NamespacedName) → ¬ IsIn request (R.requests c kind object)

  module _ (watches : Watches) (c : Controller) (object : ObjectMeta) where
    pub object-WakesFor :
        knows (manager_scheme R.client_go) c.reconciles ≡ true
        → c.owns ≢ c.reconciles
        → WakesFor c c.reconciles object (request_for object)
    object-WakesFor known apart request = (
      λ asked. elim (watches.nothing_else c c.reconciles object request asked) [
        | inl (_, e) ↦ e
        | inr (owned, _) ↦ absurd (apart (sym owned))
      ],
      λ e.
          subst (λ r. IsIn r (R.requests c c.reconciles object)) (sym e)
            (watches.for_object c object known),
    )

    module _ {ref : OwnerReference} (one : object.owner_references ≡ ref ∷ []) where
      only_owner : {other : OwnerReference} → IsIn other object.owner_references → other ≡ ref
      only_owner {other} among = elim (subst (IsIn other) one among) [
        | inl e ↦ e
        | inr nowhere ↦ absurd nowhere
      ]

      pub owner-WakesFor :
          knows (manager_scheme R.client_go) c.reconciles ≡ true
          → knows (manager_scheme R.client_go) c.owns ≡ true
          → c.owns ≢ c.reconciles
          → ref.controller ≡ true
          → ref.kind ≡ c.reconciles
          → WakesFor c c.owns object (request_for_owner object ref)
      owner-WakesFor known owned apart controls kind request = (
        λ asked. elim (watches.nothing_else c c.owns object request asked) [
          | inl (itself, _) ↦ absurd (apart itself)
          | inr (_, (other, among, _, _, e)) ↦ e ∙ ap (request_for_owner object) (only_owner among)
        ],
        λ e.
            subst (λ r. IsIn r (R.requests c c.owns object)) (sym e)
              (watches.for_owner c object ref known owned (subst (IsIn ref) (sym one) (inl refl))
                controls kind),
      )

      pub foreign-StaysAsleep :
          (kind : String)
          → kind ≢ c.reconciles
          → ref.kind ≢ c.reconciles
          → StaysAsleep c kind object
      foreign-StaysAsleep kind itself foreign request asked =
          elim (watches.nothing_else c kind object request asked) [
            | inl (e, _) ↦ itself e
            | inr (_, (other, among, _, k, _)) ↦
                foreign (ap (λ r. r.kind) (sym (only_owner among)) ∙ k)
          ]
