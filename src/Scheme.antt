-- ===== src/Scheme.antt =====
-- The kinds that the two programs' schemes know: api/opentofu/v1alpha1/groupversion_info.go, the
-- init functions beside the types, and those of cmd/manager/main.go and internal/agent/agent.go.
-- A kind of another group is written by its name alone, too.
use soyplane.Base.{String, Bool, false, List, [], ◌∷◌, ◌++◌, ◌||◌, ◌==◌, string_comparable}

abbrev Scheme : Type 0
Scheme = List String

-- SchemeBuilder.Register, by the init function of each file; Go runs them by the files' names.
abbrev register_tofu_execution : Scheme → Scheme
register_tofu_execution kinds = kinds ++ ("TofuExecution" ∷ "TofuExecutionList" ∷ [])

abbrev register_tofu_module : Scheme → Scheme
register_tofu_module kinds = kinds ++ ("TofuModule" ∷ "TofuModuleList" ∷ [])

abbrev register_tofu_provider : Scheme → Scheme
register_tofu_provider kinds = kinds ++ ("TofuProvider" ∷ "TofuProviderList" ∷ [])

abbrev register_tofu_stack : Scheme → Scheme
register_tofu_stack kinds = kinds ++ ("TofuStack" ∷ "TofuStackList" ∷ [])

abbrev scheme_builder : Scheme
scheme_builder =
    register_tofu_stack (register_tofu_provider (register_tofu_module (register_tofu_execution [])))

-- AddToScheme
abbrev add_to_scheme : Scheme → Scheme
add_to_scheme kinds = kinds ++ scheme_builder

-- The manager's scheme, from the kinds that clientgoscheme.AddToScheme adds.
unfoldable pub manager_scheme : Scheme → Scheme
manager_scheme client_go = add_to_scheme ([] ++ client_go)

unfoldable pub agent_scheme : Scheme
agent_scheme = add_to_scheme []

unfoldable pub knows : Scheme → String → Bool
knows [] kind = false
knows (k ∷ kinds) kind = k == kind || knows kinds kind
