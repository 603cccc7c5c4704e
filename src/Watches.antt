-- ===== src/Watches.antt =====
-- SetupWithManager of the three controllers: tofumodule_controller.go, tofustack_controller.go and
-- tofuexecution_controller.go in internal/controller/opentofu.
pub mod Laws
pub mod Kinds
pub mod Events
use soyplane.Base.{String, List}
use soyplane.Api.{ObjectMeta, NamespacedName}

-- What a controller is built with: For, Owns and Named.
pub record Controller : Type 0 where
  pub reconciles : String
  pub owns : String
  pub name : String

abbrev pub tofu_module_controller : Controller
tofu_module_controller = record {
  reconciles = "TofuModule";
  owns = "TofuExecution";
  name = "opentofu-tofumodule";
}

abbrev pub tofu_stack_controller : Controller
tofu_stack_controller = record {
  reconciles = "TofuStack";
  owns = "TofuExecution";
  name = "opentofu_tofustack";
}

abbrev pub tofu_execution_controller : Controller
tofu_execution_controller = record {
  reconciles = "TofuExecution";
  owns = "Job";
  name = "opentofu-tofuexecution";
}

-- The parts of controller-runtime and client-go that this rests on.
pub record Runtime : Type 0 where
  -- the kinds of client-go's scheme
  pub client_go : List String
  -- the requests that a controller's queue gets when something happens to an object of a kind
  pub requests : Controller → String → ObjectMeta → List NamespacedName
