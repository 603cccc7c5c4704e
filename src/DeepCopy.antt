-- ===== src/DeepCopy.antt =====
-- api/opentofu/v1alpha1/zz_generated.deepcopy.go
pub mod Memory
pub mod Library
pub mod Plain
pub mod Values
pub mod Execution
pub mod Template
pub mod Module
pub mod Stack
pub mod Provider
pub mod Objects
