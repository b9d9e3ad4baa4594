-- ===== src/OpenApi.antt =====
-- The routes and documents of pkg/http/openapi.
pub mod Spec
pub mod Reflect
pub mod Policy
pub mod Schemes
pub mod Compile
pub mod Adapter
pub mod Validate
pub mod Builder
mod Examples
