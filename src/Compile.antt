-- ===== src/Compile.antt =====
-- `compileDefinitions` (compile_internal.go): a pass that collects every issue of the definitions,
-- and the layout of a set without issues.
pub mod Validate
pub mod Layout
pub mod Places
pub mod Pairs
pub mod Numbers
pub mod Issues
pub mod Order
pub mod Indexes
pub mod Accepts
