-- ===== src/Dynamic.antt =====
-- Rules from configuration (dynamic/): JSON definitions, a registry of typed actions, and their
-- compilation to ordinary rules.
pub mod Failure
pub mod Json
pub mod Pattern
pub mod Schema
pub mod Registry
pub mod Definition
pub mod Build
