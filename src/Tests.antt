-- ===== src/Tests.antt =====
-- Runs on concrete inputs, and the theorems at concrete inputs.
mod Fixture
mod Examples
mod Actions
mod Parts
mod Methods
mod Sizes
