-- ===== src/Tests.antt =====
-- Runs on concrete inputs, and the theorems applied to such inputs.
mod Setup
mod Wire
mod Governance
mod Funds
mod Kamino
mod Marginfi
mod Maple
mod Programs
mod Drift
mod Jupiter
mod Cpi
mod Integration
