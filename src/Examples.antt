-- ===== src/Examples.antt =====
-- Runs of the model on small inputs: tests, and the theorems at inputs that meet their hypotheses.
mod Machine
mod Client
mod Modules
mod Server
mod Links
mod Engine
mod Main
mod Data
mod Sharing
