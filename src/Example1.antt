-- ===== src/Example1.antt =====
-- example1/: a server that asks feature servers and predictors, as a user of the framework.
pub mod Main
pub mod Serve
pub mod Data
