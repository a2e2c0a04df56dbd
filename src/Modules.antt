-- ===== src/Modules.antt =====
-- module/: the classes of modules that an application derives its own from.
pub mod Fork
pub mod Join
pub mod Session
pub mod Request
pub mod Response
pub mod Tcp
pub mod Simple
