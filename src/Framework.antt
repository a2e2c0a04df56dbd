-- ===== src/Framework.antt =====
-- framework/: the modules, the state machine that links them, and the context of a request.
pub mod Module
pub mod Fsm
pub mod Context
pub mod Engine
pub mod Server
