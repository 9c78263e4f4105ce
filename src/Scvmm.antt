-- ===== src/Scvmm.antt =====
-- The PowerShell commands of the controllers and what the scripts answer.
pub mod Escape
pub mod Command
pub mod Answer
