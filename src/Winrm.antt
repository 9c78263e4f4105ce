-- ===== src/Winrm.antt =====
-- internal/controllers/helper_winrmcommand.go: the workers that hold a PowerShell session on an
-- execution host and run the commands of the controllers in it.
pub mod Event
pub mod Script
pub mod Connect
pub mod Hosts
pub mod Session
pub mod Worker
