-- ===== src/Machine.antt =====
-- The ScvmmMachine controller: internal/controllers/scvmmmachine_controller.go and
-- helper_ipaddressclaim.go, in the order of the calls.
pub mod Event
pub mod Env
pub mod Words
pub mod Action
pub mod Emits
pub mod Gives
pub mod Send
pub mod Reason
pub mod Disks
pub mod DiskClaim
pub mod NamePool
pub mod Claims
pub mod Create
pub mod CloudInit
pub mod Steps
pub mod Delete
pub mod Reconcile
pub mod Commands
pub mod Holds
