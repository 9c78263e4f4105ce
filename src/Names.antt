-- ===== src/Names.antt =====
-- `incrementString` of internal/controllers/scvmmmachine_controller.go, and the loop over one name
-- range in `generateVMName`.
pub mod Increment
pub mod Carry
pub mod Rank
pub mod Range
