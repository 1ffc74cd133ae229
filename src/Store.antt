-- ===== src/Store.antt =====
-- scripts/conductor_store.py and scripts/conductor_commands.py: work items and the workers that own
-- them. One module for each part; the proofs stand beside them.
pub mod Items
pub mod Fence
pub mod Commands
pub mod Keeps
pub mod Handlers
pub mod Ledger
pub mod Receipts
pub mod Ownership
pub mod Gate
pub mod Verdicts
pub mod Leader
