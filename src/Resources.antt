-- ===== src/Resources.antt =====
-- scripts/conductor_resources.py: `HostResourceManager`, the admission of consumers to the pools
-- of this host. One module for each part; the proofs stand beside them.
pub mod Keys
pub mod Rows
pub mod Promotion
pub mod Liveness
pub mod Sweep
pub mod Admission
pub mod Methods
pub mod Observed
pub mod Routing
pub mod Refusals
pub mod Frees
pub mod Recovery
pub mod Replays
pub mod Released
pub mod Ghosts
pub mod Ids
pub mod Rounds
pub mod Quota
