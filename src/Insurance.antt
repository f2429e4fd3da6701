-- ===== src/Insurance.antt =====
-- insurance/: the capital of the pools, the policies, the claims and the reinsurance contracts.
pub mod Pools
pub mod Policies
pub mod Claims
pub mod Reinsurance
