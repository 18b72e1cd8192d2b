-- ===== src/Raft/Safety.antt =====
-- What raft/ promises of a node's term, vote and commit index, whatever it is stepped with.
pub mod Quiet
pub mod Handled
pub mod Elections
pub mod Campaigns
pub mod Roles
pub mod Terms
pub mod Steps
pub mod Votes
pub mod Runs
pub mod Commit
pub mod Lease
pub mod Ballots
pub mod Leaders
