-- ===== src/Observe.antt =====
-- src/peer_observe.py: what is shown of a saved bridge. Its database is the store, read once; what is
-- found out about files and processes is an argument.
pub mod Counts
pub mod Shown
pub mod Warning
pub mod Snapshot
pub mod Evidence
pub mod Reachable
pub mod Alarm
pub mod Clean
pub mod Render
pub mod Recipients
pub mod Width
pub mod Totals
