-- ===== src/Storage.antt =====
-- Package storage, one module for each file or concern of it.
pub mod Client
pub mod Keeps
pub mod Keys
pub mod Entry
pub mod Apply
pub mod Replay
pub mod Boards
pub mod Profiles
pub mod Standings
pub mod AsOf
pub mod Admin
pub mod Events
pub mod Views
pub mod Interface
