-- ===== src/Examples.antt =====
-- The theorems at concrete inputs, on the small platform of Platform/Demo.antt.
pub mod Data
pub mod Writes
pub mod Reads
pub mod Boards
pub mod Admin
pub mod Server
pub mod System
pub mod Tools
pub mod Scripts
pub mod Routes
