-- ===== src/Handlers.antt =====
-- Package handlers: what each HTTP handler checks, calls and answers. A request is what net/http and
-- the helper library make of it, a response its status and data; log lines are not modelled.
pub mod Common
pub mod Scores
pub mod Boards
pub mod Players
pub mod Feeds
pub mod Admin
pub mod Health
