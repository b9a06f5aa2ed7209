-- ===== src/Storage/AsOf/Listing.antt =====
-- ListStandingsAsOf as a whole, on a consistent server.
use apex_leaderboard.Prelude.Text.{Text}
use apex_leaderboard.Platform.{Platform, Entry}
