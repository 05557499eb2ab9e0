-- ===== src/Tests/Monitor.antt =====
-- Two browsers that watch two sessions, of which one closes.
use mathlib.Core.List.{Perm}
use diskless.Base.{ℕ, ◌≡◌, true, false, none, [], ◌∷◌, List, Text, codes, if◌then◌else◌}
use diskless.Database.{Database, ActiveSession}
use diskless.Monitor.{Connection, opened, closed, by_start, poll_and_broadcast}
use diskless.Monitor.Broadcast.{connects, is_open, heard, Ordered, poll_reaches}
use diskless.Tests.Site.{site}

abbrev session : ℕ → Text → ActiveSession
session version started_at = record {
  initiator_iqn = codes "iqn.2026-01.lab:01";
  client_mac = codes "02:00:00:00:00:01";
  version = version;
  readonly = true;
  started_at = started_at;
  snapshot_name = none;
  base_loop_dev = none;
  overlay_loop_dev = none;
  overlay_path = none;
}

abbrev running : Database
running = record (site none) {
  active_session = session 1 (codes "2026-07-02") ∷ session 2 (codes "2026-07-01") ∷ [];
}

abbrev browsers : List Connection
browsers = opened 1 ∷ opened 2 ∷ closed 1 ∷ []

poll_reaches_example :
    (heard 2 (poll_and_broadcast running (connects browsers (record { clients = [] })))
      ≡ (if is_open browsers 2 false then by_start running.active_session ∷ [] else []))
    × Perm running.active_session (by_start running.active_session)
    × Ordered (by_start running.active_session)
poll_reaches_example = poll_reaches browsers running 2
