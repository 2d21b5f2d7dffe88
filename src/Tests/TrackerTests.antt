-- ===== src/Tests/TrackerTests.antt =====
-- Runs of the models of internal/networkruntime/tracker.go at concrete inputs.
use zju_portal_core.Base.{none, some}
use zju_portal_core.Core.Error.{plain}
use zju_portal_core.Tracker.{
  ConnectionMetadata, ConnectionTracker, new_connection_tracker, open_connection, close_connection,
}
use zju_portal_core.Tracker.Once.{IsTracked, here, next, opens, closes_one, Reach-IsTracked}
use zju_portal_core.Tracker.Outbound.{
  TrackedOutbound, new_tracked_outbound, dial_context, conn_write,
}
use zju_portal_core.Tracker.Outbound.Totals.{IsCounted, Reach-IsCounted}
use zju_portal_core.Tracker.Outbound.Totals

abbrev metadata : ConnectionMetadata
metadata = record {
  inbound = "socks5";
  outbound = "atrust";
  route_reason = "vpn_resource";
  source = "127.0.0.1:5000";
  network = "tcp";
  destination = "10.0.0.1:80";
  transport_connection_id = "transport-1";
}

-- One connection, whose function fails.
abbrev one_open : ConnectionTracker
one_open = (open_connection 5 metadata (some (some (plain "busy"))) (new_connection_tracker 0)).0

one_open-IsTracked : IsTracked one_open
one_open-IsTracked = Reach-IsTracked 0 (next here (opens 5 metadata (some (some (plain "busy")))))

Reach-IsTracked_example : IsTracked (close_connection 1 one_open).0
Reach-IsTracked_example =
    Reach-IsTracked 0
      (next (next here (opens 5 metadata (some (some (plain "busy"))))) (closes_one 1))

abbrev written : TrackedOutbound
written =
    conn_write 9 100 none 1
      (dial_context none 5 "tcp" "10.0.0.1:80" none (new_tracked_outbound 0)).0

Reach-IsCounted_example : IsCounted written
Reach-IsCounted_example = Reach-IsCounted 0 (
    Totals.next (Totals.next Totals.here (Totals.dials none 5 "tcp" "10.0.0.1:80" none))
      (Totals.writes 9 100 none 1))
