-- ===== src/Tests/L3Tests.antt =====
-- Runs of the models of the layer 3 tunnel's connections at concrete inputs.
use zju_portal_core.Base.{
  ℕ, ◌≡◌, ◌<◌, refl, inl, inr, true, false, none, some, List, [], ◌∷◌, length, arith, string_eq,
  nat_eq,
}
use zju_portal_core.Base.Map.{lookup, insert, delete}
use zju_portal_core.Stream.Meets.{Meets}
use zju_portal_core.Core.Error.{plain, is_error?}
use zju_portal_core.L3Tunnel.Conntrack.{new_conntrack_mgr, mark_auth, get_or_create}
use zju_portal_core.L3Tunnel.Conntrack.Consistent.{new_conntrack_mgr-IsConsistent}
use zju_portal_core.L3Tunnel.Frames.{read_frame}
use zju_portal_core.L3Tunnel.Frames.Reading.{IsReadError, read_frame-Meets}
use zju_portal_core.L3Tunnel.Connection.{L3TunnelConn, Library, read_loop}
use zju_portal_core.L3Tunnel.Connection.Loop.{IsSound, IsEnded, read_loop-IsEnded}
use zju_portal_core.L3Tunnel.Sending.{Meeting}
use zju_portal_core.L3Tunnel.Conntrack.Invariant.{mark_auth-IsConsistent}
use zju_portal_core.L3Tunnel.Sending.Labels.{IsLabelled}
use zju_portal_core.L3Tunnel.Sending.Sent.{WasSent, write_packet-WasSent}
use zju_portal_core.L3Tunnel.Sending
use zju_portal_core.L3Tunnel.Pool
use zju_portal_core.L3Tunnel.Pool.{Dialing, is_auth_timeout_err, terminate}

-- A protocol frame, then a heartbeat.
abbrev stream : List ℕ
stream = 0x53 ∷ 0 ∷ 0 ∷ 1 ∷ 9 ∷ 5 ∷ 0x95 ∷ 0 ∷ 0 ∷ []

read_frame-Meets_example : Meets (λ r. length r.1 < length stream) IsReadError (read_frame stream)
read_frame-Meets_example = read_frame-Meets stream

abbrev library : Library
library = record {
  unmarshal_auth = λ s. inl (plain "no JSON");
  unmarshal_any = λ s. none;
  parse_ip = λ s. none;
  trim_space = λ s. s;
  invalid_sid = λ s. false;
}

abbrev new_conn : L3TunnelConn
new_conn = record {
  incoming = [];
  closed = false;
  closes = 0;
  terminal_err = none;
  last_heartbeat = 0;
  conntrack_mgr = new_conntrack_mgr;
  vips = [];
  health = [];
  sent = [];
}

new_conn-IsSound : IsSound new_conn
new_conn-IsSound = record { table = new_conntrack_mgr-IsConsistent; once = refl; reports = tt }

read_loop-IsEnded_example : IsEnded new_conn (read_loop library (λ n. n) 10 stream new_conn)
read_loop-IsEnded_example =
    read_loop-IsEnded library (λ n. n) 10 stream new_conn (omega arith) refl new_conn-IsSound

-- The portal answers the first flow with a token while the packet waits.
abbrev meeting : Meeting
meeting = record {
  now = 5;
  request = λ ct. inr [];
  request_error = none;
  write_error = none;
  meanwhile = λ m. mark_auth 1 "token" none m;
  bytes = λ s. 7 ∷ 7 ∷ [];
}

write_packet_result : (Sending.write_packet meeting "flow" "app" "group" (9 ∷ []) new_conn).1 ≡ none
unfolding Sending.write_packet lookup get_or_create new_conntrack_mgr insert mark_auth
write_packet_result = refl

new_table-IsLabelled : IsLabelled new_conntrack_mgr
unfolding new_conntrack_mgr lookup
new_table-IsLabelled id ct h = absurd (ground arith)

write_packet-WasSent_example :
    WasSent meeting
      (9 ∷ [])
      (get_or_create 5 "flow" "app" "group" new_conntrack_mgr).1
      (Sending.write_packet meeting "flow" "app" "group" (9 ∷ []) new_conn).0
write_packet-WasSent_example =
    write_packet-WasSent meeting "flow" "app" "group" (9 ∷ []) new_conn
      (mark_auth-IsConsistent 1 "token" none) new_conntrack_mgr-IsConsistent new_table-IsLabelled
      (omega arith) write_packet_result

abbrev pool : Pool.Pool
pool = record {
  best_nodes = ("group", "node:441") ∷ [];
  major_node_group = "major";
  cause = none;
  terminated = false;
  conns = ("group", 1) ∷ [];
  opened = 1;
  dialing = [];
  closed = [];
  forwarding = 1 ∷ [];
}

abbrev dialing : Dialing
dialing = record { dial_error = none; during = λ p. p; later = λ p. p }

abbrev late_dialing : Dialing
late_dialing = record {
  dial_error = some (plain "l3-tunnel auth timeout");
  during = λ p. p;
  later = λ p. p;
}

write_packet_fails :
    (Pool.write_packet dialing late_dialing "group"
      (some (plain "l3-tunnel auth timeout"))
      none
      pool).1
    ≡ some (plain "l3-tunnel auth timeout")
unfolding Pool.write_packet lookup is_error? delete
write_packet_fails = refl

timeout_is_one : is_auth_timeout_err (some (plain "l3-tunnel auth timeout")) ≡ true
unfolding is_error?
timeout_is_one = refl
