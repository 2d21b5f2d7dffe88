-- ===== src/Tests/ManagerTests.antt =====
-- Runs of the models of manager/ at concrete inputs.
use zju_portal_core.Base.{
  ℕ, ◌+◌, ◌≡◌, if◌then◌else◌, refl, Bool, true, false, Option, none, some, [], ◌∷◌, string_eq,
  nat_eq, nat_beq,
}
use zju_portal_core.Stream.{ok}
use zju_portal_core.Dial.{unset}
use zju_portal_core.Config.{Config, unset_outbound}
use zju_portal_core.Manager.{Sessions, Manager, start, new_session, run_session, close_active}
use zju_portal_core.Manager.Single.{
  OnlyActive, starting, call, calls, recorded, is_running, calls-OnlyOne,
}
use zju_portal_core.Core.Error.{plain}
use zju_portal_core.Manager.AuthBroker.{AuthBroker, handle}
use zju_portal_core.Tests.CoreTests.{method_challenge}

abbrev tun_config : Config
tun_config = record {
  protocol = "";
  resume_state = none;
  session_id = "";
  server_address = "";
  server_port = 0;
  username = "";
  password = "";
  phone = "";
  login_domain = "";
  auth_type = "";
  graph_code_file = "";
  cas_ticket = "";
  oauth2_code = "";
  sid = "";
  device_id = "";
  sign_key = "";
  client_data_file = "";
  update_best_nodes_seconds = 0;
  bind_interface = "";
  auto_detect_interface = false;
  disable_auto_reconnect = false;
  disable_remote_dns = false;
  remote_dns_server = "";
  secondary_dns_server = "";
  dns_ttl = 0;
  dns_bind = "";
  hosts = [];
  socks_bind = "";
  socks_username = "";
  socks_password = "";
  http_bind = "";
  tun_enabled = true;
  tun_name = "";
  tun_address = "";
  tun_mtu = 0;
  tun_auto_route = true;
  tun_route_all = true;
  tun_outbound_interface = "";
  tun_udp_timeout_seconds = 0;
  tun_udp_max_flows = 0;
  tun_dns_hijack = false;
  tun_fake_ip = false;
  tun_fake_ip_range = "";
  routing_mode = unset;
  internet_outbound = record {
    outbound_type = unset_outbound;
    address = "";
    username = "";
    password = "";
  };
}

-- Sessions that always start, of which the first fails to close.
abbrev stubborn : Sessions ℕ
stubborn = record {
  id = λ s. "session";
  start = λ s made. (made, none);
  close = λ s made. (made, if nat_beq s 1 then some (plain "busy") else none);
  wait_closed = λ s made. (made, if nat_beq s 1 then some (plain "busy") else none);
  factory = λ protocol. some (λ id config made. (made + 1, ok (some (made + 1))));
  session_name = λ n. "session";
}

abbrev idle_manager : Manager
idle_manager = record { next_id = 0; current = none; active = none }

-- Two sessions are started, of which the first is not closed, so that the second is not made.
abbrev after_two_starts : Manager × (ℕ × (ℕ → Bool))
after_two_starts =
    calls (recorded stubborn) (starting none tun_config ∷ starting none tun_config ∷ [])
      (idle_manager, (0, λ x. false))

first_runs : (after_two_starts.1.0 ≡ 1) × (is_running after_two_starts.1 1 ≡ true)
unfolding calls call start new_session run_session close_active
first_runs = (refl, refl)

calls-OnlyOne_example : OnlyActive is_running after_two_starts
calls-OnlyOne_example =
    calls-OnlyOne stubborn (starting none tun_config ∷ starting none tun_config ∷ []) idle_manager 0

abbrev pending_broker : AuthBroker
pending_broker =
    (handle "session" method_challenge (record { next = 0; pendings = []; items = [] })).0

abbrev running : Manager × Option ℕ
running = (record { next_id = 1; current = some 1; active = some 1 }, some 1)
