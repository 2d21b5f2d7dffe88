-- ===== src/Manager/RuntimeConfig.antt =====
-- internal/atrustruntime/runtime.go, `toRuntimeConfig` of manager/manager.go: the configuration of a
-- session's runtime. A handler is known by the session that it reports to, a network runtime by a number.
use zju_portal_core.Base.{
  ℕ, Bool, true, false, ◌&&◌, String, ◌==◌, string_eq, Option, none, List, if◌then◌else◌, ◌≡◌, ◌≢◌,
  ◌⊎◌, inl, inr, Bool-cases, eq_iff, arith,
}
use zju_portal_core.Config.{Config, ResumeState, InternetOutboundConfig}
use zju_portal_core.Dial.{RoutingMode}

pub record RuntimeConfig : Type 0 where
  pub resume_state : Option ResumeState
  pub server_address : String
  pub server_port : ℕ
  pub username : String
  pub password : String
  pub phone : String
  pub login_domain : String
  pub auth_type : String
  pub graph_code_file : String
  pub cas_ticket : String
  pub oauth2_code : String
  pub sid : String
  pub device_id : String
  pub sign_key : String
  pub client_data_file : String
  pub resource_file : String
  pub update_best_nodes_interval : ℕ
  pub bind_interface : String
  pub auto_detect_interface : Bool
  pub skip_tcp_tunnel_wait : Bool
  pub disable_auto_reconnect : Bool
  pub setup_network : Bool
  pub tcp_tunnel_mode : Bool
  pub disable_remote_dns : Bool
  pub remote_dns_server : String
  pub secondary_dns_server : String
  pub dns_ttl : ℕ
  pub dns_bind : String
  pub hosts : List (String × String)
  pub socks_bind : String
  pub socks_username : String
  pub socks_password : String
  pub http_bind : String
  pub tun_enabled : Bool
  pub tun_name : String
  pub tun_address : String
  pub tun_mtu : ℕ
  pub tun_auto_route : Bool
  pub tun_route_all : Bool
  pub tun_strict_route : Bool
  pub tun_stack : String
  pub tun_outbound_interface : String
  pub tun_udp_timeout_seconds : ℕ
  pub tun_udp_max_flows : ℕ
  pub tun_dns_hijack : Bool
  pub tun_fake_ip : Bool
  pub tun_fake_ip_range : String
  pub routing_mode : RoutingMode
  pub internet_outbound : InternetOutboundConfig
  pub network_runtime : Option ℕ
  pub auth_handler : Option String
  pub node_selection_handler : Option String

unfoldable pub to_runtime_config : Config → RuntimeConfig
to_runtime_config config = record {
  resume_state = config.resume_state;
  server_address = config.server_address;
  server_port = config.server_port;
  username = config.username;
  password = config.password;
  phone = config.phone;
  login_domain = config.login_domain;
  auth_type = config.auth_type;
  graph_code_file = config.graph_code_file;
  cas_ticket = config.cas_ticket;
  oauth2_code = config.oauth2_code;
  sid = config.sid;
  device_id = config.device_id;
  sign_key = config.sign_key;
  client_data_file = config.client_data_file;
  resource_file = "";
  update_best_nodes_interval = config.update_best_nodes_seconds;
  bind_interface = config.bind_interface;
  auto_detect_interface =
      if config.tun_enabled
        && config.tun_auto_route
        && config.tun_route_all
        && config.bind_interface == ""
      then true
      else config.auto_detect_interface;
  skip_tcp_tunnel_wait = false;
  disable_auto_reconnect = config.disable_auto_reconnect;
  setup_network = false;
  tcp_tunnel_mode = false;
  disable_remote_dns = config.disable_remote_dns;
  remote_dns_server = config.remote_dns_server;
  secondary_dns_server = config.secondary_dns_server;
  dns_ttl = config.dns_ttl;
  dns_bind = config.dns_bind;
  hosts = config.hosts;
  socks_bind = config.socks_bind;
  socks_username = config.socks_username;
  socks_password = config.socks_password;
  http_bind = config.http_bind;
  tun_enabled = config.tun_enabled;
  tun_name = config.tun_name;
  tun_address = config.tun_address;
  tun_mtu = config.tun_mtu;
  tun_auto_route = config.tun_auto_route;
  tun_route_all = config.tun_route_all;
  tun_strict_route = false;
  tun_stack = "";
  tun_outbound_interface =
      if config.tun_enabled && config.tun_auto_route && config.tun_outbound_interface == ""
      then config.bind_interface
      else config.tun_outbound_interface;
  tun_udp_timeout_seconds = config.tun_udp_timeout_seconds;
  tun_udp_max_flows = config.tun_udp_max_flows;
  tun_dns_hijack = config.tun_dns_hijack;
  tun_fake_ip = config.tun_fake_ip;
  tun_fake_ip_range = config.tun_fake_ip_range;
  routing_mode = config.routing_mode;
  internet_outbound = config.internet_outbound;
  network_runtime = none;
  auth_handler = none;
  node_selection_handler = none;
}

-- A TUN device that takes all routes never leaves the tunnel's own connections unbound: the runtime is
-- bound to an interface or detects one, and its outbound traffic has the interface asked for, or the one
-- it is bound to.
pub to_runtime_config_bound :
    (config : Config)
    → config.tun_enabled ≡ true
    → config.tun_auto_route ≡ true
    → config.tun_route_all ≡ true
    → let r = to_runtime_config config in
      ((r.bind_interface ≢ "") ⊎ (r.auto_detect_interface ≡ true))
      × ((r.tun_outbound_interface ≡ config.tun_outbound_interface)
          ⊎ (r.tun_outbound_interface ≡ r.bind_interface))
unfolding to_runtime_config
to_runtime_config_bound config e a r = (
  elim (Bool-cases (config.bind_interface == "")) [
    | inl unbound ↦ inr (ground arith)
    | inr bound ↦ inl (ground (arith, eq_iff config.bind_interface ""))
  ],
  elim (Bool-cases (config.tun_outbound_interface == "")) [
    | inl unset ↦ inr (ground arith)
    | inr asked ↦ inl (ground arith)
  ],
)
