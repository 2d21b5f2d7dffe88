-- ===== src/Config.antt =====
-- core/config.go: what a session is asked to do. Integers that are only handed on are natural numbers.
use zju_portal_core.Base.{ℕ, Bool, true, false, String, Option, List}
use zju_portal_core.Dial.{RoutingMode}

pub record ResumeStateScope : Type 0 where
  pub server_address : String
  pub server_port : ℕ
  pub username : String

pub record ResumeState : Type 0 where
  pub format : String
  pub version : ℕ
  pub revision : ℕ
  pub scope : ResumeStateScope
  pub updated_at : ℕ
  pub data_text : String
  pub reused : Bool

-- `unset_outbound` is the empty string, `other_outbound` any other one.
pub data InternetOutboundType : Type 0 where
  direct_outbound socks5_outbound reject_outbound unset_outbound : InternetOutboundType
  other_outbound : String → InternetOutboundType

unfoldable pub outbound_type_valid : InternetOutboundType → Bool
outbound_type_valid unset_outbound = false
outbound_type_valid (other_outbound s) = false
outbound_type_valid _ = true

pub record InternetOutboundConfig : Type 0 where
  pub outbound_type : InternetOutboundType
  pub address : String
  pub username : String
  pub password : String

pub record Config : Type 0 where
  pub protocol : String
  pub resume_state : Option ResumeState
  pub session_id : String
  pub server_address : String
  pub server_port : ℕ
  pub username : String
  pub password : String
  pub phone : String
  pub login_domain : String
  pub auth_type : String
  pub graph_code_file : String
  pub cas_ticket : String
  pub oauth2_code : String
  pub sid : String
  pub device_id : String
  pub sign_key : String
  pub client_data_file : String
  pub update_best_nodes_seconds : ℕ
  pub bind_interface : String
  pub auto_detect_interface : Bool
  pub disable_auto_reconnect : Bool
  pub disable_remote_dns : Bool
  pub remote_dns_server : String
  pub secondary_dns_server : String
  pub dns_ttl : ℕ
  pub dns_bind : String
  pub hosts : List (String × String)
  pub socks_bind : String
  pub socks_username : String
  pub socks_password : String
  pub http_bind : String
  pub tun_enabled : Bool
  pub tun_name : String
  pub tun_address : String
  pub tun_mtu : ℕ
  pub tun_auto_route : Bool
  pub tun_route_all : Bool
  pub tun_outbound_interface : String
  pub tun_udp_timeout_seconds : ℕ
  pub tun_udp_max_flows : ℕ
  pub tun_dns_hijack : Bool
  pub tun_fake_ip : Bool
  pub tun_fake_ip_range : String
  pub routing_mode : RoutingMode
  pub internet_outbound : InternetOutboundConfig
