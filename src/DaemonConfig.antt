-- ===== src/DaemonConfig.antt =====
-- daemonconfig/config.go: the configuration file of the daemon and its defaults. Encoding is of libraries; a
-- duration is its nanoseconds, and `hosts` the entries of the map, each name once.
pub mod Changes
pub mod Merge
pub mod Validate
use zju_portal_core.Base.{ℕ, ◌*◌, ℤ, pos, Bool, true, false, String, List, []}
use zju_portal_core.Config.{InternetOutboundType, direct_outbound}
use zju_portal_core.Dial.{RoutingMode, rule}

pub record LogConfig : Type 0 where
  pub level : String
  pub output : String

pub record RestConfig : Type 0 where
  pub enabled : Bool
  pub listen : String
  pub secret : String
  pub secret_file : String

pub record ControlConfig : Type 0 where
  pub stdio_enabled : Bool
  pub rest : RestConfig

pub record SessionConfig : Type 0 where
  pub id : String
  pub auto_start : Bool
  pub auto_reconnect : Bool

pub record AtrustConfig : Type 0 where
  pub server : String
  pub port : ℤ
  pub username : String
  pub password : String
  pub phone : String
  pub auth_type : String
  pub login_domain : String
  pub update_best_nodes_interval : ℤ

pub record UnderlayConfig : Type 0 where
  pub interface : String
  pub auto_detect : Bool

pub record OutboundConfig : Type 0 where
  pub outbound_type : InternetOutboundType
  pub address : String
  pub username : String
  pub password : String

pub record RoutingConfig : Type 0 where
  pub mode : RoutingMode
  pub internet_outbound : OutboundConfig

pub record DnsConfig : Type 0 where
  pub remote_enabled : Bool
  pub remote_server : String
  pub secondary_server : String
  pub cache_ttl : ℤ
  pub listen : String
  pub hosts : List (String × String)

pub record Socks5Config : Type 0 where
  pub enabled : Bool
  pub listen : String
  pub username : String
  pub password : String

pub record HttpConfig : Type 0 where
  pub enabled : Bool
  pub listen : String

pub record TunConfig : Type 0 where
  pub enabled : Bool
  pub name : String
  pub address : String
  pub mtu : ℕ
  pub auto_route : Bool
  pub route_all : Bool
  pub outbound_interface : String
  pub idle_timeout : ℤ
  pub max_flows : ℤ
  pub hijack : Bool
  pub fake_ip : Bool
  pub fake_ip_range : String

pub record InboundsConfig : Type 0 where
  pub socks5 : Socks5Config
  pub http : HttpConfig
  pub tun : TunConfig

pub record DaemonConfig : Type 0 where
  pub version : ℤ
  pub log : LogConfig
  pub control : ControlConfig
  pub session : SessionConfig
  pub resume_file : String
  pub atrust : AtrustConfig
  pub underlay : UnderlayConfig
  pub routing : RoutingConfig
  pub dns : DnsConfig
  pub inbounds : InboundsConfig

abbrev pub second : ℕ
second = 1000000000

unfoldable pub default_config : DaemonConfig
default_config = record {
  version = pos 1;
  log = record { level = "info"; output = "stderr" };
  control = record {
    stdio_enabled = false;
    rest = record { enabled = false; listen = "127.0.0.1:9090"; secret = ""; secret_file = "" };
  };
  session = record { id = "default"; auto_start = true; auto_reconnect = true };
  resume_file = "";
  atrust = record {
    server = "";
    port = pos 443;
    username = "";
    password = "";
    phone = "";
    auth_type = "auth/psw";
    login_domain = "Radius";
    update_best_nodes_interval = pos (30 * second);
  };
  underlay = record { interface = ""; auto_detect = false };
  routing = record {
    mode = rule;
    internet_outbound = record {
      outbound_type = direct_outbound;
      address = "";
      username = "";
      password = "";
    };
  };
  dns = record {
    remote_enabled = true;
    remote_server = "auto";
    secondary_server = "";
    cache_ttl = pos (3600 * second);
    listen = "";
    hosts = [];
  };
  inbounds = record {
    socks5 = record { enabled = false; listen = "127.0.0.1:1080"; username = ""; password = "" };
    http = record { enabled = false; listen = "127.0.0.1:1081" };
    tun = record {
      enabled = false;
      name = "ZJU-Portal";
      address = "172.19.0.1/30";
      mtu = 1400;
      auto_route = false;
      route_all = false;
      outbound_interface = "";
      idle_timeout = pos (60 * second);
      max_flows = pos 512;
      hijack = false;
      fake_ip = false;
      fake_ip_range = "198.18.0.0/16";
    };
  };
}
