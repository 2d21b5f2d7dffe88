-- ===== src/DaemonConfig/Validate.antt =====
-- daemonconfig/config.go: `Validate`, `CoreConfig` and `SecurityWarnings`. The functions of net and netip are
-- parameters; a loop over a map takes its entries in order. An error is its text, without its values.
pub mod Checked
pub mod Handed
use zju_portal_core.Base.{
  ℕ, ◌/◌, ℤ, pos, negsuc, is_negative, is_positive, exceeds, to_nat, Bool, true, false, not, ◌&&◌,
  ◌||◌, Option, none, some, List, [], ◌∷◌, ◌++◌, String, string_eq, ◌==◌, length, ltb, nat_beq,
  if◌then◌else◌,
}
use zju_portal_core.Config.{Config, InternetOutboundType, socks5_outbound, outbound_type_valid}
use zju_portal_core.Dial.{mode_valid}
use zju_portal_core.DaemonConfig.{DaemonConfig, TunConfig, second}

-- `parse_ip` and `parse_prefix` are `net.ParseIP` and `netip.ParsePrefix`, whose Boolean is that of
-- `Addr().Is4()`; `split_host` is the host of `net.SplitHostPort`, `is_loopback` that of a parsed address.
pub record Library : Type 0 where
  pub text_length : String → ℕ
  pub parse_ip : String → Option (List ℕ)
  pub parse_prefix : String → Option Bool
  pub split_host : String → Option String
  pub is_loopback : List ℕ → Bool

-- An `if` that returns an error.
unfoldable pub refuse : Bool → String → Option String → Option String
refuse true e rest = some e
refuse false e rest = rest

abbrev pub longer : Library → ℕ → List String → Bool
longer lib limit [] = false
longer lib limit (s ∷ rest) = ltb limit (lib.text_length s) || longer lib limit rest

abbrev pub values : DaemonConfig → List String
values c =
    c.session.id ∷ c.log.output ∷ c.control.rest.listen ∷ c.control.rest.secret
    ∷ c.control.rest.secret_file ∷ c.atrust.username ∷ c.atrust.password ∷ c.atrust.phone
    ∷ c.atrust.auth_type ∷ c.atrust.login_domain ∷ c.routing.internet_outbound.address
    ∷ c.routing.internet_outbound.username ∷ c.routing.internet_outbound.password
    ∷ c.dns.remote_server ∷ c.dns.secondary_server ∷ c.dns.listen ∷ c.inbounds.socks5.listen
    ∷ c.inbounds.socks5.username ∷ c.inbounds.socks5.password ∷ c.inbounds.http.listen
    ∷ c.inbounds.tun.address ∷ c.inbounds.tun.fake_ip_range ∷ []

abbrev pub names : DaemonConfig → List String
names c =
    c.atrust.server ∷ c.underlay.interface ∷ c.inbounds.tun.name ∷ c.inbounds.tun.outbound_interface
    ∷ []

abbrev pub auth_type_known : String → Bool
auth_type_known s =
    s == ""
    || s == "auth/psw"
    || s == "auth/cas"
    || s == "auth/httpsOauth2"
    || s == "auth/smsCheckCode"

abbrev pub is_socks5 : InternetOutboundType → Bool
is_socks5 socks5_outbound = true
is_socks5 _ = false

abbrev pub is_one : ℤ → Bool
is_one (pos n) = nat_beq n 1
is_one (negsuc n) = false

abbrev pub is_none {ℓ} : {A : Type ℓ} → Option A → Bool
is_none none = true
is_none (some a) = false

-- The two length loops.
unfoldable pub check_lengths : Library → DaemonConfig → Option String → Option String
check_lengths lib c rest =
    refuse (longer lib 4096 (values c)) "value exceeds 4096 bytes"
      (refuse (longer lib 256 (names c)) "name exceeds 256 bytes" rest)

-- From `session.auto-start` to `atrust.phone`.
unfoldable pub check_account : DaemonConfig → Option String → Option String
check_account c rest =
    refuse (c.session.auto_start && c.atrust.server == "") "atrust.server is required" (
      refuse (not (c.log.level == "info") && not (c.log.level == "debug")) "log.level is invalid" (
        refuse (not (is_positive c.atrust.port) || exceeds c.atrust.port 65535)
          "atrust.port is invalid"
          (refuse (is_negative c.atrust.update_best_nodes_interval) "interval cannot be negative" (
            refuse (not (auth_type_known c.atrust.auth_type)) "atrust.auth-type is invalid" (
              refuse (c.atrust.auth_type == "auth/smsCheckCode" && c.atrust.phone == "")
                "atrust.phone is required" rest)))))

-- `!=` of two Booleans.
abbrev pub different : Bool → Bool → Bool
different true b = not b
different false b = b

-- From `routing.mode` to `inbounds.http.listen`.
unfoldable pub check_services : DaemonConfig → Option String → Option String
check_services c rest = refuse (not (mode_valid c.routing.mode)) "routing.mode is invalid" (
    refuse (not (outbound_type_valid c.routing.internet_outbound.outbound_type))
      "routing.internet-outbound.type is invalid"
      (refuse
        (is_socks5 c.routing.internet_outbound.outbound_type
          && c.routing.internet_outbound.address == "")
        "routing.internet-outbound.address is required"
        (refuse (not (is_positive c.dns.cache_ttl)) "dns.cache-ttl must be positive" (
          refuse (not (c.control.rest.secret == "") && not (c.control.rest.secret_file == ""))
            "control.rest.secret and secret-file are mutually exclusive"
            (refuse (c.control.rest.enabled && c.control.rest.listen == "")
              "control.rest.listen is required"
              (refuse (c.inbounds.socks5.enabled && c.inbounds.socks5.listen == "")
                "inbounds.socks5.listen is required"
                (refuse
                  (c.inbounds.socks5.enabled
                    && different (c.inbounds.socks5.username == "")
                        (c.inbounds.socks5.password == ""))
                  "inbounds.socks5 username and password must be configured together"
                  (refuse (c.inbounds.http.enabled && c.inbounds.http.listen == "")
                    "inbounds.http.listen is required" rest))))))))

-- The loop over `dns.hosts`.
unfoldable pub check_hosts : Library → List (String × String) → Option String → Option String
check_hosts lib [] rest = rest
check_hosts lib ((host, address) ∷ hosts) rest =
    refuse (ltb 253 (lib.text_length host) || ltb 64 (lib.text_length address))
      "dns.hosts contains oversized record"
      (refuse (host == "" || is_none (lib.parse_ip address)) "dns.hosts contains invalid record"
        (check_hosts lib hosts rest))

abbrev pub is_ipv4 : Option Bool → Bool
is_ipv4 none = false
is_ipv4 (some is4) = is4

-- The checks of an enabled TUN device.
unfoldable pub check_tun : Library → TunConfig → Option String
check_tun lib t = refuse (is_none (lib.parse_prefix t.address)) "inbounds.tun.address" (
    refuse (nat_beq t.mtu 0) "inbounds.tun.mtu must be positive" (
      refuse (not (is_positive t.idle_timeout)) "inbounds.tun.udp.idle-timeout must be positive" (
        refuse (not (is_positive t.max_flows)) "inbounds.tun.udp.max-flows must be positive" (
          refuse (t.fake_ip && not t.auto_route) "inbounds.tun.dns.fake-ip requires auto-route" (
            refuse (t.hijack && not t.auto_route) "inbounds.tun.dns.hijack requires auto-route" (
              refuse (t.fake_ip && not (is_ipv4 (lib.parse_prefix t.fake_ip_range)))
                "inbounds.tun.dns.fake-ip-range must be a valid IPv4 prefix" none))))))

unfoldable pub validate : Library → DaemonConfig → Option String
unfolding check_lengths check_account check_services check_hosts check_tun
validate lib c = refuse (not (is_one c.version)) "unsupported config version" (
    refuse (c.session.id == "") "session.id is required" (
      check_lengths lib c (
        check_account c (
          check_services c (
            refuse (ltb 4096 (length c.dns.hosts)) "dns.hosts contains too many entries" (
              check_hosts lib c.dns.hosts
                (if c.inbounds.tun.enabled then check_tun lib c.inbounds.tun else none)))))))

abbrev pub seconds : ℤ → ℕ
seconds d = to_nat d / second

-- A setting of a part that is not enabled is that of an empty configuration.
abbrev pub if_enabled {ℓ} : {A : Type ℓ} → Bool → A → A → A
if_enabled enabled x y = if enabled then x else y

unfoldable pub core_config : DaemonConfig → Config
core_config c = record {
  protocol = "atrust";
  resume_state = none;
  session_id = c.session.id;
  server_address = c.atrust.server;
  server_port = to_nat c.atrust.port;
  username = c.atrust.username;
  password = c.atrust.password;
  phone = c.atrust.phone;
  login_domain = c.atrust.login_domain;
  auth_type = c.atrust.auth_type;
  graph_code_file = "";
  cas_ticket = "";
  oauth2_code = "";
  sid = "";
  device_id = "";
  sign_key = "";
  client_data_file = "";
  update_best_nodes_seconds = seconds c.atrust.update_best_nodes_interval;
  bind_interface = c.underlay.interface;
  auto_detect_interface = c.underlay.auto_detect;
  disable_auto_reconnect = not c.session.auto_reconnect;
  disable_remote_dns = not c.dns.remote_enabled;
  remote_dns_server = c.dns.remote_server;
  secondary_dns_server = c.dns.secondary_server;
  dns_ttl = seconds c.dns.cache_ttl;
  dns_bind = c.dns.listen;
  hosts = c.dns.hosts;
  socks_bind = if_enabled c.inbounds.socks5.enabled c.inbounds.socks5.listen "";
  socks_username = if_enabled c.inbounds.socks5.enabled c.inbounds.socks5.username "";
  socks_password = if_enabled c.inbounds.socks5.enabled c.inbounds.socks5.password "";
  http_bind = if_enabled c.inbounds.http.enabled c.inbounds.http.listen "";
  tun_enabled = c.inbounds.tun.enabled;
  tun_name = if_enabled c.inbounds.tun.enabled c.inbounds.tun.name "";
  tun_address = if_enabled c.inbounds.tun.enabled c.inbounds.tun.address "";
  tun_mtu = if_enabled c.inbounds.tun.enabled c.inbounds.tun.mtu 0;
  tun_auto_route = if_enabled c.inbounds.tun.enabled c.inbounds.tun.auto_route false;
  tun_route_all = if_enabled c.inbounds.tun.enabled c.inbounds.tun.route_all false;
  tun_outbound_interface = if_enabled c.inbounds.tun.enabled c.inbounds.tun.outbound_interface "";
  tun_udp_timeout_seconds =
      if_enabled c.inbounds.tun.enabled (seconds c.inbounds.tun.idle_timeout) 0;
  tun_udp_max_flows = if_enabled c.inbounds.tun.enabled (to_nat c.inbounds.tun.max_flows) 0;
  tun_dns_hijack = if_enabled c.inbounds.tun.enabled c.inbounds.tun.hijack false;
  tun_fake_ip = if_enabled c.inbounds.tun.enabled c.inbounds.tun.fake_ip false;
  tun_fake_ip_range = if_enabled c.inbounds.tun.enabled c.inbounds.tun.fake_ip_range "";
  routing_mode = c.routing.mode;
  internet_outbound = record {
    outbound_type = c.routing.internet_outbound.outbound_type;
    address = c.routing.internet_outbound.address;
    username = c.routing.internet_outbound.username;
    password = c.routing.internet_outbound.password;
  };
}

-- A warning with the address that it is about.
pub data Warning : Type 0 where
  rest_exposed http_exposed dns_exposed : String → Warning
  socks_exposed : String → Bool → Warning

unfoldable pub is_loopback_listen : Library → String → Bool
is_loopback_listen lib address = elim (lib.split_host address) [
  | none ↦ false
  | some host ↦
      if host == "localhost"
      then true
      else elim (lib.parse_ip host) [ none ↦ false | some ip ↦ lib.is_loopback ip ]
]

abbrev pub warn : Bool → Warning → List Warning
warn t w = if t then w ∷ [] else []

unfoldable pub security_warnings : Library → DaemonConfig → List Warning
unfolding is_loopback_listen
security_warnings lib c =
    warn (c.control.rest.enabled && not (is_loopback_listen lib c.control.rest.listen))
      (rest_exposed c.control.rest.listen)
    ++ warn (c.inbounds.socks5.enabled && not (is_loopback_listen lib c.inbounds.socks5.listen))
        (socks_exposed c.inbounds.socks5.listen (c.inbounds.socks5.username == ""))
    ++ warn (c.inbounds.http.enabled && not (is_loopback_listen lib c.inbounds.http.listen))
        (http_exposed c.inbounds.http.listen)
    ++ warn (not (c.dns.listen == "") && not (is_loopback_listen lib c.dns.listen))
        (dns_exposed c.dns.listen)
