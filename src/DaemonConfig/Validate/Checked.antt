-- ===== src/DaemonConfig/Validate/Checked.antt =====
-- What daemonconfig/config.go promises of a configuration that `Validate` accepts.
use zju_portal_core.Base.{
  ℕ, ◌<◌, ◌≡◌, ◌≢◌, ◌↔◌, refl, ℤ, pos, negsuc, Bool, true, false, not, ◌&&◌, ◌||◌, Option, none,
  some, List, [], ◌∷◌, String, string_eq, ◌==◌, arith, eq_iff, is_positive, exceeds,
}
use zju_portal_core.Config.{outbound_type_valid}
use zju_portal_core.Dial.{mode_valid}
use zju_portal_core.DaemonConfig.{DaemonConfig, TunConfig}
use zju_portal_core.DaemonConfig.Validate.{
  Library, refuse, check_lengths, check_account, check_services, check_hosts, check_tun, validate,
  is_none, is_ipv4, different,
}

refuse-none :
    (t : Bool) (e : String) (rest : Option String)
    → refuse t e rest ≡ none
    → (t ≡ false) × (rest ≡ none)
unfolding refuse
refuse-none true e rest h = absurd (ground arith)
refuse-none false e rest h = (refl, h)

-- A TUN device that can be set up.
pub record IsTun (lib : Library) (t : TunConfig) : Type 0 where
  pub mtu : t.mtu ≢ 0
  pub idle_timeout : (n : ℕ) × (t.idle_timeout ≡ pos n) × (0 < n)
  pub max_flows : (n : ℕ) × (t.max_flows ≡ pos n) × (0 < n)
  pub hijack_routes : t.hijack ≡ true → t.auto_route ≡ true
  pub fake_ip_routes : t.fake_ip ≡ true → t.auto_route ≡ true
  pub fake_ip_range : t.fake_ip ≡ true → lib.parse_prefix t.fake_ip_range ≡ some true

positive-pos : (z : ℤ) → is_positive z ≡ true → (n : ℕ) × (z ≡ pos n) × (0 < n)
positive-pos (pos n) h = (n, refl, ground arith)
positive-pos (negsuc n) h = absurd (ground arith)

is_ipv4-some : (r : Option Bool) → is_ipv4 r ≡ true → r ≡ some true
is_ipv4-some none h = absurd (ground arith)
is_ipv4-some (some true) h = refl
is_ipv4-some (some false) h = absurd (ground arith)

check_tun-IsTun : (lib : Library) (t : TunConfig) → check_tun lib t ≡ none → IsTun lib t
unfolding check_tun
check_tun-IsTun lib t h =
    let (address, h₁) = refuse-none _ _ _ h in
    let (mtu, h₂) = refuse-none _ _ _ h₁ in
    let (idle, h₃) = refuse-none _ _ _ h₂ in
    let (flows, h₄) = refuse-none _ _ _ h₃ in
    let (fake, h₅) = refuse-none _ _ _ h₄ in
    let (hijack, h₆) = refuse-none _ _ _ h₅ in
    let (range, h₇) = refuse-none _ _ _ h₆ in
    record {
      mtu = ground (arith, mtu);
      idle_timeout = positive-pos t.idle_timeout (ground (arith, idle));
      max_flows = positive-pos t.max_flows (ground (arith, flows));
      hijack_routes = λ x. ground (arith, hijack);
      fake_ip_routes = λ x. ground (arith, fake);
      fake_ip_range = λ x. is_ipv4-some (lib.parse_prefix t.fake_ip_range) (ground (arith, range));
    }

-- Every address parses.
abbrev pub AllParsed : Library → List (String × String) → Type 0
AllParsed lib [] = Unit {0}
AllParsed lib ((host, address) ∷ hosts) =
    (is_none (lib.parse_ip address) ≡ false) × AllParsed lib hosts

-- What a session can be started with; `IsTun` is said of an enabled TUN device only.
pub record IsChecked (lib : Library) (c : DaemonConfig) : Type 0 where
  pub session_id : c.session.id ≢ ""
  pub server : c.session.auto_start ≡ true → c.atrust.server ≢ ""
  pub port : (n : ℕ) × (c.atrust.port ≡ pos n) × (0 < n) × (n < 65536)
  pub phone : c.atrust.auth_type ≡ "auth/smsCheckCode" → c.atrust.phone ≢ ""
  pub mode : mode_valid c.routing.mode ≡ true
  pub outbound : outbound_type_valid c.routing.internet_outbound.outbound_type ≡ true
  pub cache_ttl : (n : ℕ) × (c.dns.cache_ttl ≡ pos n) × (0 < n)
  pub credentials :
      c.inbounds.socks5.enabled ≡ true
      → (c.inbounds.socks5.username ≡ "") ↔ (c.inbounds.socks5.password ≡ "")
  pub hosts : AllParsed lib c.dns.hosts
  pub tun : c.inbounds.tun.enabled ≡ true → IsTun lib c.inbounds.tun

port-pos :
    (z : ℤ)
    → (not (is_positive z) || exceeds z 65535) ≡ false
    → (n : ℕ) × (z ≡ pos n) × (0 < n) × (n < 65536)
port-pos (pos n) h = (n, refl, ground arith, ground arith)
port-pos (negsuc n) h = absurd (ground arith)

check_lengths-rest :
    (lib : Library) (c : DaemonConfig) (rest : Option String)
    → check_lengths lib c rest ≡ none
    → rest ≡ none
unfolding check_lengths
check_lengths-rest lib c rest h = (refuse-none _ _ _ (refuse-none _ _ _ h).1).1

-- What `check_account` establishes.
abbrev Account : DaemonConfig → Type 0
Account c =
    ((c.session.auto_start && c.atrust.server == "") ≡ false)
    × ((not (is_positive c.atrust.port) || exceeds c.atrust.port 65535) ≡ false)
    × ((c.atrust.auth_type == "auth/smsCheckCode" && c.atrust.phone == "") ≡ false)

check_account-Account :
    (c : DaemonConfig) (rest : Option String)
    → check_account c rest ≡ none
    → Account c × (rest ≡ none)
unfolding check_account
check_account-Account c rest h =
    let (server, h₁) = refuse-none _ _ _ h in
    let (level, h₂) = refuse-none _ _ _ h₁ in
    let (port, h₃) = refuse-none _ _ _ h₂ in
    let (interval, h₄) = refuse-none _ _ _ h₃ in
    let (auth_type, h₅) = refuse-none _ _ _ h₄ in
    let (phone, h₆) = refuse-none _ _ _ h₅ in ((server, port, phone), h₆)

-- What `check_services` establishes.
abbrev Services : DaemonConfig → Type 0
Services c =
    (not (mode_valid c.routing.mode) ≡ false)
    × (not (outbound_type_valid c.routing.internet_outbound.outbound_type) ≡ false)
    × (not (is_positive c.dns.cache_ttl) ≡ false)
    × ((c.inbounds.socks5.enabled
          && different (c.inbounds.socks5.username == "") (c.inbounds.socks5.password == ""))
        ≡ false)

check_services-Services :
    (c : DaemonConfig) (rest : Option String)
    → check_services c rest ≡ none
    → Services c × (rest ≡ none)
unfolding check_services
check_services-Services c rest h =
    let (mode, h₁) = refuse-none _ _ _ h in
    let (outbound, h₂) = refuse-none _ _ _ h₁ in
    let (address, h₃) = refuse-none _ _ _ h₂ in
    let (ttl, h₄) = refuse-none _ _ _ h₃ in
    let (secret, h₅) = refuse-none _ _ _ h₄ in
    let (rest_listen, h₆) = refuse-none _ _ _ h₅ in
    let (socks_listen, h₇) = refuse-none _ _ _ h₆ in
    let (credentials, h₈) = refuse-none _ _ _ h₇ in
    let (http_listen, h₉) = refuse-none _ _ _ h₈ in ((mode, outbound, ttl, credentials), h₉)

check_hosts-AllParsed :
    (lib : Library) (hosts : List (String × String)) (rest : Option String)
    → check_hosts lib hosts rest ≡ none
    → AllParsed lib hosts × (rest ≡ none)
unfolding check_hosts
check_hosts-AllParsed lib [] rest h = (tt, h)
check_hosts-AllParsed lib ((host, address) ∷ hosts) rest h =
    let (size, h₁) = refuse-none _ _ _ h in
    let (valid, h₂) = refuse-none _ _ _ h₁ in
    let (others, h₃) = check_hosts-AllParsed lib hosts rest h₂ in
    ((ground (arith, valid), others), h₃)

-- A configuration that `Validate` accepts has a session ID and a port from 1 to 65535, a server if it starts by
-- itself, a phone for the SMS code, a valid mode and outbound, a positive cache time, both SOCKS5
-- credentials or none if the SOCKS5 inbound is enabled, only hosts whose addresses parse, and, if its TUN device is enabled, a size, an idle
-- time and a number of flows that are positive, routes for hijacked DNS and fake IP, and an IPv4 prefix
-- for the latter.
pub validate-IsChecked :
    (lib : Library) (c : DaemonConfig) → validate lib c ≡ none → IsChecked lib c
unfolding validate
validate-IsChecked lib c h =
    let (version, h₁) = refuse-none _ _ _ h in
    let (id, h₂) = refuse-none _ _ _ h₁ in
    let ((server, port, phone), h₃) = check_account-Account c _ (check_lengths-rest lib c _ h₂) in
    let ((mode, outbound, ttl, credentials), h₄) = check_services-Services c _ h₃ in
    let (count, h₅) = refuse-none _ _ _ h₄ in
    let (hosts, h₆) = check_hosts-AllParsed lib c.dns.hosts _ h₅ in
    record {
      session_id = ground (arith, id, eq_iff c.session.id "");
      server = λ x. ground (arith, server, eq_iff c.atrust.server "");
      port = port-pos c.atrust.port port;
      phone = λ x.
          ground
            (arith, phone, eq_iff c.atrust.phone "", eq_iff c.atrust.auth_type "auth/smsCheckCode");
      mode = ground (arith, mode);
      outbound = ground (arith, outbound);
      cache_ttl = positive-pos c.dns.cache_ttl (ground (arith, ttl));
      credentials = λ x. ground (
        arith,
        credentials,
        eq_iff c.inbounds.socks5.username "",
        eq_iff c.inbounds.socks5.password "",
      );
      hosts = hosts;
      tun = λ x. check_tun-IsTun lib c.inbounds.tun (ground (arith, h₆));
    }
