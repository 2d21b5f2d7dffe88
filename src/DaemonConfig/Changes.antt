-- ===== src/DaemonConfig/Changes.antt =====
-- daemonconfig/lifecycle.go: which settings of two configurations differ and what a change of each requires.
-- `leaves` are the fields that the reflection of `collectChanges` visits, in its order, under the names of their
-- JSON tags; a map's entries are in the order of their names, so that equal maps are equal lists, and a nil map is
-- the empty one.
pub mod Leaves
pub mod Settings
pub mod Pending
use Prim.Native.Nat.{compare, Ordering}
use Prim.Native.String
use Prim.Native.Char.{code}
use zju_portal_core.Base.{
  ℕ, ℤ, Bool, true, false, ◌&&◌, ◌||◌, Option, none, some, List, [], ◌∷◌, String, ◌==◌, string_eq,
  nat_beq, ltb, if◌then◌else◌, not,
}
use zju_portal_core.Config.{
  InternetOutboundType, direct_outbound, socks5_outbound, reject_outbound, unset_outbound,
  other_outbound,
}
use zju_portal_core.Dial.{RoutingMode, global, rule, direct, unset, other_mode}
use zju_portal_core.DaemonConfig.{DaemonConfig}

pub data ApplyRequirement : Type 0 where
  live session_restart core_restart : ApplyRequirement

pub record Change : Type 0 where
  pub path : String
  pub requires : ApplyRequirement

-- A field of a kind that `collectChanges` compares as a whole.
pub data Leaf : Type 0 where
  text : String → Leaf
  number : ℤ → Leaf
  natural : ℕ → Leaf
  flag : Bool → Leaf
  mode : RoutingMode → Leaf
  outbound : InternetOutboundType → Leaf
  table : List (String × String) → Leaf

-- `reflect.DeepEqual` on each kind of field.
unfoldable pub int_test : ℤ → ℤ → Bool
int_test (ℤ.pos m) (ℤ.pos n) = nat_beq m n
int_test (ℤ.negsuc m) (ℤ.negsuc n) = nat_beq m n
int_test _ _ = false

unfoldable pub flag_test : Bool → Bool → Bool
flag_test true b = b
flag_test false b = not b

unfoldable pub mode_test : RoutingMode → RoutingMode → Bool
mode_test global global = true
mode_test rule rule = true
mode_test direct direct = true
mode_test unset unset = true
mode_test (other_mode a) (other_mode b) = a == b
mode_test _ _ = false

unfoldable pub outbound_test : InternetOutboundType → InternetOutboundType → Bool
outbound_test direct_outbound direct_outbound = true
outbound_test socks5_outbound socks5_outbound = true
outbound_test reject_outbound reject_outbound = true
outbound_test unset_outbound unset_outbound = true
outbound_test (other_outbound a) (other_outbound b) = a == b
outbound_test _ _ = false

unfoldable pub table_test : List (String × String) → List (String × String) → Bool
table_test [] [] = true
table_test ((k, v) ∷ m) ((j, w) ∷ n) = (k == j && v == w) && table_test m n
table_test _ _ = false

unfoldable pub leaf_test : Leaf → Leaf → Bool
unfolding int_test flag_test mode_test outbound_test table_test
leaf_test (text a) (text b) = a == b
leaf_test (number a) (number b) = int_test a b
leaf_test (natural a) (natural b) = nat_beq a b
leaf_test (flag a) (flag b) = flag_test a b
leaf_test (mode a) (mode b) = mode_test a b
leaf_test (outbound a) (outbound b) = outbound_test a b
leaf_test (table a) (table b) = table_test a b
leaf_test _ _ = false

unfoldable pub leaves : DaemonConfig → List (String × Leaf)
leaves c =
    ("version", number c.version)
    ∷ ("log.level", text c.log.level)
    ∷ ("log.output", text c.log.output)
    ∷ ("control.stdio.enabled", flag c.control.stdio_enabled)
    ∷ ("control.rest.enabled", flag c.control.rest.enabled)
    ∷ ("control.rest.listen", text c.control.rest.listen)
    ∷ ("control.rest.secret", text c.control.rest.secret)
    ∷ ("control.rest.secret-file", text c.control.rest.secret_file)
    ∷ ("session.id", text c.session.id)
    ∷ ("session.auto-start", flag c.session.auto_start)
    ∷ ("session.auto-reconnect", flag c.session.auto_reconnect)
    ∷ ("state.resume-file", text c.resume_file)
    ∷ ("atrust.server", text c.atrust.server)
    ∷ ("atrust.port", number c.atrust.port)
    ∷ ("atrust.username", text c.atrust.username)
    ∷ ("atrust.password", text c.atrust.password)
    ∷ ("atrust.phone", text c.atrust.phone)
    ∷ ("atrust.auth-type", text c.atrust.auth_type)
    ∷ ("atrust.login-domain", text c.atrust.login_domain)
    ∷ ("atrust.update-best-nodes-interval", number c.atrust.update_best_nodes_interval)
    ∷ ("underlay.interface", text c.underlay.interface)
    ∷ ("underlay.auto-detect", flag c.underlay.auto_detect)
    ∷ ("routing.mode", mode c.routing.mode)
    ∷ ("routing.internet-outbound.type", outbound c.routing.internet_outbound.outbound_type)
    ∷ ("routing.internet-outbound.address", text c.routing.internet_outbound.address)
    ∷ ("routing.internet-outbound.username", text c.routing.internet_outbound.username)
    ∷ ("routing.internet-outbound.password", text c.routing.internet_outbound.password)
    ∷ ("dns.remote.enabled", flag c.dns.remote_enabled)
    ∷ ("dns.remote.server", text c.dns.remote_server)
    ∷ ("dns.secondary.server", text c.dns.secondary_server)
    ∷ ("dns.cache-ttl", number c.dns.cache_ttl)
    ∷ ("dns.listen", text c.dns.listen)
    ∷ ("dns.hosts", table c.dns.hosts)
    ∷ ("inbounds.socks5.enabled", flag c.inbounds.socks5.enabled)
    ∷ ("inbounds.socks5.listen", text c.inbounds.socks5.listen)
    ∷ ("inbounds.socks5.username", text c.inbounds.socks5.username)
    ∷ ("inbounds.socks5.password", text c.inbounds.socks5.password)
    ∷ ("inbounds.http.enabled", flag c.inbounds.http.enabled)
    ∷ ("inbounds.http.listen", text c.inbounds.http.listen)
    ∷ ("inbounds.tun.enabled", flag c.inbounds.tun.enabled)
    ∷ ("inbounds.tun.name", text c.inbounds.tun.name)
    ∷ ("inbounds.tun.address", text c.inbounds.tun.address)
    ∷ ("inbounds.tun.mtu", natural c.inbounds.tun.mtu)
    ∷ ("inbounds.tun.auto-route", flag c.inbounds.tun.auto_route)
    ∷ ("inbounds.tun.route-all", flag c.inbounds.tun.route_all)
    ∷ ("inbounds.tun.outbound-interface", text c.inbounds.tun.outbound_interface)
    ∷ ("inbounds.tun.udp.idle-timeout", number c.inbounds.tun.idle_timeout)
    ∷ ("inbounds.tun.udp.max-flows", number c.inbounds.tun.max_flows)
    ∷ ("inbounds.tun.dns.hijack", flag c.inbounds.tun.hijack)
    ∷ ("inbounds.tun.dns.fake-ip", flag c.inbounds.tun.fake_ip)
    ∷ ("inbounds.tun.dns.fake-ip-range", text c.inbounds.tun.fake_ip_range)
    ∷ []

abbrev pub path_unless : Bool → String → List String → List String
path_unless true path paths = paths
path_unless false path paths = path ∷ paths

-- The paths of the fields that differ.
unfoldable pub collect_changes : List (String × Leaf) → List (String × Leaf) → List String
collect_changes ((path, x) ∷ xs) ((_, y) ∷ ys) =
    path_unless (leaf_test x y) path (collect_changes xs ys)
collect_changes [] ys = []
collect_changes (x ∷ xs) [] = []

-- `strings.HasPrefix`, and Go's `<` on strings.
unfoldable pub has_prefix : String → String → Bool
has_prefix s String.[] = true
has_prefix String.[] (String.◌∷◌ c prefix) = false
has_prefix (String.◌∷◌ d s) (String.◌∷◌ c prefix) = nat_beq (code d) (code c) && has_prefix s prefix

unfoldable pub requirement_for_path : String → ApplyRequirement
unfolding has_prefix
requirement_for_path path =
    if path == "routing.mode"
    then live
    else if has_prefix path "control."
        || has_prefix path "log."
        || path == "session.auto-start"
        || has_prefix path "state."
        || has_prefix path "inbounds.tun."
    then core_restart
    else session_restart

unfoldable pub change_at : String → Change
change_at path = record { path = path; requires = requirement_for_path path }

unfoldable pub before : String → String → Bool
before a b = elim (String.compare a b) [ Ordering.lt ↦ true | _ ↦ false ]

unfoldable pub place : Change → List Change → List Change
place c [] = c ∷ []
place c (d ∷ ds) = if before d.path c.path then d ∷ place c ds else c ∷ d ∷ ds

-- `sort.Slice` by path.
unfoldable pub sorted : List String → List Change
sorted [] = []
sorted (path ∷ paths) = place (change_at path) (sorted paths)

unfoldable pub changes : DaemonConfig → DaemonConfig → List Change
changes active configured = sorted (collect_changes (leaves active) (leaves configured))
