-- ===== src/Tests/DialTests.antt =====
-- Runs of the models of dial/ at concrete inputs.
use zju_portal_core.Base.{ℕ, refl, [], ◌∷◌}
use zju_portal_core.Core.Error.{plain, is_error}
use zju_portal_core.Stream.{ok, err}
use zju_portal_core.Resource.{IpResource}
use zju_portal_core.Dial.{
  rule, RouteInfo, out_internet, resource_not_matched, Router, dial_context, err_not_in_resources,
}
use zju_portal_core.Dial.Routing.{Allowed, dial_context-Allowed}

abbrev two_ways : Router ℕ
two_ways = record {
  vpn = λ network address. err (plain err_not_in_resources);
  internet = λ network address. ok 1;
  direct_out = λ network address. ok 2;
  mode = rule;
}

abbrev outside : RouteInfo
outside = record { outbound = out_internet; reason = resource_not_matched }

dial_context-Allowed_example : Allowed two_ways "tcp" "example.com:80" 1 outside
unfolding dial_context is_error
dial_context-Allowed_example = dial_context-Allowed two_ways "tcp" "example.com:80" 1 outside refl

abbrev web : IpResource
web = record {
  ip_min = 10 ∷ 0 ∷ 0 ∷ 2 ∷ [];
  ip_max = 10 ∷ 0 ∷ 0 ∷ 9 ∷ [];
  port_min = 80;
  port_max = 80;
  protocol = "tcp";
  app_id = "web";
  node_group_id = "group";
}
