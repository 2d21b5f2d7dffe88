-- ===== src/Tests/StoreTests.antt =====
-- Runs of the models of internal/networkruntime/tun_fakeip.go and client/atrust/l3tunnelconntrack.go
-- at concrete inputs.
use zju_portal_core.Base.{
  ◌≡◌, ◌≢◌, refl, true, none, some, [], String, string_eq, eq_iff, nat_eq, arith,
}
use zju_portal_core.Base.Map.{lookup, insert}
use zju_portal_core.FakeIp.{FakeIpStore, Prefix, new_fake_ip_store, assign, lookup_destination}
use zju_portal_core.FakeIp.Bijection.{IsStore}
use zju_portal_core.FakeIp.Reuse.{
  new_fake_ip_store-IsStore, lookup_destination-assign, Reach, Reach-IsStore, here, assigned,
}

-- 198.18.0.0/30: one address.
abbrev small_prefix : Prefix
small_prefix = record { is4 = true; address = 3323068416; bits = 30 }

abbrev empty_store : FakeIpStore
empty_store = record {
  entries = [];
  domain_to_ip = [];
  ip_to_domain = [];
  next = 3323068418;
  last = 3323068418;
}

empty_store-IsStore : IsStore empty_store
unfolding new_fake_ip_store
empty_store-IsStore = new_fake_ip_store-IsStore small_prefix empty_store (omega arith) refl

abbrev one_store : FakeIpStore
one_store = (assign 5 "a" none empty_store).0

abbrev one_reached : Reach empty_store one_store
one_reached = assigned 5 "a" none here

one_store-IsStore : IsStore one_store
one_store-IsStore = Reach-IsStore empty_store-IsStore one_reached

Reach-IsStore_example : IsStore one_store
Reach-IsStore_example = Reach-IsStore empty_store-IsStore one_reached

lookup_destination-assign_example :
    (lookup_destination 9 3323068418 (assign 1800000000005 "b" (some 7) one_store).0).1
    ≡ some ("b", some 7)
unfolding assign lookup insert
lookup_destination-assign_example =
    lookup_destination-assign 1800000000005 9 "b" (some 7) one_store 3323068418 one_store-IsStore
      refl

b-ne-a : ◌≢◌ {A = String} "b" "a"
b-ne-a e = ground (arith, eq_iff "b" "a")
