-- ===== src/DaemonConfig/Changes/Leaves.antt =====
-- daemonconfig/lifecycle.go: the tests of `collectChanges` on a field decide equality.
use zju_portal_core.Base.{
  ℤ, ◌≡◌, refl, ap, Bool, true, false, List, [], ◌∷◌, String, string_eq, eq_iff, test_refl,
  nat_beq_iff, arith,
}
use zju_portal_core.Config.{
  InternetOutboundType, direct_outbound, socks5_outbound, reject_outbound, unset_outbound,
  other_outbound,
}
use zju_portal_core.Dial.{RoutingMode, global, rule, direct, unset, other_mode}
use zju_portal_core.DaemonConfig.Changes.{
  Leaf, text, number, natural, flag, mode, outbound, table, int_test, flag_test, mode_test,
  outbound_test, table_test, leaf_test,
}

int_test-eq : (a b : ℤ) → int_test a b ≡ true → a ≡ b
unfolding int_test
int_test-eq (ℤ.pos m) (ℤ.pos n) h = ap ℤ.pos ((nat_beq_iff m n).0 h)
int_test-eq (ℤ.negsuc m) (ℤ.negsuc n) h = ap ℤ.negsuc ((nat_beq_iff m n).0 h)
int_test-eq _ _ h = absurd (ground arith)

flag_test-eq : (a b : Bool) → flag_test a b ≡ true → a ≡ b
unfolding flag_test
flag_test-eq true b h = ground arith
flag_test-eq false b h = ground arith

pub mode_test-eq : (a b : RoutingMode) → mode_test a b ≡ true → a ≡ b
unfolding mode_test
mode_test-eq global global h = refl
mode_test-eq rule rule h = refl
mode_test-eq direct direct h = refl
mode_test-eq unset unset h = refl
mode_test-eq (other_mode a) (other_mode b) h = ap other_mode ((eq_iff a b).0 h)
mode_test-eq _ _ h = absurd (ground arith)

outbound_test-eq : (a b : InternetOutboundType) → outbound_test a b ≡ true → a ≡ b
unfolding outbound_test
outbound_test-eq direct_outbound direct_outbound h = refl
outbound_test-eq socks5_outbound socks5_outbound h = refl
outbound_test-eq reject_outbound reject_outbound h = refl
outbound_test-eq unset_outbound unset_outbound h = refl
outbound_test-eq (other_outbound a) (other_outbound b) h = ap other_outbound ((eq_iff a b).0 h)
outbound_test-eq _ _ h = absurd (ground arith)

table_test-eq : (m n : List (String × String)) → table_test m n ≡ true → m ≡ n
unfolding table_test
table_test-eq [] [] h = refl
table_test-eq ((k, v) ∷ m) ((j, w) ∷ n) h =
    ground (arith, eq_iff k j, eq_iff v w, table_test-eq m n)
table_test-eq _ _ h = absurd (ground arith)

-- Fields that compare as equal are equal.
pub leaf_test-eq : (x y : Leaf) → leaf_test x y ≡ true → x ≡ y
unfolding leaf_test
leaf_test-eq (text a) (text b) h = ap text ((eq_iff a b).0 h)
leaf_test-eq (number a) (number b) h = ap number (int_test-eq a b h)
leaf_test-eq (natural a) (natural b) h = ap natural ((nat_beq_iff a b).0 h)
leaf_test-eq (flag a) (flag b) h = ap flag (flag_test-eq a b h)
leaf_test-eq (mode a) (mode b) h = ap mode (mode_test-eq a b h)
leaf_test-eq (outbound a) (outbound b) h = ap outbound (outbound_test-eq a b h)
leaf_test-eq (table a) (table b) h = ap table (table_test-eq a b h)
leaf_test-eq _ _ h = absurd (ground arith)

table_test_self : (m : List (String × String)) → table_test m m ≡ true
unfolding table_test
table_test_self [] = refl
table_test_self ((k, v) ∷ m) = ground (arith, eq_iff k k, eq_iff v v, table_test_self m)

mode_test_self : (m : RoutingMode) → mode_test m m ≡ true
unfolding mode_test
mode_test_self (other_mode a) = test_refl a
mode_test_self global = refl
mode_test_self rule = refl
mode_test_self direct = refl
mode_test_self unset = refl

outbound_test_self : (m : InternetOutboundType) → outbound_test m m ≡ true
unfolding outbound_test
outbound_test_self (other_outbound a) = test_refl a
outbound_test_self direct_outbound = refl
outbound_test_self socks5_outbound = refl
outbound_test_self reject_outbound = refl
outbound_test_self unset_outbound = refl

pub leaf_test_self : (x : Leaf) → leaf_test x x ≡ true
unfolding leaf_test int_test flag_test
leaf_test_self (text a) = test_refl a
leaf_test_self (number (ℤ.pos n)) = (nat_beq_iff n n).1 refl
leaf_test_self (number (ℤ.negsuc n)) = (nat_beq_iff n n).1 refl
leaf_test_self (natural n) = (nat_beq_iff n n).1 refl
leaf_test_self (flag true) = refl
leaf_test_self (flag false) = refl
leaf_test_self (mode m) = mode_test_self m
leaf_test_self (outbound o) = outbound_test_self o
leaf_test_self (table m) = table_test_self m
