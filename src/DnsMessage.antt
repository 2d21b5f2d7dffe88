-- ===== src/DnsMessage.antt =====
-- internal/dnsmessage/handler.go: the answer to a DNS query. `S` is the state behind the resolver and the
-- fake IP store; messages have the fields that the handler reads or writes. `set_reply` is that of
-- github.com/miekg/dns. The context of a call is left to the resolver.
pub mod Families
pub mod Answers
use zju_portal_core.Base.{
  ℕ, Bool, true, false, Option, none, some, List, [], ◌∷◌, ◌++◌, String, ◌⊎◌, inl, inr, nat_beq,
  length, if◌then◌else◌,
}
use zju_portal_core.Resource.{to4}

-- `netip.Addr` without a zone: its bytes.
pub data Addr : Type 0 where
  addr4 addr6 : List ℕ → Addr

unfoldable pub is4 : Addr → Bool
is4 (addr4 bytes) = true
is4 (addr6 bytes) = false

-- `Is6` holds of an IPv4 address in sixteen bytes, too.
unfoldable pub is6 : Addr → Bool
is6 (addr4 bytes) = false
is6 (addr6 bytes) = true

unfoldable pub unmap_bytes : List ℕ → Option (List ℕ) → Addr
unmap_bytes bytes none = addr6 bytes
unmap_bytes bytes (some short) = addr4 short

unfoldable pub unmap : Addr → Addr
unfolding unmap_bytes
unmap (addr4 bytes) = addr4 bytes
unmap (addr6 bytes) = unmap_bytes bytes (to4 bytes)

-- `netip.AddrFromSlice`; `none` is an answer of false.
unfoldable pub addr_from_slice : List ℕ → Option Addr
addr_from_slice bytes =
    if nat_beq (length bytes) 4
    then some (addr4 bytes)
    else if nat_beq (length bytes) 16
    then some (addr6 bytes)
    else none

unfoldable pub as_slice : Addr → List ℕ
as_slice (addr4 bytes) = bytes
as_slice (addr6 bytes) = bytes

-- The opcodes, response codes, classes and types that the handler tells apart.
pub data Opcode : Type 0 where
  opcode_query other_opcode : Opcode

pub data Rcode : Type 0 where
  success server_failure name_error not_implemented : Rcode

pub data QClass : Type 0 where
  class_inet other_class : QClass

pub data QType : Type 0 where
  type_a type_aaaa other_type : QType

pub record Question : Type 0 where
  pub name : String
  pub qtype : QType
  pub qclass : QClass

-- A `dns.A` or a `dns.AAAA` of class INET.
pub record Answer : Type 0 where
  pub name : String
  pub rrtype : QType
  pub ttl : ℕ
  pub address : List ℕ

pub record Msg : Type 0 where
  pub opcode : Opcode
  pub rcode : Rcode
  pub authoritative : Bool
  pub recursion_available : Bool
  pub compress : Bool
  pub question : List Question
  pub answer : List Answer

-- An error of the resolver or of the store, or one that the handler makes for a domain.
pub data DnsError (E : Type 0) : Type 0 where
  of_resolver : E → DnsError E
  resolver_unavailable invalid_address : String → DnsError E

-- `resolve_static` stands for a resolver that is a `StaticResolver`, and changes nothing.
pub record Resolver (S E : Type 0) : Type 0 where
  pub resolve : S → String → S × (E ⊎ List ℕ)
  pub resolve_static : Option (S → String → Option (List ℕ))

-- The functions of `strings`, of `errors` and of the message library that the handler calls;
-- `is_not_found` is `errors.As` of a `*net.DNSError` with its field `IsNotFound`.
pub record Library (E : Type 0) : Type 0 where
  pub trim_space : String → String
  pub to_lower : String → String
  pub trim_suffix : String → String → String
  pub is_not_found : E → Bool
  pub set_reply : Msg → Msg

pub record Handler (S E : Type 0) : Type 0 where
  pub resolver : Option (Resolver S E)
  pub fake_ipv4 : Option (S → String → S × (E ⊎ Addr))
  pub ttl : ℕ

unfoldable pub normalize_domain : {E : Type 0} → Library E → String → String
normalize_domain lib domain = lib.trim_suffix (lib.to_lower (lib.trim_space domain)) "."

abbrev pub default_ttl : ℕ
default_ttl = 60

unfoldable pub answer_ttl : {S E : Type 0} → Handler S E → ℕ
answer_ttl h = if nat_beq h.ttl 0 then default_ttl else h.ttl

unfoldable pub error_rcode : {E : Type 0} → Library E → DnsError E → Rcode
error_rcode lib (of_resolver e) = if lib.is_not_found e then name_error else server_failure
error_rcode lib (resolver_unavailable domain) = server_failure
error_rcode lib (invalid_address domain) = server_failure

-- An address slice of the static table.
unfoldable pub parsed_slice : Option (List ℕ) → Option Addr
parsed_slice none = none
parsed_slice (some bytes) = addr_from_slice bytes

unfoldable pub static_with : {S E : Type 0} → Option (Resolver S E) → S → String → Option Addr
static_with none s domain = none
static_with (some r) s domain = elim r.resolve_static [
  | none ↦ none
  | some f ↦ parsed_slice (f s domain)
]

unfoldable pub resolve_static : {S E : Type 0} → Handler S E → S → String → Option Addr
resolve_static h s domain = static_with h.resolver s domain

-- What the parsing of an address slice answers.
unfoldable pub or_invalid : {E : Type 0} → String → Option Addr → DnsError E ⊎ Addr
or_invalid domain none = inl (invalid_address domain)
or_invalid domain (some a) = inr a

unfoldable pub parsed_answer : {S E : Type 0} → String → S × (E ⊎ List ℕ) → S × (DnsError E ⊎ Addr)
parsed_answer domain (s, inl e) = (s, inl (of_resolver e))
parsed_answer domain (s, inr bytes) = (s, or_invalid domain (addr_from_slice bytes))

unfoldable pub resolve_with :
    {S E : Type 0} → Option (Resolver S E) → S → String → S × (DnsError E ⊎ Addr)
resolve_with none s domain = (s, inl (resolver_unavailable domain))
resolve_with (some r) s domain = parsed_answer domain (r.resolve s domain)

unfoldable pub resolve : {S E : Type 0} → Handler S E → S → String → S × (DnsError E ⊎ Addr)
resolve h s domain = resolve_with h.resolver s domain

-- The address, whether there is one, and the error of `resolveIPv4` and `resolveIPv6`.
pub data Lookup (E : Type 0) : Type 0 where
  found : Addr → Lookup E
  missing : Lookup E
  failed : DnsError E → Lookup E

unfoldable pub if_is4 : {E : Type 0} → Addr → Lookup E
if_is4 a = if is4 a then found a else missing

unfoldable pub if_is6 : {E : Type 0} → Addr → Lookup E
if_is6 a = if is6 a then found a else missing

unfoldable pub looked_up :
    {S E : Type 0} → (Addr → Lookup E) → S × (DnsError E ⊎ Addr) → S × Lookup E
looked_up f (s, inl e) = (s, failed e)
looked_up f (s, inr a) = (s, f a)

unfoldable pub faked : {S E : Type 0} → S × (E ⊎ Addr) → S × Lookup E
faked (s, inl e) = (s, failed (of_resolver e))
faked (s, inr a) = (s, found a)

unfoldable pub fake_or_resolve4 :
    {S E : Type 0} → Handler S E → Option (S → String → S × (E ⊎ Addr)) → S → String → S × Lookup E
fake_or_resolve4 h (some f) s domain = faked (f s domain)
fake_or_resolve4 h none s domain = looked_up (λ (a : Addr). if_is4 (unmap a)) (resolve h s domain)

unfoldable pub static_or4 : {S E : Type 0} → Handler S E → Option Addr → S → String → S × Lookup E
static_or4 h (some a) s domain = (s, if_is4 (unmap a))
static_or4 h none s domain = fake_or_resolve4 h h.fake_ipv4 s domain

unfoldable pub resolve_ipv4 : {S E : Type 0} → Handler S E → S → String → S × Lookup E
resolve_ipv4 h s domain = static_or4 h (resolve_static h s domain) s domain

unfoldable pub fake_or_resolve6 :
    {S E : Type 0} → Handler S E → Option (S → String → S × (E ⊎ Addr)) → S → String → S × Lookup E
fake_or_resolve6 h (some f) s domain = (s, missing)
fake_or_resolve6 h none s domain = looked_up if_is6 (resolve h s domain)

unfoldable pub static_or6 : {S E : Type 0} → Handler S E → Option Addr → S → String → S × Lookup E
static_or6 h (some a) s domain = (s, if_is6 a)
static_or6 h none s domain = fake_or_resolve6 h h.fake_ipv4 s domain

unfoldable pub resolve_ipv6 : {S E : Type 0} → Handler S E → S → String → S × Lookup E
resolve_ipv6 h s domain = static_or6 h (resolve_static h s domain) s domain

-- The loop of `Handle` goes on, or its body returns.
pub data Step (S : Type 0) : Type 0 where
  go_on : S → Msg → Step S
  stop : S → Msg → Step S

unfoldable pub refused : Rcode → Msg → Msg
refused code r = record r { rcode = code; answer = [] }

unfoldable pub reply_with :
    {S E : Type 0} → Library E → Handler S E → Question → Msg → S × Lookup E → Step S
reply_with lib h q r (s, failed e) = stop s (refused (error_rcode lib e) r)
reply_with lib h q r (s, missing) = go_on s r
reply_with lib h q r (s, found a) = go_on s (record r {
  answer =
      r.answer
      ++ (record { name = q.name; rrtype = q.qtype; ttl = answer_ttl h; address = as_slice a }
          ∷ []);
})

unfoldable pub answer_type :
    {S E : Type 0} → Library E → Handler S E → QType → Question → S → Msg → Step S
answer_type lib h type_a q s r =
    reply_with lib h q r (resolve_ipv4 h s (normalize_domain lib q.name))
answer_type lib h type_aaaa q s r =
    reply_with lib h q r (resolve_ipv6 h s (normalize_domain lib q.name))
answer_type lib h other_type q s r = stop s (refused not_implemented r)

unfoldable pub answer_class :
    {S E : Type 0} → Library E → Handler S E → QClass → Question → S → Msg → Step S
answer_class lib h class_inet q s r = answer_type lib h q.qtype q s r
answer_class lib h other_class q s r = stop s (refused not_implemented r)

unfoldable pub then_rest : {S : Type 0} → Step S → (S → Msg → S × Msg) → S × Msg
then_rest (go_on s r) rest = rest s r
then_rest (stop s r) rest = (s, r)

unfoldable pub answer_questions :
    {S E : Type 0} → Library E → Handler S E → List Question → S → Msg → S × Msg
answer_questions lib h [] s r = (s, r)
answer_questions lib h (q ∷ qs) s r =
    then_rest (answer_class lib h q.qclass q s r) (answer_questions lib h qs)

abbrev start_reply : Msg → Msg
start_reply r = record r { authoritative = false; recursion_available = true; compress = true }

unfoldable pub handle_opcode : {S E : Type 0} → Library E → Handler S E → Opcode → Msg → S → S × Msg
handle_opcode lib h opcode_query request s =
    answer_questions lib h request.question s (start_reply (lib.set_reply request))
handle_opcode lib h other_opcode request s =
    (s, record (start_reply (lib.set_reply request)) { rcode = not_implemented })

unfoldable pub handle : {S E : Type 0} → Library E → Handler S E → Msg → S → S × Msg
handle lib h request s = handle_opcode lib h request.opcode request s
