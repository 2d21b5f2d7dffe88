-- ===== src/Tests/DnsTests.antt =====
-- Runs of the models of internal/dnsmessage/handler.go at concrete inputs.
use zju_portal_core.Base.{
  ◌≡◌, refl, ◌⊎◌, Bool, ℕ, suc, true, false, none, some, List, [], ◌∷◌, String, inl, inr, ◌==◌,
  string_eq,
}
use zju_portal_core.DnsMessage.{
  is6, handle_opcode, answer_questions, then_rest, answer_class, answer_type, reply_with,
  static_or4, resolve_static, static_with, parsed_slice, addr_from_slice, if_is4, unmap, static_or6,
  if_is6, answer_ttl, as_slice, normalize_domain, unmap_bytes, addr4, is4, success, Question, Msg,
  Library, Handler, type_a, type_aaaa, class_inet, opcode_query, handle, resolve_ipv4, resolve_ipv6,
  Addr,
}
use zju_portal_core.Resource.{to4}

abbrev library : Library String
library = record {
  trim_space = λ s. s;
  to_lower = λ s. s;
  trim_suffix = λ s t. s;
  is_not_found = λ e. e == "no such host";
  set_reply = λ m. record m { rcode = success; answer = [] };
}

-- The store counts the addresses that it gives out.
abbrev fake_store : ℕ → String → ℕ × (String ⊎ Addr)
fake_store n domain = (suc n, inr (addr4 (198 ∷ 18 ∷ 0 ∷ n ∷ [])))

abbrev fake_handler : Handler ℕ String
fake_handler = record { resolver = none; fake_ipv4 = some fake_store; ttl = 0 }

abbrev ask : List Question → Msg
ask qs = record {
  opcode = opcode_query;
  rcode = success;
  authoritative = true;
  recursion_available = false;
  compress = false;
  question = qs;
  answer = [];
}

abbrev both : List Question
both =
    record { name = "a.example"; qtype = type_a; qclass = class_inet }
    ∷ record { name = "a.example"; qtype = type_aaaa; qclass = class_inet }
    ∷ []

abbrev given_is4 : ℕ × (String ⊎ Addr) → Bool
given_is4 (n, inl e) = true
given_is4 (n, inr a) = is4 a

-- A resolver whose only host has an IPv4 address in sixteen bytes.
abbrev mapped_handler : Handler ℕ String
mapped_handler = record {
  resolver = some (record {
    resolve = λ s d. (s, inl "no such host");
    resolve_static =
        some
          (λ s d. some (0 ∷ 0 ∷ 0 ∷ 0 ∷ 0 ∷ 0 ∷ 0 ∷ 0 ∷ 0 ∷ 0 ∷ 255 ∷ 255 ∷ 10 ∷ 0 ∷ 0 ∷ 1 ∷ []));
  });
  fake_ipv4 = none;
  ttl = 0;
}

-- A question for an IPv6 address is answered with the IPv4 address in sixteen bytes.
both_answered : (handle library mapped_handler (ask both) 0).1.answer ≡ (
    record { name = "a.example"; rrtype = type_a; ttl = 60; address = 10 ∷ 0 ∷ 0 ∷ 1 ∷ [] }
    ∷ record {
      name = "a.example";
      rrtype = type_aaaa;
      ttl = 60;
      address = 0 ∷ 0 ∷ 0 ∷ 0 ∷ 0 ∷ 0 ∷ 0 ∷ 0 ∷ 0 ∷ 0 ∷ 255 ∷ 255 ∷ 10 ∷ 0 ∷ 0 ∷ 1 ∷ [];
    }
    ∷ [])
unfolding handle resolve_ipv4 resolve_ipv6 is4 is6 to4 handle_opcode answer_questions then_rest
    answer_class answer_type reply_with static_or4 resolve_static static_with parsed_slice
    addr_from_slice if_is4 unmap static_or6 if_is6 answer_ttl as_slice normalize_domain unmap_bytes
both_answered = refl
