-- ===== src/DnsMessage/Answers.antt =====
-- What `Handle` of internal/dnsmessage/handler.go promises of its reply.
use mathlib.Core.List.{append_assoc, append-nil}
use zju_portal_core.Base.{
  subst, ◌≡◌, ◌≢◌, refl, sym, ap, ◌∙◌, List, [], ◌∷◌, ◌++◌, String, ◌⊎◌, inl, inr, Bool-cases,
  arith,
}
use zju_portal_core.DnsMessage.{
  Addr, as_slice, success, QType, type_a, type_aaaa, other_type, QClass, class_inet, other_class,
  Question, Answer, Msg, opcode_query, other_opcode, Opcode, DnsError, Library, Handler, answer_ttl,
  error_rcode, of_resolver, resolver_unavailable, invalid_address, resolve_static, Lookup, found,
  missing, failed, resolve_ipv4, resolve_ipv6, Step, go_on, stop, refused, reply_with, answer_type,
  answer_class, then_rest, answer_questions, handle_opcode, handle, normalize_domain,
}
use zju_portal_core.DnsMessage.Families.{
  IsOfType, IsFake4, IsFamily, static_or4-IsFamily, static_or6-IsFamily,
}

-- What a lookup for a question's name finds.
abbrev pub Finds : {S E : Type 0} → Library E → Handler S E → QType → S → String → Lookup E → Type 0
Finds lib h type_a s name l = (resolve_ipv4 h s (normalize_domain lib name)).1 ≡ l
Finds lib h type_aaaa s name l = (resolve_ipv6 h s (normalize_domain lib name)).1 ≡ l
Finds lib h other_type s name l = ⊥

-- A record that answers a question: its name and type, a time to live, and an address of that type that was
-- found for the name.
pub record IsAnswer {S E : Type 0} (lib : Library E) (h : Handler S E) (q : Question) (r : Answer)
    : Type 0 where
  pub inet : q.qclass ≡ class_inet
  pub same_name : r.name ≡ q.name
  pub same_type : r.rrtype ≡ q.qtype
  pub lives : r.ttl ≢ 0
  pub family :
      (s : S) × (a : Addr) × Finds lib h q.qtype s q.name (found a)
      × IsOfType q.qtype a
      × (r.address ≡ as_slice a)

-- The records answer the questions in their order, each at most once; a question is passed over where a
-- lookup finds no address of its family.
pub data AreAnswers {S E : Type 0} (lib : Library E) (h : Handler S E)
    : List Question → List Answer → Type 0 where
  at_end : AreAnswers lib h [] []
  unanswered :
      {q : Question} {qs : List Question} {rs : List Answer}
      → (s : S) → Finds lib h q.qtype s q.name missing
      → AreAnswers lib h qs rs
      → AreAnswers lib h (q ∷ qs) rs
  answered :
      {q : Question} {qs : List Question} {r : Answer} {rs : List Answer}
      → IsAnswer lib h q r
      → AreAnswers lib h qs rs
      → AreAnswers lib h (q ∷ qs) (r ∷ rs)

abbrev IsRefusal : Msg → Type 0
IsRefusal r = (r.answer ≡ []) × (r.rcode ≢ success)

-- A refusal without records, or a success whose records answer the questions.
abbrev pub IsReply : {S E : Type 0} → Library E → Handler S E → List Question → Msg → Type 0
IsReply lib h qs r = IsRefusal r ⊎ ((r.rcode ≡ success) × AreAnswers lib h qs r.answer)

module _ {S E : Type 0} (lib : Library E) (h : Handler S E) (fake4 : IsFake4 h.fake_ipv4) where
  error_rcode-fails : (e : DnsError E) → error_rcode lib e ≢ success
  unfolding error_rcode
  error_rcode-fails (of_resolver e) p = elim (Bool-cases (lib.is_not_found e)) [
    | inl y ↦ absurd (ground arith)
    | inr n ↦ absurd (ground arith)
  ]
  error_rcode-fails (resolver_unavailable d) p = absurd (ground arith)
  error_rcode-fails (invalid_address d) p = absurd (ground arith)

  answer_ttl-lives : answer_ttl h ≢ 0
  unfolding answer_ttl
  answer_ttl-lives p = ground arith

  -- What one pass through the loop's body does to the reply.
  abbrev IsStep : Question → Msg → Step S → Type 0
  IsStep q r (stop s r') = IsRefusal r'
  IsStep q r (go_on s r') =
      (r'.rcode ≡ r.rcode)
      × (((r'.answer ≡ r.answer) × (t : S) × Finds lib h q.qtype t q.name missing)
          ⊎ ((a : Answer) × IsAnswer lib h q a × (r'.answer ≡ r.answer ++ (a ∷ []))))

  reply_with-IsStep :
      (q : Question) (r : Msg) (t : S) (x : S × Lookup E)
      → q.qclass ≡ class_inet
      → IsFamily q.qtype x.1
      → Finds lib h q.qtype t q.name x.1
      → IsStep q r (reply_with lib h q r x)
  unfolding reply_with refused
  reply_with-IsStep q r t (s, failed e) c p m = (refl, error_rcode-fails e)
  reply_with-IsStep q r t (s, missing) c p m = (refl, inl (refl, t, m))
  reply_with-IsStep q r t (s, found a) c p m = (
    refl,
    inr (
      record { name = q.name; rrtype = q.qtype; ttl = answer_ttl h; address = as_slice a },
      record {
        inet = c;
        same_name = refl;
        same_type = refl;
        lives = answer_ttl-lives;
        family = (t, a, m, p, refl);
      },
      refl,
    ),
  )

  answer_type-IsStep :
      (t : QType) (q : Question) (s : S) (r : Msg)
      → q.qclass ≡ class_inet
      → q.qtype ≡ t
      → IsStep q r (answer_type lib h t q s r)
  unfolding answer_type refused resolve_ipv4 resolve_ipv6
  answer_type-IsStep type_a q s r c e =
      let d = normalize_domain lib q.name in
      let l = (resolve_ipv4 h s d).1 in
      reply_with-IsStep q r s _ c
        (subst (λ (t : QType). IsFamily t l) (sym e)
          (static_or4-IsFamily h fake4 (resolve_static h s d) s d))
        (subst (λ (t : QType). Finds lib h t s q.name l) (sym e) refl)
  answer_type-IsStep type_aaaa q s r c e =
      let d = normalize_domain lib q.name in
      let l = (resolve_ipv6 h s d).1 in
      reply_with-IsStep q r s _ c
        (subst (λ (t : QType). IsFamily t l) (sym e)
          (static_or6-IsFamily h fake4 (resolve_static h s d) s d))
        (subst (λ (t : QType). Finds lib h t s q.name l) (sym e) refl)
  answer_type-IsStep other_type q s r c e = (refl, λ p. absurd (ground arith))

  answer_class-IsStep :
      (t : QClass) (q : Question) (s : S) (r : Msg)
      → q.qclass ≡ t
      → IsStep q r (answer_class lib h t q s r)
  unfolding answer_class refused
  answer_class-IsStep class_inet q s r e = answer_type-IsStep q.qtype q s r e refl
  answer_class-IsStep other_class q s r e = (refl, λ p. absurd (ground arith))

  -- What the loop makes of a reply.
  abbrev IsOutcome : Msg → List Question → Msg → Type 0
  IsOutcome r qs r' =
      IsRefusal r'
      ⊎ ((r'.rcode ≡ r.rcode)
          × (rs : List Answer) × (r'.answer ≡ r.answer ++ rs)
          × AreAnswers lib h qs rs)

  then_rest-IsOutcome :
      (q : Question) (qs : List Question) (r : Msg) (x : Step S)
      → IsStep q r x
      → (f : S → Msg → S × Msg) → ((s : S) (r' : Msg) → IsOutcome r' qs (f s r').1)
      → IsOutcome r (q ∷ qs) (then_rest x f).1
  unfolding then_rest
  then_rest-IsOutcome q qs r (stop s r') p f k = inl p
  then_rest-IsOutcome q qs r (go_on s r') (code, inl (e, t, m)) f k = elim (k s r') [
    | inl p ↦ inl p
    | inr (c, rs, e', are) ↦
        inr (c ∙ code, rs, e' ∙ ap (λ (x : List Answer). x ++ rs) e, unanswered t m are)
  ]
  then_rest-IsOutcome q qs r (go_on s r') (code, inr (a, is, e)) f k = elim (k s r') [
    | inl p ↦ inl p
    | inr (c, rs, e', are) ↦ inr (
      c ∙ code,
      a ∷ rs,
      e' ∙ ap (λ (x : List Answer). x ++ rs) e ∙ append_assoc r.answer (a ∷ []) rs,
      answered is are,
    )
  ]

  answer_questions-IsOutcome :
      (qs : List Question) (s : S) (r : Msg) → IsOutcome r qs (answer_questions lib h qs s r).1
  unfolding answer_questions
  answer_questions-IsOutcome [] s r = inr (refl, [], sym (append-nil r.answer), at_end)
  answer_questions-IsOutcome (q ∷ qs) s r =
      then_rest-IsOutcome q qs r _ (answer_class-IsStep q.qclass q s r refl)
        (answer_questions lib h qs) (answer_questions-IsOutcome qs)

  handle_opcode-IsReply :
      (o : Opcode) (request : Msg) (s : S)
      → (lib.set_reply request).rcode ≡ success
      → (lib.set_reply request).answer ≡ []
      → IsReply lib h request.question (handle_opcode lib h o request s).1
  unfolding handle_opcode
  handle_opcode-IsReply opcode_query request s code none_yet =
      elim (answer_questions-IsOutcome request.question s _) [
        | inl p ↦ inl p
        | inr (c, rs, e, are) ↦ inr (
          c ∙ code,
          subst (AreAnswers lib h request.question)
              (sym (e ∙ ap (λ (x : List Answer). x ++ rs) none_yet)) are,
        )
      ]
  handle_opcode-IsReply other_opcode request s code none_yet =
      inl (none_yet, λ p. absurd (ground arith))

pub handle-IsReply :
    {S E : Type 0} (lib : Library E) (h : Handler S E) (request : Msg) (s : S)
    → IsFake4 h.fake_ipv4
    → (lib.set_reply request).rcode ≡ success
    → (lib.set_reply request).answer ≡ []
    → IsReply lib h request.question (handle lib h request s).1
unfolding handle
handle-IsReply lib h request s fake4 code none_yet =
    handle_opcode-IsReply lib h fake4 request.opcode request s code none_yet
