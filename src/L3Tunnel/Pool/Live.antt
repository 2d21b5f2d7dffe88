-- ===== src/L3Tunnel/Pool/Live.antt =====
-- The connections of the tunnel (client/atrust/l3tunnel.go): none is lost, and none outlives the tunnel.
use zju_portal_core.Base.{
  ℕ, ◌<◌, ◌≤◌, ◌≡◌, ◌≢◌, ◌⊎◌, inl, inr, refl, Bool, true, false, Option, none, some, List, [], ◌∷◌,
  ◌++◌, String, string_eq, nat_eq, ◌==◌, nat_beq, arith, Option-cases, Bool-cases, if-elim, ◌||◌,
  eq_iff,
}
use zju_portal_core.Base.Map.{IsMap, insert-IsMap, delete-IsMap, lookup, insert, delete}
use zju_portal_core.Stream.{Result, ok, err, fault}
use zju_portal_core.Core.Error.{Error}
use zju_portal_core.L3Tunnel.Pool.{
  Pool, without, values, node_addr, close_evicted, terminate, evict_conn, evict_and_close,
  forward_ends, drop_conn, store_conn, dial_conn, keep_conn, returned, after_dial, Dialing,
  get_conn,
}

abbrev pub member : ℕ → List ℕ → Bool
member id [] = false
member id (x ∷ xs) = nat_beq x id || member id xs

-- A connection that some goroutine or the map knows, or that was closed.
abbrev pub known : Pool → ℕ → Bool
known p id = member id p.dialing || member id (values p.conns) || member id p.closed

-- No connection is lost, and after the end of the tunnel the map is empty.
pub record IsPool (p : Pool) : Type 0 where
  pub kept : (id : ℕ) → 0 < id → id ≤ p.opened → known p id ≡ true
  pub distinct : IsMap p.conns
  pub over : p.terminated ≡ true → (p.conns ≡ []) × (p.cause ≢ none)

member-append : (id : ℕ) (xs ys : List ℕ) → member id (xs ++ ys) ≡ (member id xs || member id ys)
member-append id [] ys = refl
member-append id (x ∷ xs) ys = ground (arith, member-append id xs ys)

member-without :
    (id j : ℕ) (xs : List ℕ) → member id xs ≡ true → (id ≡ j) ⊎ (member id (without j xs) ≡ true)
member-without id j [] h = ground arith
member-without id j (x ∷ xs) h = ground (arith, member-without id j xs)

member-delete_absent :
    (id : ℕ) (group : String) (m : List (String × ℕ))
    → lookup group m ≡ none
    → member id (values (delete group m)) ≡ member id (values m)
unfolding lookup delete
member-delete_absent id group [] l = refl
member-delete_absent id group ((k, i) ∷ m) l = ground (arith, member-delete_absent id group m)

-- An entry that is taken out of the map is the one of its key.
member-delete :
    (id j : ℕ) (group : String) (m : List (String × ℕ))
    → IsMap m
    → lookup group m ≡ some j
    → member id (values m) ≡ true
    → (id ≡ j) ⊎ (member id (values (delete group m)) ≡ true)
unfolding lookup delete
member-delete id j group [] d l h = ground arith
member-delete id j group ((k, i) ∷ m) d l h =
    ground (arith, eq_iff k group, member-delete id j group m d.1, member-delete_absent id group m)

member-insert :
    (id j : ℕ) (group : String) (m : List (String × ℕ))
    → lookup group m ≡ none
    → member id (values (insert group j m)) ≡ (nat_beq j id || member id (values m))
unfolding lookup insert
member-insert id j group [] l = ground arith
member-insert id j group ((k, i) ∷ m) l = ground (arith, member-insert id j group m)

pub terminate-IsPool : (e : Option Error) (p : Pool) → IsPool p → IsPool (terminate e p)
unfolding terminate
terminate-IsPool e p h = if-elim IsPool p.terminated h (record {
  kept = λ id a b. ground (arith, h.kept id a b, member-append id (values p.conns) p.closed);
  over = λ x. (refl, ground arith);
  distinct = tt;
})

-- Taking the entry of a connection that is closed by then.
delete-IsPool :
    (group : String) (id : ℕ) (p : Pool) (now_closed : List ℕ)
    → IsPool p
    → lookup group p.conns ≡ some id
    → member id now_closed ≡ true
    → ((j : ℕ) → member j p.closed ≡ true → member j now_closed ≡ true)
    → IsPool (record p { conns = delete group p.conns; closed = now_closed })
unfolding delete
delete-IsPool group id p now_closed h l dead more = record {
  kept =
      λ j a b. ground (arith, h.kept j a b, member-delete j id group p.conns h.distinct l, more j);
  over = λ x. (rw ((h.over x).0) refl, (h.over x).1);
  distinct = delete-IsMap group p.conns h.distinct;
}

evict_conn-IsPool :
    (group : String) (id : ℕ) (p : Pool)
    → IsPool p
    → member id p.closed ≡ true
    → IsPool (evict_conn group id p).0
unfolding evict_conn
evict_conn-IsPool group id p h dead = elim (Option-cases (lookup group p.conns)) [
  | inl l ↦ rw (evict_conn, l) h
  | inr (old, l) ↦ elim (Bool-cases (nat_beq old id)) [
    | inr e ↦ rw (evict_conn, l, e) h
    | inl e ↦
        rw (evict_conn, l, e)
          (delete-IsPool group id p p.closed h (ground (arith, l)) dead (λ j m. m))
  ]
]

pub close-IsPool :
    (group : String) (id : ℕ) (p : Pool) → IsPool p → IsPool (evict_and_close group id p)
unfolding evict_and_close evict_conn close_evicted
close-IsPool group id p h = elim (Option-cases (lookup group p.conns)) [
  | inl l ↦ rw (evict_conn, l) h
  | inr (old, l) ↦ elim (Bool-cases (nat_beq old id)) [
    | inr e ↦ rw (evict_conn, l, e) h
    | inl e ↦
        rw (evict_conn, l, e)
          (delete-IsPool group id p (id ∷ p.closed) h (ground (arith, l)) (ground arith)
            (λ j m. ground arith))
  ]
]

pub forward_ends-IsPool :
    (group : String) (id : ℕ) (p : Pool) → IsPool p → IsPool (forward_ends group id p)
unfolding forward_ends
forward_ends-IsPool group id p h =
    evict_conn-IsPool group id _
      (record {
        kept = λ j a b. ground (arith, h.kept j a b);
        over = h.over;
        distinct = h.distinct;
      })
      (ground arith)

-- A connection that the map has or that was closed, so that no variable needs to hold it.
abbrev settled : Pool → ℕ → Bool
settled p id = member id (values p.conns) || member id p.closed

abbrev IsSettled : ℕ → Pool → Type 0
IsSettled id p = IsPool p × (settled p id ≡ true)

drop_conn-IsSettled : (id : ℕ) (p : Pool) → IsPool p → IsSettled id (drop_conn id p)
unfolding drop_conn
drop_conn-IsSettled id p h = (
  record { kept = λ j a b. ground (arith, h.kept j a b); over = h.over; distinct = h.distinct },
  ground arith,
)

returned-IsPool : (id : ℕ) (r : Pool × Result Error ℕ) → IsSettled id r.0 → IsPool (returned id r).0
unfolding returned
returned-IsPool id (p, result) (h, there) = record {
  kept = λ j a b. ground (arith, there, h.kept j a b, member-without j id p.dialing);
  over = h.over;
  distinct = h.distinct;
}

store_conn-IsSettled :
    (group : String) (id : ℕ) (p : Pool) → IsPool p → IsSettled id (store_conn group id p).0
unfolding store_conn
store_conn-IsSettled group id p h = elim (Option-cases p.cause) [
  | inr (e, c) ↦ rw (store_conn, c) (drop_conn-IsSettled id p h)
  | inl c ↦ elim (Option-cases (lookup group p.conns)) [
    | inr (old, l) ↦ rw (store_conn, c, l) (drop_conn-IsSettled id p h)
    | inl l ↦
        rw (store_conn, c, l)
          (
            record {
              kept = λ j a b. ground (arith, h.kept j a b, member-insert j id group p.conns l);
              over = λ x. absurd (ground (arith, h.over x));
              distinct = insert-IsMap group id p.conns h.distinct;
            },
            ground (arith, member-insert id id group p.conns l),
          )
  ]
]

dial_conn-IsPool : (e : Option Error) (p : Pool) → IsPool p → IsPool (dial_conn e p).0
unfolding dial_conn
dial_conn-IsPool (some e) p h = h
dial_conn-IsPool none p h = record {
  kept = λ j a b. ground (arith, h.kept j a);
  over = h.over;
  distinct = h.distinct;
}

-- What other goroutines do keeps what holds of the pool.
abbrev pub Keeps : (Pool → Pool) → Type 0
Keeps f = (p : Pool) → IsPool p → IsPool (f p)

keep_conn-IsSettled :
    (later : Pool → Pool) (group : String) (id : ℕ) (p : Pool)
    → Keeps later
    → IsPool p
    → IsSettled id (keep_conn later group id p).0
unfolding keep_conn
keep_conn-IsSettled later group id p k h = elim (Option-cases p.cause) [
  | inr (e, c) ↦ rw (keep_conn, c) (drop_conn-IsSettled id p h)
  | inl c ↦ rw (keep_conn, c) (store_conn-IsSettled group id (later p) (k p h))
]

after_dial-IsPool :
    (during later : Pool → Pool) (group : String) (r : Pool × Result Error ℕ)
    → Keeps during
    → Keeps later
    → IsPool r.0
    → IsPool (after_dial during later group r).0
unfolding after_dial
after_dial-IsPool during later group (p, ok id) k l h =
    returned-IsPool id (keep_conn later group id (during p))
      (keep_conn-IsSettled later group id (during p) l (k p h))
after_dial-IsPool during later group (p, err e) k l h = k p h
after_dial-IsPool during later group (p, fault) k l h = k p h

pub get_conn-IsPool :
    (d : Dialing) (group : String) (p : Pool)
    → Keeps d.during
    → Keeps d.later
    → IsPool p
    → IsPool (get_conn d group p).0
unfolding get_conn
get_conn-IsPool d group p k l h = elim (Option-cases p.cause) [
  | inr (e, c) ↦ rw (get_conn, c) h
  | inl c ↦ elim (Option-cases (lookup group p.conns)) [
    | inr (id, f) ↦ rw (get_conn, c, f) h
    | inl f ↦
        rw (get_conn, c, f)
          (if-elim (λ (r : Pool × Result Error ℕ). IsPool r.0) (node_addr group p == "") h
            (after_dial-IsPool d.during d.later group (dial_conn d.dial_error p) k l
              (dial_conn-IsPool d.dial_error p h)))
  ]
]
