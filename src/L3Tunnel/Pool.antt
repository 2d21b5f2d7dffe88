-- ===== src/L3Tunnel/Pool.antt =====
-- client/atrust/l3tunnel.go and `writePacket` of l3tunnelpacket.go: the connections of the tunnel, one for
-- each group of nodes. A connection is known by its number; what a dial and a write answer, and what
-- other goroutines do between two critical sections, are arguments.
pub mod Live
pub mod Outcome
use zju_portal_core.Base.{
  ℕ, suc, Bool, true, false, Option, none, some, List, [], ◌∷◌, ◌++◌, String, string_eq, nat_eq,
  ◌==◌, nat_beq, if◌then◌else◌,
}
use zju_portal_core.Base.Map.{lookup, insert, delete}
use zju_portal_core.Stream.{Result, ok, err, fault}
use zju_portal_core.Core.Error.{Error, plain, is_error?}
use zju_portal_core.L3Tunnel.Connection.{err_l3_tunnel_auth_timeout}

-- `cause` is that of the tunnel's context; `dialing` are the connections that a call of `getConn` holds in a
-- variable of its own, from the dial to its return, `closed` those on which `Close` was called, `forwarding` the goroutines of `forwardFromConn`.
pub record Pool : Type 0 where
  pub best_nodes : List (String × String)
  pub major_node_group : String
  pub cause : Option Error
  pub terminated : Bool
  pub conns : List (String × ℕ)
  pub opened : ℕ
  pub dialing : List ℕ
  pub closed : List ℕ
  pub forwarding : List ℕ

abbrev pub without : ℕ → List ℕ → List ℕ
without id [] = []
without id (x ∷ xs) = let rest = without id xs in if nat_beq x id then rest else x ∷ rest

abbrev pub values : List (String × ℕ) → List ℕ
values [] = []
values ((k, id) ∷ m) = id ∷ values m

-- `terminate`; its body runs once.
unfoldable pub terminate : Option Error → Pool → Pool
terminate e p = if p.terminated then p else record p {
  terminated = true;
  cause = elim p.cause [
    | some first ↦ some first
    | none ↦ elim e [ none ↦ some (plain "EOF") | some x ↦ some x ]
  ];
  conns = [];
  closed = values p.conns ++ p.closed;
}

unfoldable pub evict_conn : String → ℕ → Pool → Pool × Bool
evict_conn group id p = elim (lookup group p.conns) [
  | none ↦ (p, false)
  | some existing ↦
      if nat_beq existing id then (record p { conns = delete group p.conns }, true) else (p, false)
]

-- `if t.evictConn(…) { conn.Close() }`.
unfoldable pub close_evicted : ℕ → Pool × Bool → Pool
close_evicted id (p, true) = record p { closed = id ∷ p.closed }
close_evicted id (p, false) = p

unfoldable pub evict_and_close : String → ℕ → Pool → Pool
unfolding evict_conn close_evicted
evict_and_close group id p = close_evicted id (evict_conn group id p)

-- The end of `forwardFromConn`: reading fails only once the connection is closed.
unfoldable pub forward_ends : String → ℕ → Pool → Pool
unfolding evict_conn
forward_ends group id p =
    let closed : Pool = record p { closed = id ∷ p.closed; forwarding = without id p.forwarding } in
    (evict_conn group id closed).0

abbrev pub text_of : Option String → String
text_of none = ""
text_of (some s) = s

unfoldable pub node_addr : String → Pool → String
node_addr group p =
    let own = text_of (lookup group p.best_nodes) in
    if own == "" then text_of (lookup p.major_node_group p.best_nodes) else own

-- `conn.Close()` of a dialled connection that no one needs.
unfoldable pub drop_conn : ℕ → Pool → Pool
drop_conn id p = record p { closed = id ∷ p.closed }

-- The last critical section of `getConn`.
unfoldable pub store_conn : String → ℕ → Pool → Pool × Result Error ℕ
unfolding drop_conn
store_conn group id p = elim p.cause [
  | some e ↦ (drop_conn id p, err e)
  | none ↦ elim (lookup group p.conns) [
    | some existing ↦ (drop_conn id p, ok existing)
    | none ↦ (record p { conns = insert group id p.conns; forwarding = id ∷ p.forwarding }, ok id)
  ]
]

-- `newL3TunnelConn` in the middle of `getConn`: its error, or a new connection.
unfoldable pub dial_conn : Option Error → Pool → Pool × Result Error ℕ
dial_conn (some e) p = (p, err e)
dial_conn none p =
    let id = suc p.opened in (record p { opened = id; dialing = id ∷ p.dialing }, ok id)

-- The first check after the dial, and what follows it.
unfoldable pub keep_conn : (Pool → Pool) → String → ℕ → Pool → Pool × Result Error ℕ
unfolding store_conn
keep_conn meanwhile group id p = elim p.cause [
  | some e ↦ (drop_conn id p, err e)
  | none ↦ store_conn group id (meanwhile p)
]

-- The return of `getConn`: its variable is gone.
unfoldable pub returned : ℕ → Pool × Result Error ℕ → Pool × Result Error ℕ
returned id (p, result) = (record p { dialing = without id p.dialing }, result)

unfoldable pub after_dial :
    (Pool → Pool) → (Pool → Pool) → String → Pool × Result Error ℕ → Pool × Result Error ℕ
unfolding keep_conn returned
after_dial during later group (p, ok id) = returned id (keep_conn later group id (during p))
after_dial during later group (p, err e) = (during p, err e)
after_dial during later group (p, fault) = (during p, fault)

-- What a call of `getConn` meets: the error of the dial, and the other goroutines during the dial and
-- between the two checks after it.
pub record Dialing : Type 0 where
  pub dial_error : Option Error
  pub during : Pool → Pool
  pub later : Pool → Pool

unfoldable pub get_conn : Dialing → String → Pool → Pool × Result Error ℕ
unfolding node_addr dial_conn after_dial
get_conn d group p = elim p.cause [
  | some e ↦ (p, err e)
  | none ↦ elim (lookup group p.conns) [
    | some id ↦ (p, ok id)
    | none ↦
        if node_addr group p == ""
        then (p, err (plain "no available node"))
        else after_dial d.during d.later group (dial_conn d.dial_error p)
  ]
]

abbrev pub is_auth_timeout_err : Option Error → Bool
is_auth_timeout_err e = is_error? e err_l3_tunnel_auth_timeout

-- The end of `writePacket`: a second timeout drops the packet.
unfoldable pub finish_write : String → ℕ → Option Error → Pool → Pool × Option Error
unfolding evict_and_close
finish_write group id e p =
    if is_auth_timeout_err e then (evict_and_close group id p, none) else (p, e)

unfoldable pub retry_write : String → Option Error → Pool × Result Error ℕ → Pool × Option Error
unfolding finish_write
retry_write group second (p, ok id) = finish_write group id second p
retry_write group second (p, err e) = (p, some e)
retry_write group second (p, fault) = (p, none)

-- `writePacket` after the first `getConn`; `first` and `second` are the errors of `WritePacket` on the
-- connection and on the one that replaces it.
unfoldable pub try_write :
    Dialing → String → Option Error → Option Error → Pool × Result Error ℕ → Pool × Option Error
unfolding get_conn retry_write
try_write d group first second (p, err e) = (p, some e)
try_write d group first second (p, fault) = (p, none)
try_write d group first second (p, ok id) =
    if is_auth_timeout_err first
    then retry_write group second (get_conn d group (evict_and_close group id p))
    else finish_write group id first p

unfoldable pub write_packet :
    Dialing → Dialing → String → Option Error → Option Error → Pool → Pool × Option Error
unfolding try_write
write_packet d₁ d₂ group first second p = try_write d₂ group first second (get_conn d₁ group p)
