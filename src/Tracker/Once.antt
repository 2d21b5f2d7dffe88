-- ===== src/Tracker/Once.antt =====
-- The table of internal/networkruntime/tracker.go under any sequence of its calls.
use zju_portal_core.Base.{
  ℕ, suc, ◌<◌, ◌≡◌, ◌⊎◌, inl, inr, refl, subst, Bool, true, false, not, ◌&&◌, ◌||◌, Option, none,
  some, List, [], ◌∷◌, nat_eq, nat_beq, arith, Option-cases, Bool-cases, if-cases, if◌then◌else◌,
}
use zju_portal_core.Base.Map.{lookup, insert, delete, lookup-insert, lookup-delete}
use zju_portal_core.Core.Error.{Error, error_code_of, wrap_error, connection_not_found}
use zju_portal_core.Tracker.{
  ConnectionMetadata, LogicalConnection, ConnectionTracker, new_connection_tracker, new_connection,
  open_connection, closed_once, close_logical, close_connection, close_each, close, update,
  add_uploaded, add_downloaded, record_uploaded, record_downloaded,
}

abbrev pub is_open : ConnectionTracker → ℕ → Bool
is_open t id = elim (lookup id t.store) [ some c ↦ not c.close_done | none ↦ false ]

abbrev pub has_func : LogicalConnection → Bool
has_func c = elim c.close_func [ some e ↦ true | none ↦ false ]

-- The calls of `closeFunc` that were due.
abbrev pub due : LogicalConnection → ℕ
due c = if c.close_done && has_func c then 1 else 0

abbrev pub called_once : ConnectionTracker → ℕ → Bool
called_once t id = elim (lookup id t.store) [ some c ↦ nat_beq c.close_calls (due c) | none ↦ true ]

pub record IsTracked (t : ConnectionTracker) : Type 0 where
  -- The map has exactly the connections that are not closed.
  pub live : (id : ℕ) → lookup id t.connections ≡ (if is_open t id then some id else none)
  -- `closeFunc` was called once by a connection that is closed, and never by another.
  pub once : (id : ℕ) → called_once t id ≡ true
  -- Numbers are given out once, and all are counted.
  pub fresh : (id : ℕ) → t.next_id < id → lookup id t.store ≡ none
  pub counted : t.total ≡ t.next_id

pub new-IsTracked : (now : ℕ) → IsTracked (new_connection_tracker now)
unfolding new_connection_tracker lookup
new-IsTracked now = record {
  live = λ id. refl;
  once = λ id. refl;
  fresh = λ id h. refl;
  counted = refl;
}

open-IsTracked :
    (now : ℕ) (metadata : ConnectionMetadata) (f : Option (Option Error)) (t : ConnectionTracker)
    → IsTracked t
    → IsTracked (open_connection now metadata f t).0
unfolding open_connection
open-IsTracked now metadata f t h =
    let id = suc t.next_id in
    let added = λ (j : ℕ). lookup-insert id j (new_connection now metadata f) t.store in
    record {
      live = λ j. ground (arith, added j, lookup-insert id j id t.connections, h.live j);
      once = λ j. ground (arith, added j, h.once j);
      fresh = λ j l. ground (arith, added j, h.fresh j);
      counted = ground (arith, h.counted);
    }

closed_once-done : (c : LogicalConnection) → (closed_once c).close_done ≡ true
closed_once-done c = ground arith

closed_once-called :
    (c : LogicalConnection)
    → c.close_done ≡ false
    → nat_beq c.close_calls (due c) ≡ true
    → nat_beq (closed_once c).close_calls (due (closed_once c)) ≡ true
closed_once-called c unclosed once = ground arith

closed-IsTracked :
    (id : ℕ) (c : LogicalConnection) (t : ConnectionTracker)
    → IsTracked t
    → lookup id t.store ≡ some c
    → c.close_done ≡ false
    → IsTracked (record t {
      store = insert id (closed_once c) t.store;
      connections = delete id t.connections;
    })
closed-IsTracked id c t h e d =
    let changed = λ (j : ℕ). lookup-insert id j (closed_once c) t.store in
    record {
      live = λ j.
          ground (arith, changed j, lookup-delete id j t.connections, h.live j, closed_once-done c);
      once = λ j. ground (arith, changed j, h.once j, h.once id, closed_once-called c d);
      fresh = λ j l. ground (arith, changed j, h.fresh j);
      counted = h.counted;
    }

close_logical-IsTracked :
    (id : ℕ) (t : ConnectionTracker) → IsTracked t → IsTracked (close_logical id t).0
unfolding close_logical
close_logical-IsTracked id t h = elim (Option-cases (lookup id t.store)) [
  | inl e ↦ rw (close_logical, e) h
  | inr (c, e) ↦
      rw (close_logical, e)
        (if-cases (λ (r : ConnectionTracker × Option Error). IsTracked r.0) c.close_done (λ d. h)
          (λ d. closed-IsTracked id c t h e d))
]

record-IsTracked :
    (id : ℕ) (f : LogicalConnection → LogicalConnection) (t : ConnectionTracker)
    → ((c : LogicalConnection) → (f c).close_done ≡ c.close_done)
    → ((c : LogicalConnection) → (f c).close_calls ≡ c.close_calls)
    → ((c : LogicalConnection) → (f c).close_func ≡ c.close_func)
    → IsTracked t
    → IsTracked (update id f t)
record-IsTracked id f t done calls func h = elim (Option-cases (lookup id t.store)) [
  | inl e ↦ rw (update, e) h
  | inr (c, e) ↦
      rw (update, e)
        (record {
          live = λ j. ground (arith, lookup-insert id j (f c) t.store, h.live j, done c);
          once = λ j.
              ground (arith, lookup-insert id j (f c) t.store, h.once j, done c, calls c, func c);
          fresh = λ j l. ground (arith, lookup-insert id j (f c) t.store, h.fresh j);
          counted = h.counted;
        })
]

-- One call on the table.
pub data Step (t : ConnectionTracker) : ConnectionTracker → Type 0 where
  opens :
      (now : ℕ) (metadata : ConnectionMetadata) (f : Option (Option Error))
      → Step t (open_connection now metadata f t).0
  closes_one : (id : ℕ) → Step t (close_connection id t).0
  closes_itself : (id : ℕ) → Step t (close_logical id t).0
  closes_all : Step t (close t).0
  uploads : (now count id : ℕ) → Step t (record_uploaded now count id t)
  downloads : (now count id : ℕ) → Step t (record_downloaded now count id t)

pub data Reach (t : ConnectionTracker) : ConnectionTracker → Type 0 where
  here : Reach t t
  next : {u v : ConnectionTracker} → Reach t u → Step u v → Reach t v

close_each-IsTracked :
    (m : List (ℕ × ℕ)) (t : ConnectionTracker) → IsTracked t → IsTracked (close_each m t).0
unfolding close_each
close_each-IsTracked [] t h = h
close_each-IsTracked ((id, p) ∷ rest) t h =
    close_each-IsTracked rest (close_logical p t).0 (close_logical-IsTracked p t h)

close_connection-IsTracked :
    (id : ℕ) (t : ConnectionTracker) → IsTracked t → IsTracked (close_connection id t).0
unfolding close_connection
close_connection-IsTracked id t h = elim (Option-cases (lookup id t.connections)) [
  | inl e ↦ rw (close_connection, e) h
  | inr (p, e) ↦ rw (close_connection, e) (close_logical-IsTracked p t h)
]

Step-IsTracked : {t u : ConnectionTracker} → Step t u → IsTracked t → IsTracked u
unfolding record_uploaded record_downloaded close
Step-IsTracked {t} (opens now metadata f) h = open-IsTracked now metadata f t h
Step-IsTracked {t} (closes_one id) h = close_connection-IsTracked id t h
Step-IsTracked {t} (closes_itself id) h = close_logical-IsTracked id t h
Step-IsTracked {t} closes_all h = close_each-IsTracked t.connections t h
Step-IsTracked {t} (uploads now count id) h =
    if-cases IsTracked (nat_beq count 0) (λ z. h)
      (λ z. record-IsTracked id (add_uploaded now count) t (λ c. refl) (λ c. refl) (λ c. refl) h)
Step-IsTracked {t} (downloads now count id) h =
    if-cases IsTracked (nat_beq count 0) (λ z. h)
      (λ z. record-IsTracked id (add_downloaded now count) t (λ c. refl) (λ c. refl) (λ c. refl) h)

-- After any sequence of calls from a new table: it has exactly the connections that were not closed, the
-- function of each closed one was called once and no other was called, and every number was given
-- out once and is counted.
pub Reach-IsTracked :
    (now : ℕ) {t : ConnectionTracker} → Reach (new_connection_tracker now) t → IsTracked t
Reach-IsTracked now here = new-IsTracked now
Reach-IsTracked now (next r s) = Step-IsTracked s (Reach-IsTracked now r)

close_logical-shuts : (id : ℕ) (t : ConnectionTracker) → is_open (close_logical id t).0 id ≡ false
unfolding close_logical
close_logical-shuts id t = elim (Option-cases (lookup id t.store)) [
  | inl e ↦ rw (close_logical, e) (ground (arith, e))
  | inr (c, e) ↦
      rw (close_logical, e)
        (if-cases (λ (r : ConnectionTracker × Option Error). is_open r.0 id ≡ false) c.close_done
          (λ d. ground (arith, e, d))
          (λ d. ground (arith, lookup-insert id id (closed_once c) t.store, closed_once-done c)))
]

-- `CloseConnection` of a tracked table closes a connection that is open; for any other number it changes
-- nothing and answers CONNECTION_NOT_FOUND.
pub close_connection_outcome :
    (id : ℕ) (t : ConnectionTracker)
    → IsTracked t
    → ((is_open t id ≡ true) × (is_open (close_connection id t).0 id ≡ false))
      ⊎ ((is_open t id ≡ false)
          × ((close_connection id t).0 ≡ t)
          × (error_code_of (close_connection id t).1 ≡ connection_not_found))
unfolding close_connection wrap_error error_code_of
close_connection_outcome id t h = elim (Bool-cases (is_open t id)) [
  | inl o ↦
      let there : lookup id t.connections ≡ some id = ground (arith, h.live id, o) in
      inl (o, rw (close_connection, there) (close_logical-shuts id t))
  | inr o ↦
      let gone : lookup id t.connections ≡ none = ground (arith, h.live id, o) in
      inr (o, rw (close_connection, gone) refl, rw (close_connection, gone) refl)
]

abbrev listed_id : ℕ → List (ℕ × ℕ) → Bool
listed_id id [] = false
listed_id id ((k, p) ∷ m) = nat_beq p id || listed_id id m

lookup-listed : (k id : ℕ) (m : List (ℕ × ℕ)) → lookup k m ≡ some id → listed_id id m ≡ true
unfolding lookup
lookup-listed k id [] h = absurd (ground arith)
lookup-listed k id ((j, p) ∷ m) h = ground (arith, lookup-listed k id m)

close_logical-keeps :
    (p id : ℕ) (t : ConnectionTracker)
    → is_open t id ≡ false
    → is_open (close_logical p t).0 id ≡ false
unfolding close_logical
close_logical-keeps p id t h = elim (Option-cases (lookup p t.store)) [
  | inl e ↦ rw (close_logical, e) h
  | inr (c, e) ↦
      rw (close_logical, e)
        (if-cases (λ (r : ConnectionTracker × Option Error). is_open r.0 id ≡ false) c.close_done
          (λ d. h)
          (λ d. ground (arith, h, lookup-insert p id (closed_once c) t.store, closed_once-done c)))
]

close_each-closed :
    (m : List (ℕ × ℕ)) (id : ℕ) (t : ConnectionTracker)
    → (is_open t id ≡ false) ⊎ (listed_id id m ≡ true)
    → is_open (close_each m t).0 id ≡ false
unfolding close_each
close_each-closed [] id t (inl h) = h
close_each-closed [] id t (inr h) = absurd (ground arith)
close_each-closed ((k, p) ∷ rest) id t (inl h) =
    close_each-closed rest id (close_logical p t).0 (inl (close_logical-keeps p id t h))
close_each-closed ((k, p) ∷ rest) id t (inr h) = elim (Bool-cases (nat_beq p id)) [
  | inl e ↦ close_each-closed rest id (close_logical p t).0 (
      inl (
        subst (λ q. is_open (close_logical q t).0 id ≡ false) (ground (arith, e))
          (close_logical-shuts id t)))
  | inr e ↦ close_each-closed rest id (close_logical p t).0 (inr (ground (arith, h, e)))
]

-- `Close` leaves no connection of a tracked table open, whatever the functions of the connections answer.
pub close-none_open :
    (t : ConnectionTracker) (id : ℕ) → IsTracked t → is_open (close t).0 id ≡ false
unfolding close
close-none_open t id h = close_each-closed t.connections id t (elim (Bool-cases (is_open t id)) [
  | inl o ↦ inr (lookup-listed id id t.connections (ground (arith, h.live id, o)))
  | inr o ↦ inl o
])
