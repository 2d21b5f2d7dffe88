-- ===== src/Tracker/Outbound/Totals.antt =====
-- The counters of the outbound of internal/networkruntime/tracker.go against those of its connections.
use zju_portal_core.Base.{
  ℕ, suc, ◌+◌, ◌%◌, ◌<◌, ◌≡◌, refl, inl, inr, Option, none, some, List, [], ◌∷◌, String, nat_eq,
  nat_beq, arith, Option-cases, if-cases,
}
use zju_portal_core.Base.Map.{lookup, insert, lookup-insert}
use zju_portal_core.Core.Error.{Error}
use zju_portal_core.Tracker.{two_64}
use zju_portal_core.Tracker.Outbound.{
  TrackedConn, TrackedOutbound, ConnError, new_tracked_outbound, new_conn, dial_context, remove,
  finish_on, add_downloaded, add_uploaded, count_download, count_upload, conn_read, conn_write,
  closed_conn, conn_close, close_each, close, is_terminal_connection_error,
}

-- The counter f over all connections that were ever made.
abbrev pub sum : (TrackedConn → ℕ) → List (ℕ × TrackedConn) → ℕ
sum f [] = 0
sum f ((id, c) ∷ m) = f c + sum f m

sum-insert_new :
    (f : TrackedConn → ℕ) (id : ℕ) (c : TrackedConn) (m : List (ℕ × TrackedConn))
    → lookup id m ≡ none
    → sum f (insert id c m) ≡ sum f m + f c
unfolding lookup insert
sum-insert_new f id c [] h = omega arith
sum-insert_new f id c ((j, d) ∷ m) h = ground (arith, sum-insert_new f id c m)

sum-insert :
    (f : TrackedConn → ℕ) (id : ℕ) (c d : TrackedConn) (m : List (ℕ × TrackedConn))
    → lookup id m ≡ some c
    → sum f (insert id d m) + f c ≡ sum f m + f d
unfolding lookup insert
sum-insert f id c d [] h = absurd (ground arith)
sum-insert f id c d ((j, e) ∷ m) h = ground (arith, sum-insert f id c d m)

-- The outbound's counters are those of its connections together, in 64 bits.
pub record IsCounted (o : TrackedOutbound) : Type 0 where
  pub up : o.uploaded ≡ sum (λ c. c.uploaded) o.store % two_64
  pub down : o.download ≡ sum (λ c. c.downloaded) o.store % two_64
  pub fresh : (id : ℕ) → o.next_id < id → lookup id o.store ≡ none
  pub numbered : o.total ≡ o.next_id % two_64

pub new-IsCounted : (now : ℕ) → IsCounted (new_tracked_outbound now)
unfolding new_tracked_outbound lookup
new-IsCounted now = record {
  up = omega arith;
  down = omega arith;
  fresh = λ id h. refl;
  numbered = omega arith;
}

dial-IsCounted :
    (e : Option Error) (now : ℕ) (network address : String) (answer : Option Error)
    (o : TrackedOutbound)
    → IsCounted o
    → IsCounted (dial_context e now network address answer o).0
unfolding dial_context
dial-IsCounted (some e) now network address answer o h = h
dial-IsCounted none now network address answer o h =
    let id = suc o.next_id in
    let c = new_conn now network address answer in
    let free : lookup id o.store ≡ none = h.fresh id (omega arith) in
    record {
      up = omega (arith, h.up, sum-insert_new (λ c. c.uploaded) id c o.store free);
      down = omega (arith, h.down, sum-insert_new (λ c. c.downloaded) id c o.store free);
      fresh = λ j l. ground (arith, lookup-insert id j c o.store, h.fresh j);
      numbered = omega (arith, h.numbered);
    }

-- What a counter and the sum do when one connection counts more.
add_mod :
    (total all after old count : ℕ)
    → total ≡ all % two_64
    → after + old ≡ all + (old + count) % two_64
    → (total + count) % two_64 ≡ after % two_64
add_mod total all after old count p q = omega (arith, p, q)

same_mod :
    (total all after old : ℕ)
    → total ≡ all % two_64
    → after + old ≡ all + old
    → total ≡ after % two_64
same_mod total all after old p q = omega (arith, p, q)

remove-IsCounted : (id : ℕ) (o : TrackedOutbound) → IsCounted o → IsCounted (remove id o)
unfolding remove
remove-IsCounted id o h = record {
  up = h.up;
  down = h.down;
  fresh = h.fresh;
  numbered = h.numbered;
}

-- A connection that is there keeps its number.
fresh-insert :
    (id : ℕ) (c d : TrackedConn) (o : TrackedOutbound)
    → lookup id o.store ≡ some c
    → IsCounted o
    → (j : ℕ) → o.next_id < j
    → lookup j (insert id d o.store) ≡ none
fresh-insert id c d o e h j l = ground (arith, e, lookup-insert id j d o.store, h.fresh j)

count_download-IsCounted :
    (now count id : ℕ) (o : TrackedOutbound)
    → IsCounted o
    → IsCounted (count_download now count id o)
unfolding count_download
count_download-IsCounted now count id o h = elim (Option-cases (lookup id o.store)) [
  | inl e ↦ rw (count_download, e) h
  | inr (c, e) ↦
      rw (count_download, e)
        (if-cases IsCounted (nat_beq count 0) (λ z. h)
          (λ z.
            let d = add_downloaded now count c in
            record {
              up =
                  same_mod o.uploaded _ _ c.uploaded h.up
                    (sum-insert (λ x. x.uploaded) id c d o.store e);
              down =
                  add_mod o.download _ _ c.downloaded count h.down
                    (sum-insert (λ x. x.downloaded) id c d o.store e);
              fresh = fresh-insert id c d o e h;
              numbered = h.numbered;
            }))
]

count_upload-IsCounted :
    (now count id : ℕ) (o : TrackedOutbound) → IsCounted o → IsCounted (count_upload now count id o)
unfolding count_upload
count_upload-IsCounted now count id o h = elim (Option-cases (lookup id o.store)) [
  | inl e ↦ rw (count_upload, e) h
  | inr (c, e) ↦
      rw (count_upload, e)
        (if-cases IsCounted (nat_beq count 0) (λ z. h)
          (λ z.
            let d = add_uploaded now count c in
            record {
              up =
                  add_mod o.uploaded _ _ c.uploaded count h.up
                    (sum-insert (λ x. x.uploaded) id c d o.store e);
              down =
                  same_mod o.download _ _ c.downloaded h.down
                    (sum-insert (λ x. x.downloaded) id c d o.store e);
              fresh = fresh-insert id c d o e h;
              numbered = h.numbered;
            }))
]

finish-IsCounted :
    (e : Option ConnError) (id : ℕ) (o : TrackedOutbound)
    → IsCounted o
    → IsCounted (finish_on e id o)
finish-IsCounted e id o h =
    if-cases IsCounted (is_terminal_connection_error e) (λ z. remove-IsCounted id o h) (λ z. h)

conn_close-IsCounted : (id : ℕ) (o : TrackedOutbound) → IsCounted o → IsCounted (conn_close id o).0
unfolding conn_close
conn_close-IsCounted id o h = elim (Option-cases (lookup id o.store)) [
  | inl e ↦ rw (conn_close, e) h
  | inr (c, e) ↦
      rw (conn_close, e)
        (if-cases (λ (r : TrackedOutbound × Option Error). IsCounted r.0) c.close_done (λ z. h)
          (λ z.
            remove-IsCounted id (record o { store = insert id (closed_conn c) o.store })
              (record {
                up =
                    same_mod o.uploaded _ _ c.uploaded h.up
                      (sum-insert (λ x. x.uploaded) id c (closed_conn c) o.store e);
                down =
                    same_mod o.download _ _ c.downloaded h.down
                      (sum-insert (λ x. x.downloaded) id c (closed_conn c) o.store e);
                fresh = fresh-insert id c (closed_conn c) o e h;
                numbered = h.numbered;
              })))
]

close_each-IsCounted :
    (m : List (ℕ × ℕ)) (o : TrackedOutbound) → IsCounted o → IsCounted (close_each m o).0
unfolding close_each
close_each-IsCounted [] o h = h
close_each-IsCounted ((k, id) ∷ rest) o h =
    close_each-IsCounted rest (conn_close id o).0 (conn_close-IsCounted id o h)

-- One call of the outbound or of one of its connections.
pub data Step (o : TrackedOutbound) : TrackedOutbound → Type 0 where
  dials :
      (e : Option Error) (now : ℕ) (network address : String) (answer : Option Error)
      → Step o (dial_context e now network address answer o).0
  reads : (now count : ℕ) (e : Option ConnError) (id : ℕ) → Step o (conn_read now count e id o)
  writes : (now count : ℕ) (e : Option ConnError) (id : ℕ) → Step o (conn_write now count e id o)
  closes_one : (id : ℕ) → Step o (conn_close id o).0
  closes_all : (delegate : Option Error) → Step o (close delegate o).0

pub data Reach (o : TrackedOutbound) : TrackedOutbound → Type 0 where
  here : Reach o o
  next : {p q : TrackedOutbound} → Reach o p → Step p q → Reach o q

Step-IsCounted : {o p : TrackedOutbound} → Step o p → IsCounted o → IsCounted p
unfolding conn_read conn_write close
Step-IsCounted {o} (dials e now network address answer) h =
    dial-IsCounted e now network address answer o h
Step-IsCounted {o} (reads now count e id) h =
    finish-IsCounted e id (count_download now count id o)
      (count_download-IsCounted now count id o h)
Step-IsCounted {o} (writes now count e id) h =
    finish-IsCounted e id (count_upload now count id o) (count_upload-IsCounted now count id o h)
Step-IsCounted {o} (closes_one id) h = conn_close-IsCounted id o h
Step-IsCounted {o} (closes_all delegate) h = close_each-IsCounted o.connections o h

-- After any sequence of dials, reads, writes and closes the bytes that the outbound counts are, in 64
-- bits, the sums of what its connections count, the closed ones included, and its number of
-- connections is that of the IDs given out.
pub Reach-IsCounted :
    (now : ℕ) {o : TrackedOutbound} → Reach (new_tracked_outbound now) o → IsCounted o
Reach-IsCounted now here = new-IsCounted now
Reach-IsCounted now (next r s) = Step-IsCounted s (Reach-IsCounted now r)
