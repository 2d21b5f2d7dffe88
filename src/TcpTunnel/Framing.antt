-- ===== src/TcpTunnel/Framing.antt =====
-- The application data of a tunnel connection is a stream: `Read` of client/atrust/tcptunnel.go gives
-- back what was framed as `Write` frames it, in order, whatever the sizes of the slices.
use mathlib.Core.List.{append_assoc, append-nil}
use zju_portal_core.Base.{
  ℕ, suc, ◌<◌, ◌≡◌, ◌⊎◌, inl, inr, refl, sym, ap, subst, ◌∙◌, Option, none, some, List, [], ◌∷◌,
  ◌++◌, length, take, drop, arith, length-append, take-length_append, drop-length_append,
  take-append-drop,
}
use zju_portal_core.Stream.{Result, ok, err, fault, be16, put16}
use zju_portal_core.Stream.Laws.{length-put16}
use zju_portal_core.TcpTunnel.Slices.{keep_rest-copied, deliver-copied}
use zju_portal_core.TcpTunnel.{
  TcpError, io_error, out_of_fuel, copied, slice_from, keep_rest, TcpTunnelConn, read_n, read_sized,
  read_data, finished, read_frame, read_round, read_loop, tcp_read, data_frame, tcp_write,
}

read_n-append :
    (n : ℕ) (xs ys : List ℕ) (c : TcpTunnelConn)
    → n ≡ length xs
    → read_n n (record c { stream = xs ++ ys }) ≡ (record c { stream = ys }, some xs)
unfolding read_n
read_n-append n xs ys c h =
    rw h (ground (arith, length-append xs ys, take-length_append xs ys, drop-length_append xs ys))

be16-put16_self : (n : ℕ) → n < 65536 → be16 (put16 n) ≡ n
unfolding be16 put16
be16-put16_self n h = omega arith

read_sized-append :
    (b ys : List ℕ) (c : TcpTunnelConn)
    → length b < 65536
    → read_sized (record c { stream = put16 (length b) ++ (b ++ ys) })
      ≡ (record c { stream = ys }, some b)
unfolding read_sized
read_sized-append b ys c h =
    let first = read_n-append 2 (put16 (length b)) (b ++ ys) c (sym (length-put16 (length b))) in
    rw (read_sized, first, first)
      (read_n-append (be16 (put16 (length b))) b ys c (be16-put16_self (length b) h))

-- The bytes of the chunks, each framed as `Write` does.
abbrev pub frames : List (List ℕ) → List ℕ
frames [] = []
frames (b ∷ bs) = data_frame b ++ frames bs

abbrev pub join : List (List ℕ) → List ℕ
join [] = []
join (b ∷ bs) = b ++ join bs

-- What a frame can hold.
abbrev pub AllShort : List (List ℕ) → Type 0
AllShort [] = Unit {0}
AllShort (b ∷ bs) = (length b < 65536) × AllShort bs

read_data-frame :
    (n : ℕ) (b ys : List ℕ) (c : TcpTunnelConn)
    → length b < 65536
    → c.read_buf ≡ []
    → read_data n (record c { stream = put16 (length b) ++ (b ++ ys) })
      ≡ (record c { stream = ys; read_buf = drop n b }, ok (take n b))
unfolding read_data
read_data-frame n b ys c h e =
    let whole = read_sized-append b ys c h in
    rw (read_data, whole, whole) (deliver-copied n b (record c { stream = ys }) e)

read_round-data :
    (n : ℕ) (s : List ℕ) (c : TcpTunnelConn)
    → read_round n (record c { stream = 1 ∷ 0 ∷ s })
      ≡ (let (c₁, r) = read_data n (record c { stream = s }) in finished c₁ r)
unfolding read_round read_n read_frame
read_round-data n s c = ground arith

List-cases : (xs : List ℕ) → (xs ≡ []) ⊎ ((x : ℕ) × (rest : List ℕ) × (xs ≡ x ∷ rest))
List-cases [] = inl refl
List-cases (x ∷ rest) = inr (x, rest, refl)

read_loop-finished :
    (fuel n : ℕ) (c c₁ : TcpTunnelConn) (r : Result TcpError (List ℕ))
    → read_round n c ≡ finished c₁ r
    → read_loop (suc fuel) n c ≡ (c₁, r)
unfolding read_loop
read_loop-finished fuel n c c₁ r h = rw (read_loop, h) refl

tcp_read-empty :
    (n : ℕ) (c : TcpTunnelConn)
    → c.read_buf ≡ []
    → tcp_read n c ≡ read_loop (suc (length c.stream)) n c
unfolding tcp_read
tcp_read-empty n c h = ground arith

round :
    (n : ℕ) (b ys : List ℕ) (c : TcpTunnelConn)
    → length b < 65536
    → c.read_buf ≡ []
    → read_round n (record c { stream = data_frame b ++ ys })
      ≡ finished (record c { stream = ys; read_buf = drop n b }) (ok (take n b))
unfolding data_frame put16
round n b ys c h e =
    read_round-data n (put16 (length b) ++ (b ++ ys)) c
    ∙ ap (λ p. finished p.0 p.1) (read_data-frame n b ys c h e)

-- A data frame in front, and nothing left over: `Read` takes the frame.
tcp_read-frame :
    (n : ℕ) (b ys : List ℕ) (c : TcpTunnelConn)
    → length b < 65536
    → c.read_buf ≡ []
    → tcp_read n (record c { stream = data_frame b ++ ys })
      ≡ (record c { stream = ys; read_buf = drop n b }, ok (take n b))
tcp_read-frame n b ys c h e =
    tcp_read-empty n (record c { stream = data_frame b ++ ys }) e
    ∙ read_loop-finished (length (data_frame b ++ ys)) n (record c { stream = data_frame b ++ ys })
        (record c { stream = ys; read_buf = drop n b }) (ok (take n b)) (round n b ys c h e)

-- The state of a reader with the framed chunks ahead of it, and what it will give.
abbrev pub Holds : List ℕ → TcpTunnelConn → Type 0
Holds p c =
    (bs : List (List ℕ)) × AllShort bs × (c.stream ≡ frames bs) × (c.read_buf ++ join bs ≡ p)

-- A read of the whole: the next bytes, or, when all were given, the error of the end.
abbrev Next : List ℕ → TcpTunnelConn × Result TcpError (List ℕ) → Type 0
Next p (c, r) =
    ((out : List ℕ) × (q : List ℕ) × (r ≡ ok out) × (out ++ q ≡ p) × Holds q c)
    ⊎ ((r ≡ err io_error) × (p ≡ []) × Holds [] c)

tcp_read-buffered :
    (n : ℕ) (c : TcpTunnelConn) (x : ℕ) (rest : List ℕ)
    → c.read_buf ≡ x ∷ rest
    → tcp_read n c ≡ (record c { read_buf = drop n c.read_buf }, ok (take n c.read_buf))
unfolding tcp_read
tcp_read-buffered n c x rest h =
    let given : tcp_read n c
        ≡ keep_rest (copied n c.read_buf) c.read_buf (slice_from (copied n c.read_buf) c.read_buf)
            c =
      ground (arith, h) in
    given ∙ keep_rest-copied n c.read_buf c

round-end :
    (n : ℕ) (c : TcpTunnelConn)
    → c.stream ≡ []
    → read_round n c ≡ finished (record c { stream = [] }) (err io_error)
unfolding read_round read_n
round-end n c h = ground arith

frame-Next :
    (n : ℕ) (p : List ℕ) (c : TcpTunnelConn) (bs : List (List ℕ))
    → c.read_buf ≡ []
    → AllShort bs
    → c.stream ≡ frames bs
    → c.read_buf ++ join bs ≡ p
    → Next p (tcp_read n c)
frame-Next n p c [] e short s j =
    rw
      (
        tcp_read-empty n c e,
        read_loop-finished (length c.stream) n c (record c { stream = [] }) (err io_error)
            (round-end n c s),
      )
      (inr (refl, sym j ∙ ap (λ t. t ++ []) e, ([], tt, refl, ap (λ t. t ++ []) e)))
frame-Next n p c (b ∷ bs) e short s j =
    subst (λ st. Next p (tcp_read n (record c { stream = st }))) (sym s)
      (rw (tcp_read-frame n b (frames bs) c short.0 e) (
        inl (
          take n b,
          drop n b ++ join bs,
          refl,
          sym (append_assoc (take n b) (drop n b) (join bs))
              ∙ ap (λ t. t ++ join bs) (take-append-drop n b)
              ∙ sym (ap (λ t. t ++ (b ++ join bs)) e)
              ∙ j,
          (bs, short.1, refl, refl),
        )))

tcp_read-Next : (n : ℕ) (p : List ℕ) (c : TcpTunnelConn) → Holds p c → Next p (tcp_read n c)
tcp_read-Next n p c (bs, short, s, j) = elim (List-cases c.read_buf) [
  | inl e ↦ frame-Next n p c bs e short s j
  | inr (x, rest, e) ↦ rw (tcp_read-buffered n c x rest e) (
      inl (
        take n c.read_buf,
        drop n c.read_buf ++ join bs,
        refl,
        sym (append_assoc (take n c.read_buf) (drop n c.read_buf) (join bs))
            ∙ ap (λ t. t ++ join bs) (take-append-drop n c.read_buf)
            ∙ j,
        (bs, short, s, refl),
      ))
]

-- What successive reads give, up to the first error.
unfoldable pub reads : List ℕ → TcpTunnelConn → List ℕ × Option TcpError
reads [] c = ([], none)
reads (n ∷ ns) c =
    let (c₁, r) = tcp_read n c in
    elim r [
      | ok out ↦ let (more, e) = reads ns c₁ in (out ++ more, e)
      | err e ↦ ([], some e)
      | fault ↦ ([], some out_of_fuel)
    ]

-- What a writer sends for one chunk after the other, none refused.
unfoldable pub writes : List (List ℕ) → TcpTunnelConn → TcpTunnelConn
writes [] c = c
writes (b ∷ bs) c = writes bs (tcp_write none b c).0

-- Either what was read is the beginning, or an error ended it, which is only the end of all of it.
abbrev pub InOrder : List ℕ → List ℕ × Option TcpError → Type 0
InOrder p (out, none) = (q : List ℕ) × (out ++ q ≡ p)
InOrder p (out, some e) = (e ≡ io_error) × (out ≡ p)

extend :
    (out q p : List ℕ) (more : List ℕ × Option TcpError)
    → out ++ q ≡ p
    → InOrder q more
    → InOrder p (out ++ more.0, more.1)
extend out q p (more, none) e (rest, h) =
    (rest, append_assoc out more rest ∙ ap (λ t. out ++ t) h ∙ e)
extend out q p (more, some _) e (f, h) = (f, ap (λ t. out ++ t) h ∙ e)

reads-InOrder : (ns p : List ℕ) (c : TcpTunnelConn) → Holds p c → InOrder p (reads ns c)
unfolding reads
reads-InOrder [] p c h = (p, refl)
reads-InOrder (n ∷ ns) p c h = elim (tcp_read-Next n p c h) [
  | inl (out, q, r, e, h₁) ↦
      rw (reads, r)
        (extend out q p (reads ns (tcp_read n c).0) e (reads-InOrder ns q (tcp_read n c).0 h₁))
  | inr (r, e, h₁) ↦ rw (reads, r) (refl, sym e)
]

sent-frame :
    (b : List ℕ) (w : TcpTunnelConn)
    → length b < 65536
    → (tcp_write none b w).0.sent ≡ w.sent ++ data_frame b
unfolding tcp_write
sent-frame b w h = ground arith

writes-frames :
    (bs : List (List ℕ)) (w : TcpTunnelConn)
    → AllShort bs
    → (writes bs w).sent ≡ w.sent ++ frames bs
unfolding writes
writes-frames [] w h = sym (append-nil w.sent)
writes-frames (b ∷ bs) w (short, h) =
    writes-frames bs (tcp_write none b w).0 h
    ∙ ap (λ t. t ++ frames bs) (sent-frame b w short)
    ∙ append_assoc w.sent (data_frame b) (frames bs)

-- However much each `Read` asks for, the reads give the bytes of the chunks that `Write` framed, in
-- order and none twice; the only error is that of the end of the stream, and it comes only when
-- every byte was given. No chunk is longer than a frame can hold.
pub reads-writes :
    (ns : List ℕ) (bs : List (List ℕ)) (w c : TcpTunnelConn)
    → AllShort bs
    → w.sent ≡ []
    → c.read_buf ≡ []
    → c.stream ≡ (writes bs w).sent
    → InOrder (join bs) (reads ns c)
reads-writes ns bs w c short fresh empty same = reads-InOrder ns (join bs) c (
  bs,
  short,
  same ∙ writes-frames bs w short ∙ ap (λ t. t ++ frames bs) fresh,
  ap (λ t. t ++ join bs) empty,
)
