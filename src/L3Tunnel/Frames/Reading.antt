-- ===== src/L3Tunnel/Frames/Reading.antt =====
-- `readFrame` of client/atrust/l3tunnelconn.go always ends, and reads what the tunnel frames.
use zju_portal_core.Base.{
  ℕ, zero, suc, ◌<◌, ◌≤◌, ◌≢◌, Bool, true, false, List, [], ◌∷◌, length, drop, arith, if◌then◌else◌,
}
use zju_portal_core.Stream.{Result, be16}
use zju_portal_core.Stream.Meets.{
  Meets, gives, fails, bind-Meets, weaken-Meets, read_full-Meets, index-Meets,
}
use zju_portal_core.L3Tunnel.DataPayload.{
  with_mode, read_len_payload, ReadError, read_failed, DataMode, read_packets, read_token_payload,
  read_data_resp_payload,
}
use zju_portal_core.L3Tunnel.Frames.{
  FrameError, read_error, out_of_fuel, unexpected_header, read_sized, read_status_frame,
  data_frame_of, read_other_frame, read_versioned, read_frame_loop, read_frame,
}

-- Any error.
abbrev AnyError : ReadError → Type 0
AnyError e = Unit {0}

read_packets-Meets :
    (k : ℕ) (s : List ℕ) → Meets (λ r. length r.1 ≤ length s) AnyError (read_packets k s)
unfolding read_packets
read_packets-Meets zero s = gives (omega arith)
read_packets-Meets (suc k) s = bind-Meets _ (read_full-Meets read_failed 2 s tt) (λ r h.
    bind-Meets _ (read_full-Meets read_failed (be16 r.0) r.1 tt)
      (λ q j. bind-Meets _ (read_packets-Meets k q.1) (λ t l. gives (omega (arith, h.1, j.1, l)))))

read_token_payload-Meets :
    (s : List ℕ) → Meets (λ r. length r.1 ≤ length s) AnyError (read_token_payload s)
unfolding read_token_payload
read_token_payload-Meets s = bind-Meets _ (read_full-Meets read_failed 1 s tt) (λ a ha.
    bind-Meets _ (index-Meets a.0 0 (omega (arith, ha.0))) (λ n hn.
      bind-Meets _ (read_full-Meets read_failed n a.1 tt) (λ b hb.
        bind-Meets _ (read_full-Meets read_failed 2 b.1 tt) (λ c hc.
          bind-Meets _ (read_full-Meets read_failed 1 c.1 tt) (λ d hd.
            bind-Meets _ (index-Meets d.0 0 (omega (arith, hd.0))) (λ k hk.
              bind-Meets _ (read_packets-Meets k d.1)
                (λ e he. gives (omega (arith, ha.1, hb.1, hc.1, hd.1, he)))))))))

with_mode-Meets :
    {n : ℕ} {r : Result ReadError (List ℕ × List ℕ)} (mode : DataMode)
    → Meets (λ r. length r.1 ≤ n) AnyError r
    → Meets (λ r. length r.1 ≤ n) AnyError (with_mode mode r)
with_mode-Meets mode (gives h) = gives h
with_mode-Meets mode (fails h) = fails h

read_len_payload-Meets :
    (n : ℕ) (s : List ℕ) → Meets (λ r. length r.1 ≤ length s) AnyError (read_len_payload n s)
unfolding read_len_payload
read_len_payload-Meets n s = bind-Meets _ (read_full-Meets read_failed 2 s tt) (λ a ha.
    weaken-Meets (read_full-Meets read_failed n a.1 tt) (λ b hb. omega (arith, ha.1, hb.1)))

choose-Meets :
    {A E : Type 0} {P : A → Type 0} {Q : E → Type 0} {x y : Result E A} (t : Bool)
    → Meets P Q x
    → Meets P Q y
    → Meets P Q (if t then x else y)
choose-Meets true p q = p
choose-Meets false p q = q

read_data_resp_payload-Meets :
    (s : List ℕ) → Meets (λ r. length r.1 ≤ length s) AnyError (read_data_resp_payload s)
unfolding read_data_resp_payload
read_data_resp_payload-Meets s = bind-Meets _ (read_full-Meets read_failed 2 s tt) (λ a ha.
    choose-Meets _ (with_mode-Meets _ (read_len_payload-Meets (be16 a.0) s))
      (with_mode-Meets _ (read_token_payload-Meets s)))

-- The code's own errors.
abbrev pub IsReadError : FrameError → Type 0
IsReadError e = e ≢ out_of_fuel

ours : IsReadError read_error
ours h = cc

ours_too : (a b : ℕ) → IsReadError (unexpected_header a b)
ours_too a b h = cc

read_sized-Meets : (s : List ℕ) → Meets (λ r. length r.1 ≤ length s) IsReadError (read_sized s)
unfolding read_sized
read_sized-Meets s = bind-Meets _ (read_full-Meets read_error 2 s ours) (λ a ha.
    weaken-Meets (read_full-Meets read_error (be16 a.0) a.1 ours)
      (λ b hb. omega (arith, ha.1, hb.1)))

read_status_frame-Meets :
    (cmd : ℕ) (s : List ℕ)
    → Meets (λ r. length r.1 ≤ length s) IsReadError (read_status_frame cmd s)
unfolding read_status_frame
read_status_frame-Meets cmd s = bind-Meets _ (read_full-Meets read_error 3 s ours) (λ a ha.
    bind-Meets _ (index-Meets a.0 0 (omega (arith, ha.0))) (λ st hs.
      bind-Meets _ (read_full-Meets read_error (be16 (drop 1 a.0)) a.1 ours)
        (λ b hb. gives (omega (arith, ha.1, hb.1)))))

data_frame_of-Meets :
    {n : ℕ} {r : Result ReadError ((List ℕ × DataMode) × List ℕ)}
    → Meets (λ r. length r.1 ≤ n) AnyError r
    → Meets (λ r. length r.1 ≤ n) IsReadError (data_frame_of r)
data_frame_of-Meets (gives h) = gives h
data_frame_of-Meets (fails h) = fails ours

read_versioned-Meets :
    (cmd : ℕ) (s : List ℕ) → Meets (λ r. length r.1 ≤ length s) IsReadError (read_versioned cmd s)
unfolding read_versioned read_other_frame
read_versioned-Meets cmd s = choose-Meets _ (read_status_frame-Meets cmd s) (
    choose-Meets _ (data_frame_of-Meets (read_data_resp_payload-Meets s))
      (bind-Meets _ (read_sized-Meets s) (λ a h. gives h)))

read_frame_loop-Meets :
    (fuel : ℕ) (s : List ℕ)
    → length s < fuel
    → Meets (λ r. length r.1 < length s) IsReadError (read_frame_loop fuel s)
unfolding read_frame_loop
read_frame_loop-Meets zero s h = absurd (omega arith)
read_frame_loop-Meets (suc fuel) [] h = fails ours
read_frame_loop-Meets (suc fuel) (a ∷ []) h = fails ours
read_frame_loop-Meets (suc fuel) (a ∷ b ∷ s) h =
    choose-Meets _ (weaken-Meets (read_versioned-Meets b s) (λ r l. omega (arith, l))) (
      choose-Meets _
        (bind-Meets _ (read_sized-Meets s) (λ r l.
          weaken-Meets (read_frame_loop-Meets fuel r.1 (omega (arith, h, l)))
            (λ q k. omega (arith, k, l))))
        (fails (ours_too a b)))

-- `readFrame` always ends: with a frame, for which it took bytes, or with one of the code's errors; it
-- never reads out of a slice, whatever the portal sends.
pub read_frame-Meets : (s : List ℕ) → Meets (λ r. length r.1 < length s) IsReadError (read_frame s)
unfolding read_frame
read_frame-Meets s = read_frame_loop-Meets (suc (length s)) s (omega arith)
