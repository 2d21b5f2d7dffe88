-- ===== src/Manager/Single.antt =====
-- The one session of a process: what Start, Stop and Close of manager/manager.go keep.
use zju_portal_core.Base.{
  ℕ, ◌≡◌, refl, ◌⊎◌, inl, inr, Bool, true, false, String, string_eq, Option, none, some, arith,
  Bool-cases, Option-cases, List, [], ◌∷◌, not, ◌&&◌, ◌||◌, nat_beq, ap, sym, ◌∙◌,
}
use mathlib.Core.Option.{some-injective}
use zju_portal_core.Core.Error.{Error}
use zju_portal_core.Config.{Config}
use zju_portal_core.Stream.{Result, ok, err, fault}
use zju_portal_core.Manager.{
  Sessions, Manager, shut, close_active, stop, run_session, protocol_of, named, id_of, new_session,
  start,
}

-- What is kept up of sessions: a call of `start` makes at most its session live, and not if it fails; after a Close
-- or WaitClosed without an error the session is not live; and no other call makes a session live.
pub record IsWellBehaved {W : Type 0} (sessions : Sessions W) (live : W → ℕ → Bool) : Type 0 where
  pub starts :
      (s : ℕ) (w : W) (x : ℕ) → live (sessions.start s w).0 x ≡ true → (x ≡ s) ⊎ (live w x ≡ true)
  pub failed :
      (s : ℕ) (w : W) (e : Error)
      → (sessions.start s w).1 ≡ some e
      → live (sessions.start s w).0 s ≡ false
  pub closes : (s : ℕ) (w : W) (x : ℕ) → live (sessions.close s w).0 x ≡ true → live w x ≡ true
  pub closed :
      (s : ℕ) (w : W) → (sessions.close s w).1 ≡ none → live (sessions.close s w).0 s ≡ false
  pub waits : (s : ℕ) (w : W) (x : ℕ) → live (sessions.wait_closed s w).0 x ≡ true → live w x ≡ true
  pub waited :
      (s : ℕ) (w : W)
      → (sessions.wait_closed s w).1 ≡ none
      → live (sessions.wait_closed s w).0 s ≡ false
  pub makes :
      (protocol : String) (make : String → Config → W → W × Result Error (Option ℕ)) (id : String)
      (config : Config) (w : W) (x : ℕ)
      → sessions.factory protocol ≡ some make
      → live (make id config w).0 x ≡ true
      → live w x ≡ true

-- Only the active session may be live.
abbrev pub OnlyActive : {W : Type 0} → (W → ℕ → Bool) → Manager × W → Type 0
OnlyActive live (m, w) = (x : ℕ) → live w x ≡ true → m.active ≡ some x

-- A call of the manager.
pub data Call : Type 0 where
  starting : Option Error → Config → Call
  stopping_session : String → Call
  closing : Call

module _ {W : Type 0} (sessions : Sessions W) where
  unfoldable pub call : Call → Manager × W → Manager × W
  call (starting ctx_err config) (m, w) = (start sessions ctx_err config m w).0
  call (stopping_session id) (m, w) = (stop sessions id m w).0
  call closing (m, w) = (close_active sessions m w).0

  unfoldable pub calls : List Call → Manager × W → Manager × W
  unfolding call
  calls [] state = state
  calls (c ∷ cs) state = calls cs (call c state)

module _ {W : Type 0} (sessions : Sessions W) (live : W → ℕ → Bool)
    (b : IsWellBehaved sessions live) where
  shut-live : (s : ℕ) (w : W) (x : ℕ) → live (shut sessions s w).0 x ≡ true → live w x ≡ true
  shut-live s w x h = elim (Option-cases (sessions.close s w).1) [
    | inl e ↦ b.closes s w x (ground arith)
    | inr (c, e) ↦ elim (Option-cases (sessions.wait_closed s (sessions.close s w).0).1) [
      | inl f ↦ b.closes s w x (b.waits s (sessions.close s w).0 x (ground arith))
      | inr (d, f) ↦ b.closes s w x (b.waits s (sessions.close s w).0 x (ground arith))
    ]
  ]

  shut-closed :
      (s : ℕ) (w : W) → (shut sessions s w).1 ≡ none → live (shut sessions s w).0 s ≡ false
  shut-closed s w h = elim (Option-cases (sessions.close s w).1) [
    | inl e ↦ ground (arith, b.closed s w e)
    | inr (c, e) ↦ elim (Option-cases (sessions.wait_closed s (sessions.close s w).0).1) [
      | inl f ↦ ground (arith, b.waited s (sessions.close s w).0 f)
      | inr (d, f) ↦ absurd (ground arith)
    ]
  ]

  close_active-OnlyActive :
      (m : Manager) (w : W) → OnlyActive live (m, w) → OnlyActive live (close_active sessions m w).0
  unfolding close_active
  close_active-OnlyActive m w only x h = elim (Option-cases m.active) [
    | inl e ↦ ground (arith, only x)
    | inr (s, e) ↦ ground (arith, shut-live s w x, shut-closed s w, only x, some-injective s x)
  ]

  -- Nothing is live after `closeActive` returned no error.
  close_active-idle :
      (m : Manager) (w : W)
      → OnlyActive live (m, w)
      → (close_active sessions m w).1 ≡ none
      → (x : ℕ) → live (close_active sessions m w).0.1 x ≡ false
  unfolding close_active
  close_active-idle m w only done x = elim (Bool-cases (live (close_active sessions m w).0.1 x)) [
    | inr f ↦ f
    | inl t ↦ elim (Option-cases m.active) [
      | inl e ↦ absurd (ground (arith, only x))
      | inr (s, e) ↦
          absurd (ground (arith, shut-live s w x, shut-closed s w, only x, some-injective s x))
    ]
  ]

  run_session-OnlyActive :
      (id : String) (s : ℕ) (m : Manager) (w : W)
      → ((x : ℕ) → live w x ≡ false)
      → OnlyActive live (run_session sessions id s m w).0
  unfolding run_session
  run_session-OnlyActive id s m w idle x h = elim (Option-cases (sessions.start s w).1) [
    | inl e ↦ ground (arith, b.starts s w x, idle x)
    | inr (c, e) ↦ absurd (
        ground
          (arith, b.starts s w x, idle x, b.failed s w c e, b.closes s (sessions.start s w).0 x))
  ]

  -- Which session a factory returns, if it does.
  made-cases :
      (r : Result Error (Option ℕ))
      → (r ≡ ok none) ⊎ ((s : ℕ) × (r ≡ ok (some s))) ⊎ ((e : Error) × (r ≡ err e)) ⊎ (r ≡ fault)
  made-cases (ok none) = inl refl
  made-cases (ok (some s)) = inr (inl (s, refl))
  made-cases (err e) = inr (inr (inl (e, refl)))
  made-cases fault = inr (inr (inr refl))

  new_session-OnlyActive :
      (config : Config) (m : Manager) (w : W)
      → ((x : ℕ) → live w x ≡ false)
      → OnlyActive live (new_session sessions config m w).0
  unfolding new_session
  new_session-OnlyActive config m w idle =
      elim (Option-cases (sessions.factory (protocol_of sessions config))) [
        | inl e ↦ λ x h. absurd (ground (arith, idle x))
        | inr (make, e) ↦
            let made = make (id_of sessions config m) config w in
            let still : (x : ℕ) → live made.0 x ≡ false = λ x. elim (Bool-cases (live made.0 x)) [
              | inr f ↦ f
              | inl t ↦ absurd (
                  ground (
                    arith,
                    idle x,
                    b.makes (protocol_of sessions config) make (id_of sessions config m) config w x
                        e,
                  ))
            ] in
            elim (made-cases made.1) [
              | inl c ↦ λ x h. absurd (ground (arith, still x))
              | inr (inl (s, c)) ↦
                  rw (e, new_session, c)
                    (run_session-OnlyActive (id_of sessions config m) s (named sessions config m)
                      made.0 still)
              | inr (inr (inl (x, c))) ↦ λ x h. absurd (ground (arith, still x))
              | inr (inr (inr c)) ↦ λ x h. absurd (ground (arith, still x))
            ]
      ]

  start-OnlyActive :
      (ctx_err : Option Error) (config : Config) (m : Manager) (w : W)
      → OnlyActive live (m, w)
      → OnlyActive live (start sessions ctx_err config m w).0
  unfolding start
  start-OnlyActive ctx_err config m w only = elim (Option-cases (close_active sessions m w).1) [
    | inr (e, c) ↦ rw (c, start) (close_active-OnlyActive m w only)
    | inl c ↦ elim (Option-cases ctx_err) [
      | inr (e, d) ↦ rw (c, start, d) (close_active-OnlyActive m w only)
      | inl d ↦
          rw (c, start, d)
            (new_session-OnlyActive config (close_active sessions m w).0.0
              (close_active sessions m w).0.1 (close_active-idle m w only c))
    ]
  ]

  stop-OnlyActive :
      (id : String) (m : Manager) (w : W)
      → OnlyActive live (m, w)
      → OnlyActive live (stop sessions id m w).0
  unfolding stop
  stop-OnlyActive id m w only x h = elim (Option-cases m.active) [
    | inl e ↦ ground (arith, only x)
    | inr (s, e) ↦ ground (arith, shut-live s w x, shut-closed s w, only x, some-injective s x)
  ]

  -- Calls of the manager keep it.
  calls-OnlyActive :
      (cs : List Call) (state : Manager × W)
      → OnlyActive live state
      → OnlyActive live (calls sessions cs state)
  unfolding calls
  calls-OnlyActive [] state only = only
  calls-OnlyActive (starting ctx_err config ∷ cs) (m, w) only =
      calls-OnlyActive cs _ (start-OnlyActive ctx_err config m w only)
  calls-OnlyActive (stopping_session id ∷ cs) (m, w) only =
      calls-OnlyActive cs _ (stop-OnlyActive id m w only)
  calls-OnlyActive (closing ∷ cs) (m, w) only =
      calls-OnlyActive cs _ (close_active-OnlyActive m w only)

-- Sessions beside a record of what the manager was told of each: running is a session whose last Start returned no
-- error, with no Close or WaitClosed since that returned none.
abbrev after_start : ℕ → Option Error → (ℕ → Bool) → ℕ → Bool
after_start s none running = λ x. nat_beq s x || running x
after_start s (some e) running = λ x. not (nat_beq s x) && running x

abbrev after_close : ℕ → Option Error → (ℕ → Bool) → ℕ → Bool
after_close s none running = λ x. not (nat_beq s x) && running x
after_close s (some e) running = running

abbrev recorded_factory :
    {W : Type 0}
    → Option (String → Config → W → W × Result Error (Option ℕ))
    → Option (String → Config → W × (ℕ → Bool) → (W × (ℕ → Bool)) × Result Error (Option ℕ))
recorded_factory none = none
recorded_factory (some make) =
    some (λ id config state. let made = make id config state.0 in ((made.0, state.1), made.1))

abbrev pub recorded : {W : Type 0} → Sessions W → Sessions (W × (ℕ → Bool))
recorded sessions = record {
  id = sessions.id;
  start = λ s state.
      let done = sessions.start s state.0 in ((done.0, after_start s done.1 state.1), done.1);
  close = λ s state.
      let done = sessions.close s state.0 in ((done.0, after_close s done.1 state.1), done.1);
  wait_closed = λ s state.
      let done = sessions.wait_closed s state.0 in ((done.0, after_close s done.1 state.1), done.1);
  factory = λ protocol. recorded_factory (sessions.factory protocol);
  session_name = sessions.session_name;
}

abbrev pub is_running : {W : Type 0} → W × (ℕ → Bool) → ℕ → Bool
is_running state x = state.1 x

after_start-one :
    (s : ℕ) (e : Option Error) (running : ℕ → Bool) (x : ℕ)
    → after_start s e running x ≡ true
    → (x ≡ s) ⊎ (running x ≡ true)
after_start-one s none running x h = ground arith
after_start-one s (some e) running x h = ground arith

after_close-keeps :
    (s : ℕ) (e : Option Error) (running : ℕ → Bool) (x : ℕ)
    → after_close s e running x ≡ true
    → running x ≡ true
after_close-keeps s none running x h = ground arith
after_close-keeps s (some e) running x h = h

after_close-closed :
    (s : ℕ) (e : Option Error) (running : ℕ → Bool) → e ≡ none → after_close s e running s ≡ false
after_close-closed s none running h = ground arith
after_close-closed s (some e) running h = absurd (ground arith)

after_start-failed :
    (s : ℕ) (e : Option Error) (running : ℕ → Bool) (x : Error)
    → e ≡ some x
    → after_start s e running s ≡ false
after_start-failed s none running x h = absurd (ground arith)
after_start-failed s (some e) running x h = ground arith

module _ {W : Type 0} (sessions : Sessions W) where
  recorded_factory-keeps :
      (factory : Option (String → Config → W → W × Result Error (Option ℕ)))
      (make : String → Config → W × (ℕ → Bool) → (W × (ℕ → Bool)) × Result Error (Option ℕ))
      → recorded_factory factory ≡ some make
      → (id : String) (config : Config) (state : W × (ℕ → Bool))
      → (make id config state).0.1 ≡ state.1
  recorded_factory-keeps none make h id config state = absurd (ground arith)
  recorded_factory-keeps (some f) make h id config state = sym (
      ap
        (λ (m : String → Config → W × (ℕ → Bool) → (W × (ℕ → Bool)) × Result Error (Option ℕ)).
          (m id config state).0.1)
        (some-injective _ _ h))

  recorded-IsWellBehaved : IsWellBehaved (recorded sessions) is_running
  recorded-IsWellBehaved = record {
    starts = λ s state x h. after_start-one s (sessions.start s state.0).1 state.1 x h;
    failed = λ s state e h. after_start-failed s (sessions.start s state.0).1 state.1 e h;
    closes = λ s state x h. after_close-keeps s (sessions.close s state.0).1 state.1 x h;
    closed = λ s state h. after_close-closed s (sessions.close s state.0).1 state.1 h;
    waits = λ s state x h. after_close-keeps s (sessions.wait_closed s state.0).1 state.1 x h;
    waited = λ s state h. after_close-closed s (sessions.wait_closed s state.0).1 state.1 h;
    makes = λ protocol make id config state x e h.
        ap (λ (f : ℕ → Bool). f x)
          (sym (recorded_factory-keeps (sessions.factory protocol) make e id config state))
        ∙ h;
  }

  -- Whatever sessions and factories do: after any sequence of calls of Start, Stop and Close of a manager, failed
  -- ones included, the only session that may run is the active one, where a session runs from a Start of it that
  -- returns no error to a Close or WaitClosed of it that returns none. At first none runs.
  pub calls-OnlyOne :
      (cs : List Call) (m : Manager) (w : W)
      → OnlyActive is_running (calls (recorded sessions) cs (m, (w, λ x. false)))
  calls-OnlyOne cs m w =
      calls-OnlyActive (recorded sessions) is_running recorded-IsWellBehaved cs (m, (w, λ x. false))
        (λ x h. absurd (ground arith))
