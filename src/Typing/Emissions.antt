-- ===== src/Typing/Emissions.antt =====
-- The order and the rate of the typing signals: src/typing.ts.
use mathlib.Core.Path.{subst}
use secure_chat_client.Prelude.JsMap
use secure_chat_client.Prelude.{
  ℕ, ◌+◌, ◌-◌, ◌≤◌, ◌≡◌, refl, ap, ◌∙◌, Bool, true, false, not, Option, none, some, List, [], ◌∷◌,
  Text, ◌==◌, eq_iff, leb, if◌then◌else◌, arith, inl, inr, Option-cases, Bool-cases,
}
use secure_chat_client.Typing.{
  TypingState, started, stopped, Emission, PeerState, TypingManager, started_refresh_ms,
  auto_stopped_after_ms, empty_manager, emit, store, stop, keep_typing, set_typing, clear_on_send,
  fire, auto_stop,
}

-- The signals of one peer, the latest first.
pub of_peer : Text → List Emission → List Emission
of_peer peer [] = []
of_peer peer (e ∷ es) =
    let rest = of_peer peer es in if e.peer_user_id == peer then e ∷ rest else rest

-- The latest signal of a peer is `started`, and when it went out.
abbrev pub started_last : List Emission → Option ℕ
started_last [] = none
started_last (e ∷ es) = elim e.state [ started ↦ some e.at | stopped ↦ none ]

-- What may follow the latest signal of a peer: a `stopped` follows a `started`, and a `started`
-- that repeats one comes 3 s later or more.
abbrev pub Follows : TypingState → Option ℕ → ℕ → Type 0
Follows started none now = Unit
Follows started (some t) now = t + started_refresh_ms ≤ now
Follows stopped none now = ⊥
Follows stopped (some t) now = Unit

abbrev pub IsDebounced : List Emission → Type 0
IsDebounced [] = Unit
IsDebounced (e ∷ es) = Follows e.state (started_last es) e.at × IsDebounced es

abbrev pub expected : Option PeerState → Option ℕ
expected none = none
expected (some st) = if st.is_active then some st.last_started_at else none

-- The state of each peer agrees with what went out, and a timer is armed exactly while active.
abbrev armed : Option PeerState → Bool
armed none = true
armed (some st) = elim st.auto_stop_timer [ none ↦ not st.is_active | some due ↦ st.is_active ]

pub record IsInStep (m : TypingManager) : Type 0 where
  pub states :
      (peer : Text) → expected (JsMap.lookup peer m.peers) ≡ started_last (of_peer peer m.emitted)
  pub timers : (peer : Text) → armed (JsMap.lookup peer m.peers) ≡ true
  pub debounced : (peer : Text) → IsDebounced (of_peer peer m.emitted)

abbrev signal : TypingState → ℕ → Option ℕ
signal started now = some now
signal stopped now = none

signal-started_last :
    (state : TypingState) (now : ℕ) (peer : Text) (es : List Emission)
    → signal state now ≡ started_last (record { peer_user_id = peer; state = state; at = now } ∷ es)
signal-started_last started now peer es = refl
signal-started_last stopped now peer es = refl

emit-IsInStep :
    (peer : Text) (st : PeerState) (state : TypingState) (now : ℕ) (m : TypingManager)
    → expected (some st) ≡ signal state now
    → armed (some st) ≡ true
    → Follows state (expected (JsMap.lookup peer m.peers)) now
    → IsInStep m
    → IsInStep (emit peer state now (store peer st m))
unfolding of_peer
emit-IsInStep peer st state now m agrees timer follows h = record {
  states = λ q. elim (Bool-cases (peer == q)) [
    | inl same ↦
        rw (JsMap.lookup-insert peer q st m.peers, same)
          (agrees ∙ signal-started_last state now peer (of_peer q m.emitted))
    | inr other ↦ rw (JsMap.lookup-insert peer q st m.peers, other) (h.states q)
  ];
  timers = λ q. rw (JsMap.lookup-insert peer q st m.peers) (ground (arith, h.timers q, timer));
  debounced = λ q. elim (Bool-cases (peer == q)) [
    | inl same ↦
        let e : peer ≡ q = (eq_iff peer q).0 same in
        rw same (
          subst (λ x. Follows state x now)
              (ap (λ x. expected (JsMap.lookup x m.peers)) e ∙ h.states q) follows,
          h.debounced q,
        )
    | inr other ↦ rw other (h.debounced q)
  ];
}

store-IsInStep :
    (peer : Text) (st : PeerState) (m : TypingManager)
    → expected (some st) ≡ expected (JsMap.lookup peer m.peers)
    → armed (some st) ≡ true
    → IsInStep m
    → IsInStep (store peer st m)
store-IsInStep peer st m agrees timer h = record {
  states = λ q. elim (Bool-cases (peer == q)) [
    | inl same ↦
        rw (JsMap.lookup-insert peer q st m.peers, same)
          (agrees
            ∙ ap (λ x. expected (JsMap.lookup x m.peers)) ((eq_iff peer q).0 same)
            ∙ h.states q)
    | inr other ↦ rw (JsMap.lookup-insert peer q st m.peers, other) (h.states q)
  ];
  timers = λ q. rw (JsMap.lookup-insert peer q st m.peers) (ground (arith, h.timers q, timer));
  debounced = h.debounced;
}

stop-IsInStep :
    (peer : Text) (st : PeerState) (now : ℕ) (m : TypingManager)
    → JsMap.lookup peer m.peers ≡ some st
    → st.is_active ≡ true
    → IsInStep m
    → IsInStep (stop peer st now m)
unfolding stop
stop-IsInStep peer st now m found active h =
    emit-IsInStep peer (record st { auto_stop_timer = none; is_active = false }) stopped now m refl
      refl (rw (found, active) tt) h

keep_typing-IsInStep :
    (peer : Text) (st : PeerState) (now : ℕ) (m : TypingManager)
    → JsMap.lookup peer m.peers ≡ some st
    → IsInStep m
    → IsInStep (keep_typing peer st now m)
unfolding keep_typing
keep_typing-IsInStep peer st now m found h = elim (Bool-cases st.is_active) [
  | inr idle ↦
      rw (idle, keep_typing)
        (emit-IsInStep peer
          (record st {
            is_active = true;
            last_started_at = now;
            auto_stop_timer = some (now + auto_stopped_after_ms);
          })
          started now m refl refl (rw (found, idle) tt) h)
  | inl active ↦ elim (Bool-cases (leb started_refresh_ms (now - st.last_started_at))) [
    | inl late ↦
        rw (active, keep_typing, late)
          (emit-IsInStep peer
            (record st {
              is_active = true;
              last_started_at = now;
              auto_stop_timer = some (now + auto_stopped_after_ms);
            })
            started now m refl refl (rw (found, active) (ground arith)) h)
    | inr early ↦
        rw (active, keep_typing, early)
          (store-IsInStep peer
            (record st { is_active = true; auto_stop_timer = some (now + auto_stopped_after_ms) }) m
            (rw (found, active)) refl h)
  ]
]

stop_active-IsInStep :
    (peer : Text) (st : PeerState) (now : ℕ) (m : TypingManager)
    → JsMap.lookup peer m.peers ≡ some st
    → IsInStep m
    → IsInStep (if st.is_active then stop peer st now m else m)
unfolding stop
stop_active-IsInStep peer st now m found h = elim (Bool-cases st.is_active) [
  | inl active ↦ rw active (stop-IsInStep peer st now m found active h)
  | inr idle ↦ rw idle h
]

set_typing-IsInStep :
    (peer : Text) (is_typing : Bool) (now : ℕ) (m : TypingManager)
    → IsInStep m
    → IsInStep (set_typing peer is_typing now m)
unfolding set_typing
set_typing-IsInStep peer false now m h = elim (Option-cases (JsMap.lookup peer m.peers)) [
  | inl unknown ↦ rw (unknown, set_typing) h
  | inr (st, found) ↦ rw (found, set_typing) (stop_active-IsInStep peer st now m found h)
]
set_typing-IsInStep peer true now m h = elim (Option-cases (JsMap.lookup peer m.peers)) [
  | inl unknown ↦
      rw (unknown, set_typing)
        (emit-IsInStep peer
          (record {
            last_started_at = now;
            auto_stop_timer = some (now + auto_stopped_after_ms);
            is_active = true;
          })
          started now m refl refl (rw unknown tt) h)
  | inr (st, found) ↦ rw (found, set_typing) (keep_typing-IsInStep peer st now m found h)
]

clear_on_send-IsInStep :
    (peer : Text) (now : ℕ) (m : TypingManager) → IsInStep m → IsInStep (clear_on_send peer now m)
unfolding clear_on_send
clear_on_send-IsInStep peer now m h = elim (Option-cases (JsMap.lookup peer m.peers)) [
  | inl unknown ↦ rw (unknown, clear_on_send) h
  | inr (st, found) ↦ rw (found, clear_on_send) (stop_active-IsInStep peer st now m found h)
]

auto_stop-IsInStep :
    (peer : Text) (now : ℕ) (m : TypingManager) → IsInStep m → IsInStep (auto_stop peer now m)
unfolding auto_stop fire
auto_stop-IsInStep peer now m h = elim (Option-cases (JsMap.lookup peer m.peers)) [
  | inl unknown ↦ rw (unknown, auto_stop) h
  | inr (st, found) ↦ elim (Option-cases st.auto_stop_timer) [
    | inl unarmed ↦ rw (found, auto_stop, unarmed) h
    | inr (due, timer) ↦
        let active : st.is_active ≡ true = ground (arith, h.timers peer) in
        elim (Bool-cases (leb due now)) [
          | inl late ↦
              rw (found, auto_stop, timer, late, fire, active)
                (emit-IsInStep peer (record st { auto_stop_timer = none; is_active = false })
                  stopped now m refl refl (rw (found, active) tt) h)
          | inr early ↦ rw (found, auto_stop, timer, early) h
        ]
  ]
]

-- What can happen to the manager: the calls of the client, and a run of a timer.
pub data Event : Type 0 where
  keystroke : Text → Bool → ℕ → Event
  sent : Text → ℕ → Event
  timer : Text → ℕ → Event

unfoldable pub apply_event : Event → TypingManager → TypingManager
unfolding set_typing clear_on_send auto_stop
apply_event (keystroke peer is_typing now) = set_typing peer is_typing now
apply_event (sent peer now) = clear_on_send peer now
apply_event (timer peer now) = auto_stop peer now

unfoldable pub run : List Event → TypingManager → TypingManager
unfolding apply_event
run [] m = m
run (e ∷ es) m = run es (apply_event e m)

run-IsInStep : (es : List Event) (m : TypingManager) → IsInStep m → IsInStep (run es m)
unfolding run
run-IsInStep [] m h = h
run-IsInStep (keystroke peer b now ∷ es) m h =
    run-IsInStep es (set_typing peer b now m) (set_typing-IsInStep peer b now m h)
run-IsInStep (sent peer now ∷ es) m h =
    run-IsInStep es (clear_on_send peer now m) (clear_on_send-IsInStep peer now m h)
run-IsInStep (timer peer now ∷ es) m h =
    run-IsInStep es (auto_stop peer now m) (auto_stop-IsInStep peer now m h)

-- Over any sequence of keystrokes, sends and timer runs from the empty manager: for each peer a
-- `stopped` goes out only after a `started`, a `started` that repeats one comes at least 3 s after
-- it, the state of the peer agrees with the latest signal, and a timer is armed exactly while the
-- peer is active.
pub signals_debounced : (es : List Event) → IsInStep (run es empty_manager)
unfolding JsMap.lookup of_peer
signals_debounced es =
    run-IsInStep es empty_manager
      (record { states = λ q. refl; timers = λ q. refl; debounced = λ q. tt })
