-- ===== src/Typing/Timer.antt =====
-- When the typing signal stops by itself: src/typing.ts.
use secure_chat_client.Prelude.JsMap
use secure_chat_client.Prelude.{
  ℕ, ◌+◌, ◌-◌, ◌≡◌, refl, true, some, ◌∷◌, Text, leb, if◌then◌else◌, arith, inl, inr, Option-cases,
  Bool-cases,
}
use secure_chat_client.Typing.{
  stopped, PeerState, TypingManager, started_refresh_ms, auto_stopped_after_ms, keep_typing,
  set_typing, fire, auto_stop,
}

abbrev typing_state : ℕ → ℕ → PeerState
typing_state last now = record {
  last_started_at = last;
  auto_stop_timer = some (now + auto_stopped_after_ms);
  is_active = true;
}

set_typing_armed :
    (peer : Text) (now : ℕ) (m : TypingManager)
    → (st : PeerState) × (JsMap.lookup peer (set_typing peer true now m).peers ≡ some st)
      × (st.auto_stop_timer ≡ some (now + auto_stopped_after_ms))
      × (st.is_active ≡ true)
unfolding set_typing keep_typing
set_typing_armed peer now m = elim (Option-cases (JsMap.lookup peer m.peers)) [
  | inl unknown ↦ (
    typing_state now now,
    rw (unknown, set_typing) (JsMap.lookup-insert_self peer (typing_state now now) m.peers),
    refl,
    refl,
  )
  | inr (st, found) ↦ elim (Bool-cases st.is_active) [
    | inr idle ↦ (
      typing_state now now,
      rw (found, set_typing, idle) (JsMap.lookup-insert_self peer (typing_state now now) m.peers),
      refl,
      refl,
    )
    | inl active ↦ elim (Bool-cases (leb started_refresh_ms (now - st.last_started_at))) [
      | inl late ↦ (
        typing_state now now,
        rw (found, set_typing, active, keep_typing, late)
            (JsMap.lookup-insert_self peer (typing_state now now) m.peers),
        refl,
        refl,
      )
      | inr early ↦ (
        typing_state st.last_started_at now,
        rw (found, set_typing, active, keep_typing, early)
            (JsMap.lookup-insert_self peer (typing_state st.last_started_at now) m.peers),
        refl,
        refl,
      )
    ]
  ]
]

auto_stop_armed :
    (peer : Text) (later due : ℕ) (st : PeerState) (m : TypingManager)
    → JsMap.lookup peer m.peers ≡ some st
    → st.auto_stop_timer ≡ some due
    → st.is_active ≡ true
    → (auto_stop peer later m).emitted ≡ (
        if leb due later
        then record { peer_user_id = peer; state = stopped; at = later } ∷ m.emitted
        else m.emitted)
unfolding auto_stop fire
auto_stop_armed peer later due st m found timer active = ground arith

-- A keystroke with no call after it is followed by `stopped` when its timer runs, which is 5 s
-- later and not before.
pub auto_stop-set_typing :
    (peer : Text) (now later : ℕ) (m : TypingManager)
    → (auto_stop peer later (set_typing peer true now m)).emitted ≡ (
        if leb (now + auto_stopped_after_ms) later
        then record { peer_user_id = peer; state = stopped; at = later }
          ∷ (set_typing peer true now m).emitted
        else (set_typing peer true now m).emitted)
auto_stop-set_typing peer now later m =
    let (st, found, due, active) = set_typing_armed peer now m in
    auto_stop_armed peer later (now + auto_stopped_after_ms) st (set_typing peer true now m) found
      due active
