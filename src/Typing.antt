-- ===== src/Typing.antt =====
-- The debounced typing indicator: src/typing.ts, class `TypingManager`.
-- `setTimeout` stores the time at which the timer is due; the event loop runs a due timer by
-- `auto_stop`. The calls of `emit` are kept, the latest first.
pub mod Emissions
pub mod Timer
use secure_chat_client.Prelude.JsMap
use secure_chat_client.Prelude.JsMap.{JsMap}
use secure_chat_client.Prelude.{
  ℕ, ◌+◌, ◌-◌, Bool, true, false, Option, none, some, List, [], ◌∷◌, Text, leb, if◌then◌else◌,
}

pub data TypingState : Type 0 where
  started stopped : TypingState

pub record Emission : Type 0 where
  pub peer_user_id : Text
  pub state : TypingState
  pub at : ℕ

pub record PeerState : Type 0 where
  pub last_started_at : ℕ
  pub auto_stop_timer : Option ℕ
  pub is_active : Bool

pub record TypingManager : Type 0 where
  pub peers : JsMap PeerState
  pub emitted : List Emission

abbrev pub started_refresh_ms : ℕ
started_refresh_ms = 3000

abbrev pub auto_stopped_after_ms : ℕ
auto_stopped_after_ms = 5000

abbrev pub empty_manager : TypingManager
empty_manager = record { peers = []; emitted = [] }

abbrev pub emit : Text → TypingState → ℕ → TypingManager → TypingManager
emit peer state now m = record m {
  emitted = record { peer_user_id = peer; state = state; at = now } ∷ m.emitted;
}

abbrev pub store : Text → PeerState → TypingManager → TypingManager
store peer st m = record m { peers = JsMap.insert peer st m.peers }

abbrev pub schedule_auto_stop : ℕ → PeerState → PeerState
schedule_auto_stop now st = record st { auto_stop_timer = some (now + auto_stopped_after_ms) }

abbrev pub cancel_auto_stop : PeerState → PeerState
cancel_auto_stop st = record st { auto_stop_timer = none }

-- An active peer stops: the timer is cancelled and `stopped` goes out.
unfoldable pub stop : Text → PeerState → ℕ → TypingManager → TypingManager
stop peer st now m =
    emit peer stopped now (store peer (record (cancel_auto_stop st) { is_active = false }) m)

abbrev pub fresh_state : ℕ → PeerState
fresh_state now = record { last_started_at = now; auto_stop_timer = none; is_active = true }

-- `setTyping(peerUserId, true)` for a peer with a state
unfoldable pub keep_typing : Text → PeerState → ℕ → TypingManager → TypingManager
keep_typing peer st now m =
    if st.is_active
    then (let st' : PeerState = schedule_auto_stop now (cancel_auto_stop st) in
        if leb started_refresh_ms (now - st.last_started_at)
        then emit peer started now (store peer (record st' { last_started_at = now }) m)
        else store peer st' m)
    else emit peer started now (
        store peer (schedule_auto_stop now (record st { is_active = true; last_started_at = now }))
          m)

unfoldable pub set_typing : Text → Bool → ℕ → TypingManager → TypingManager
unfolding stop keep_typing
set_typing peer false now m = elim (JsMap.lookup peer m.peers) [
  | none ↦ m
  | some st ↦ if st.is_active then stop peer st now m else m
]
set_typing peer true now m = elim (JsMap.lookup peer m.peers) [
  | none ↦ emit peer started now (store peer (schedule_auto_stop now (fresh_state now)) m)
  | some st ↦ keep_typing peer st now m
]

unfoldable pub clear_on_send : Text → ℕ → TypingManager → TypingManager
unfolding stop
clear_on_send peer now m = elim (JsMap.lookup peer m.peers) [
  | none ↦ m
  | some st ↦ if st.is_active then stop peer st now m else m
]

-- The callback of the timer, once it is due; a timer that was cancelled or replaced never runs.
unfoldable pub fire : Text → PeerState → ℕ → TypingManager → TypingManager
fire peer st now m =
    let st' : PeerState = record st { auto_stop_timer = none } in
    if st.is_active
    then emit peer stopped now (store peer (record st' { is_active = false }) m)
    else store peer st' m

unfoldable pub auto_stop : Text → ℕ → TypingManager → TypingManager
unfolding fire
auto_stop peer now m = elim (JsMap.lookup peer m.peers) [
  | none ↦ m
  | some st ↦ elim st.auto_stop_timer [
    | none ↦ m
    | some due ↦ if leb due now then fire peer st now m else m
  ]
]

unfoldable pub shutdown : TypingManager → TypingManager
shutdown m = record m { peers = [] }
