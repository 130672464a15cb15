-- ===== src/Ws/Reconnect.antt =====
-- What the socket does after it was opened once: src/transport/ws.ts.
use mathlib.Core.Path.{subst}
use secure_chat_client.Prelude.{
  ℕ, ◌≡◌, ◌≤◌, refl, sym, true, false, Option, none, some, List, [], ◌∷◌, All, length, eqb, arith,
  inl, inr, Bool-cases,
}
use secure_chat_client.Ws.{
  WsState, connecting, opened, reconnecting, pending, ready, Socket, WsClientOptions, WsClient,
  new_client, set_state, find_socket, set_ready_state, remove_socket, stop_ping, connect_internal,
  connect, token_given, ping, ping_tick, start_ping, on_open, on_close, timer_fired, Event,
  connects, closes, gives_token, refuses_token, fires, opens, shuts, ticks, handle, run, backoff_ms,
}

-- The stages of one connection: the token is awaited, the socket is made, it is open, or a timer
-- runs until the next attempt.
pub data Stage : Type 0 where
  awaiting : Stage
  opening : ℕ → Stage
  live : ℕ → Stage
  backing_off : ℕ → Stage

abbrev pub stage_state : Stage → WsState
stage_state awaiting = connecting
stage_state (opening n) = connecting
stage_state (live n) = opened
stage_state (backing_off d) = reconnecting

abbrev pub stage_tokens : Stage → ℕ
stage_tokens awaiting = 1
stage_tokens _ = 0

abbrev pub stage_socket : Stage → Option ℕ
stage_socket (opening n) = some n
stage_socket (live n) = some n
stage_socket _ = none

abbrev pub stage_sockets : Stage → List Socket
stage_sockets (opening n) = record { number = n; ready_state = pending } ∷ []
stage_sockets (live n) = record { number = n; ready_state = ready } ∷ []
stage_sockets _ = []

abbrev pub stage_reconnects : Stage → List ℕ
stage_reconnects (backing_off d) = d ∷ []
stage_reconnects _ = []

-- The client with what the stage says of it.
abbrev pub place : Stage → WsClient → WsClient
place g c = record c {
  state = stage_state g;
  tokens = stage_tokens g;
  socket = stage_socket g;
  sockets = stage_sockets g;
  reconnects = stage_reconnects g;
  explicit_close = false;
}

pub record Has (g : Stage) (c : WsClient) : Type 0 where
  pub state : c.state ≡ stage_state g
  pub tokens : c.tokens ≡ stage_tokens g
  pub socket : c.socket ≡ stage_socket g
  pub sockets : c.sockets ≡ stage_sockets g
  pub reconnects : c.reconnects ≡ stage_reconnects g
  pub explicit_close : c.explicit_close ≡ false

place-Has : (g : Stage) (c : WsClient) → Has g (place g c)
place-Has g c = record {
  state = refl;
  tokens = refl;
  socket = refl;
  sockets = refl;
  reconnects = refl;
  explicit_close = refl;
}

pub place-eq : (g : Stage) (c : WsClient) → Has g c → c ≡ place g c
place-eq g c h =
    ground (arith, h.state, h.tokens, h.socket, h.sockets, h.reconnects, h.explicit_close)

abbrev pub IsOnline : WsClient → Type 0
IsOnline c = (g : Stage) × Has g c

-- What happens to a connection that the program leaves alone, with tokens to be had.
abbrev pub IsLeftAlone : Event → Type 0
IsLeftAlone connects = ⊥
IsLeftAlone closes = ⊥
IsLeftAlone refuses_token = ⊥
IsLeftAlone _ = Unit

module _ (opts : WsClientOptions) where
  on_open-Has :
      (n m : ℕ) (c : WsClient)
      → eqb m n ≡ true
      → Has (live m) (on_open opts n (place (opening m) c))
  unfolding on_open start_ping set_state set_ready_state
  on_open-Has n m c same = record {
    state = ground arith;
    tokens = ground arith;
    socket = ground arith;
    sockets = ground (arith, same);
    reconnects = ground arith;
    explicit_close = ground arith;
  }

  -- The socket of a connection is made, and may be open.
  abbrev IsMade : ℕ → Stage → Type 0
  IsMade n (opening m) = eqb m n ≡ true
  IsMade n (live m) = eqb m n ≡ true
  IsMade n _ = ⊥

  on_close-Has :
      (n k : ℕ) (g : Stage) (c : WsClient)
      → opts.reconnect ≡ true
      → IsMade n g
      → Has (backing_off (backoff_ms c.attempt k)) (on_close opts n k (place g c))
  unfolding on_close stop_ping set_state remove_socket
  on_close-Has n k awaiting c again made = elim made [ ]
  on_close-Has n k (backing_off d) c again made = elim made [ ]
  on_close-Has n k (opening m) c again made = record {
    state = ground (arith, again);
    tokens = ground (arith, again);
    socket = ground (arith, again);
    sockets = ground (arith, again, made);
    reconnects = ground (arith, again);
    explicit_close = ground (arith, again);
  }
  on_close-Has n k (live m) c again made = record {
    state = ground (arith, again);
    tokens = ground (arith, again);
    socket = ground (arith, again);
    sockets = ground (arith, again, made);
    reconnects = ground (arith, again);
    explicit_close = ground (arith, again);
  }

  handle-IsOnline :
      (e : Event) (g : Stage) (c : WsClient)
      → opts.reconnect ≡ true
      → IsLeftAlone e
      → IsOnline (handle opts e (place g c))
  unfolding handle token_given timer_fired connect_internal set_state ping_tick ping find_socket
  handle-IsOnline connects g c again alone = elim alone [ ]
  handle-IsOnline closes g c again alone = elim alone [ ]
  handle-IsOnline refuses_token g c again alone = elim alone [ ]
  handle-IsOnline gives_token awaiting c again alone =
      (opening c.made, place-Has (opening c.made) (handle opts gives_token (place awaiting c)))
  handle-IsOnline gives_token (opening n) c again alone = (opening n, place-Has (opening n) c)
  handle-IsOnline gives_token (live n) c again alone = (live n, place-Has (live n) c)
  handle-IsOnline gives_token (backing_off d) c again alone =
      (backing_off d, place-Has (backing_off d) c)
  handle-IsOnline fires awaiting c again alone = (awaiting, place-Has awaiting c)
  handle-IsOnline fires (opening n) c again alone = (opening n, place-Has (opening n) c)
  handle-IsOnline fires (live n) c again alone = (live n, place-Has (live n) c)
  handle-IsOnline fires (backing_off d) c again alone =
      (awaiting, place-Has awaiting (handle opts fires (place (backing_off d) c)))
  handle-IsOnline (opens n) awaiting c again alone = (awaiting, place-Has awaiting c)
  handle-IsOnline (opens n) (opening m) c again alone = elim (Bool-cases (eqb m n)) [
    | inl same ↦ rw (handle, same) (live m, on_open-Has n m c same)
    | inr other ↦ rw (handle, other) (opening m, place-Has (opening m) c)
  ]
  handle-IsOnline (opens n) (live m) c again alone = elim (Bool-cases (eqb m n)) [
    | inl same ↦ rw (handle, same) (live m, place-Has (live m) c)
    | inr other ↦ rw (handle, other) (live m, place-Has (live m) c)
  ]
  handle-IsOnline (opens n) (backing_off d) c again alone =
      (backing_off d, place-Has (backing_off d) c)
  handle-IsOnline (shuts n k) awaiting c again alone = (awaiting, place-Has awaiting c)
  handle-IsOnline (shuts n k) (opening m) c again alone = elim (Bool-cases (eqb m n)) [
    | inl same ↦
        rw (handle, same)
          (backing_off (backoff_ms c.attempt k), on_close-Has n k (opening m) c again same)
    | inr other ↦ rw (handle, other) (opening m, place-Has (opening m) c)
  ]
  handle-IsOnline (shuts n k) (live m) c again alone = elim (Bool-cases (eqb m n)) [
    | inl same ↦
        rw (handle, same)
          (backing_off (backoff_ms c.attempt k), on_close-Has n k (live m) c again same)
    | inr other ↦ rw (handle, other) (live m, place-Has (live m) c)
  ]
  handle-IsOnline (shuts n k) (backing_off d) c again alone =
      (backing_off d, place-Has (backing_off d) c)
  handle-IsOnline (ticks n) awaiting c again alone = (awaiting, place-Has awaiting c)
  handle-IsOnline (ticks n) (opening m) c again alone = (opening m, place-Has (opening m) c)
  handle-IsOnline (ticks n) (live m) c again alone =
      (live m, place-Has (live m) (handle opts (ticks n) (place (live m) c)))
  handle-IsOnline (ticks n) (backing_off d) c again alone =
      (backing_off d, place-Has (backing_off d) c)

  pub run-IsOnline :
      (es : List Event) (c : WsClient)
      → opts.reconnect ≡ true
      → All IsLeftAlone es
      → IsOnline c
      → IsOnline (run opts es c)
  unfolding run
  run-IsOnline [] c again alone online = online
  run-IsOnline (e ∷ es) c again (first, rest) (g, h) =
      run-IsOnline es (handle opts e c) again rest (
        subst (λ x. IsOnline (handle opts e x)) (sym (place-eq g c h))
          (handle-IsOnline e g c again first))

  pub connect-Has : Has awaiting (connect new_client)
  unfolding connect connect_internal set_state
  connect-Has = record {
    state = refl;
    tokens = refl;
    socket = refl;
    sockets = refl;
    reconnects = refl;
    explicit_close = refl;
  }

  -- What brings the connection up from each stage.
  abbrev way_up : Stage → WsClient → List Event
  way_up awaiting c = gives_token ∷ opens c.made ∷ []
  way_up (opening n) c = opens n ∷ []
  way_up (live n) c = []
  way_up (backing_off d) c = fires ∷ gives_token ∷ opens c.made ∷ []

  opens_lem :
      (n : ℕ) (c : WsClient) → (run opts (opens n ∷ []) (place (opening n) c)).state ≡ opened
  unfolding run handle find_socket
  opens_lem n c =
      let same : eqb n n ≡ true = ground arith in rw (handle, same) (on_open-Has n n c same).state

  way_up_lem : (g : Stage) (c : WsClient) → (run opts (way_up g c) (place g c)).state ≡ opened
  unfolding run handle find_socket token_given timer_fired connect_internal set_state
  way_up_lem awaiting c = opens_lem c.made (handle opts gives_token (place awaiting c))
  way_up_lem (opening n) c = opens_lem n c
  way_up_lem (live n) c = refl
  way_up_lem (backing_off d) c =
      opens_lem c.made (handle opts gives_token (handle opts fires (place (backing_off d) c)))

  way_up-IsLeftAlone :
      (g : Stage) (c : WsClient) → All IsLeftAlone (way_up g c) × (length (way_up g c) ≤ 3)
  way_up-IsLeftAlone awaiting c = ((tt, (tt, tt)), omega arith)
  way_up-IsLeftAlone (opening n) c = ((tt, tt), omega arith)
  way_up-IsLeftAlone (live n) c = (tt, omega arith)
  way_up-IsLeftAlone (backing_off d) c = ((tt, (tt, (tt, tt))), omega arith)

  -- With reconnection on, once the socket was told to connect, and whatever then comes from outside
  -- as long as no token is refused and the program does not close or connect again, there is a
  -- sequence of at most three such events after which the connection is open.
  pub connect-recovers :
      (es : List Event)
      → opts.reconnect ≡ true
      → All IsLeftAlone es
      → (next : List Event) × (All IsLeftAlone next
          × (length next ≤ 3)
          × ((run opts next (run opts es (connect new_client))).state ≡ opened))
  connect-recovers es again alone =
      let c : WsClient = run opts es (connect new_client) in
      let (g, h) = run-IsOnline es (connect new_client) again alone (awaiting, connect-Has) in
      (
        way_up g c,
        (
          (way_up-IsLeftAlone g c).0,
          (way_up-IsLeftAlone g c).1,
          subst (λ x. (run opts (way_up g c) x).state ≡ opened) (sym (place-eq g c h))
              (way_up_lem g c),
        ),
      )
