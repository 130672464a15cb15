-- ===== src/Ws/Closing.antt =====
-- The end of a connection: src/transport/ws.ts, `close`, and a token that is refused.
use mathlib.Core.Path.{subst}
use secure_chat_client.Prelude.{
  ℕ, ◌≡◌, ◌⊎◌, sym, ◌∙◌, true, none, List, [], ◌∷◌, All, eqb, arith, inl, inr, Bool-cases,
}
use secure_chat_client.Ws.{
  connecting, opened, closing, closed, reconnecting, shutting, WsClientOptions, WsClient,
  new_client, set_state, find_socket, set_ready_state, remove_socket, stop_ping, connect_internal,
  connect, close_socket, close, token_given, token_refused, ping, ping_tick, on_open, start_ping,
  on_close, timer_fired, Event, connects, closes, gives_token, refuses_token, fires, opens, shuts,
  ticks, handle, run,
}
use secure_chat_client.Ws.Reconnect.{
  awaiting, opening, live, backing_off, place, IsOnline, place-eq, IsLeftAlone, run-IsOnline,
  connect-Has,
}

abbrev pub IsNotClose : Event → Type 0
IsNotClose closes = ⊥
IsNotClose _ = Unit

abbrev pub IsNotConnect : Event → Type 0
IsNotConnect connects = ⊥
IsNotConnect _ = Unit

-- No connection is under way and none is asked for.
pub record IsOver (c : WsClient) : Type 0 where
  pub tokens : c.tokens ≡ 0
  pub reconnects : c.reconnects ≡ []
  pub explicit_close : c.explicit_close ≡ true
  pub state : (c.state ≡ closing) ⊎ (c.state ≡ closed)
  pub sockets :
      (c.sockets ≡ [])
      ⊎ ((n : ℕ) × (c.sockets ≡ record { number = n; ready_state = shutting } ∷ []))

-- After a refused token: the state stays "connecting", and nothing is under way.
abbrev lost : WsClient → WsClient
lost c = record c { state = connecting; tokens = 0; sockets = []; reconnects = []; socket = none }

-- Closed by the program, with the timer of a reconnection still running.
abbrev dormant : ℕ → WsClient → WsClient
dormant d c = record c { state = closing; tokens = 0; sockets = []; reconnects = d ∷ [] }

close-dormant :
    (c : WsClient) → IsOnline c → c.state ≡ reconnecting → (d : ℕ) × (close c ≡ dormant d (close c))
unfolding close set_state stop_ping close_socket
close-dormant c (backing_off d, h) waits =
    (d, ground (arith, h.state, h.tokens, h.sockets, h.reconnects, h.socket))
close-dormant c (awaiting, h) waits = (0, ground (arith, waits, h.state))
close-dormant c (opening n, h) waits = (0, ground (arith, waits, h.state))
close-dormant c (live n, h) waits = (0, ground (arith, waits, h.state))

module _ (opts : WsClientOptions) where
  opened-connecting : opened ≡ connecting → ⊥
  opened-connecting e = cc

  opened_apart : opened ≡ reconnecting → ⊥
  opened_apart e = cc

  close-IsOver : (n : ℕ) (c : WsClient) → IsOver (close (place (live n) c))
  unfolding close set_state stop_ping close_socket find_socket set_ready_state
  close-IsOver n c =
      let same : eqb n n ≡ true = ground arith in
      record {
        tokens = ground (arith, same);
        reconnects = ground (arith, same);
        explicit_close = ground (arith, same);
        state = inl (ground (arith, same));
        sockets = inr (n, ground (arith, same));
      }

  open-IsOver : (c : WsClient) → IsOnline c → c.state ≡ opened → IsOver (close c)
  open-IsOver c (live n, h) up =
      subst (λ x. IsOver (close x)) (sym (place-eq (live n) c h)) (close-IsOver n c)
  open-IsOver c (awaiting, h) up = elim (opened-connecting (sym up ∙ h.state)) [ ]
  open-IsOver c (opening n, h) up = elim (opened-connecting (sym up ∙ h.state)) [ ]
  open-IsOver c (backing_off d, h) up = elim (opened_apart (sym up ∙ h.state)) [ ]

  IsOver-on_close :
      (n m k : ℕ) (c : WsClient)
      → IsOver c
      → c.sockets ≡ record { number = m; ready_state = shutting } ∷ []
      → eqb m n ≡ true
      → IsOver (on_close opts n k c)
  unfolding on_close set_state stop_ping remove_socket
  IsOver-on_close n m k c over one same = record {
    tokens = ground (arith, over.explicit_close, over.tokens);
    reconnects = ground (arith, over.explicit_close, over.reconnects);
    explicit_close = ground (arith, over.explicit_close);
    state = inr (ground (arith, over.explicit_close));
    sockets = inl (ground (arith, over.explicit_close, one, same));
  }

  IsOver-shut : (n k : ℕ) (c : WsClient) → IsOver c → IsOver (handle opts (shuts n k) c)
  unfolding handle find_socket
  IsOver-shut n k c over = elim over.sockets [
    | inl gone ↦ rw (handle, gone) over
    | inr (m, one) ↦ elim (Bool-cases (eqb m n)) [
      | inl same ↦
          let shut : handle opts (shuts n k) c ≡ on_close opts n k c = ground (arith, one, same) in
          rw shut (IsOver-on_close n m k c over one same)
      | inr other ↦
          let kept : handle opts (shuts n k) c ≡ c = ground (arith, one, other) in rw kept over
    ]
  ]

  IsOver-close : (c : WsClient) → IsOver c → IsOver (close c)
  unfolding close set_state stop_ping close_socket find_socket set_ready_state
  IsOver-close c over = record {
    tokens = ground (arith, over.tokens);
    reconnects = ground (arith, over.reconnects);
    explicit_close = ground arith;
    state = inl (ground arith);
    sockets = elim over.sockets [
      | inl gone ↦ inl (ground (arith, gone))
      | inr (m, one) ↦ inr (m, ground (arith, one))
    ];
  }

  IsOver-open : (n : ℕ) (c : WsClient) → IsOver c → handle opts (opens n) c ≡ c
  unfolding handle find_socket
  IsOver-open n c over = elim over.sockets [
    | inl gone ↦ ground (arith, gone)
    | inr (m, one) ↦ ground (arith, one)
  ]

  IsOver-tick : (n : ℕ) (c : WsClient) → IsOver c → handle opts (ticks n) c ≡ c
  unfolding handle ping_tick ping
  IsOver-tick n c over = elim over.state [
    | inl shutting_down ↦ ground (arith, shutting_down)
    | inr down ↦ ground (arith, down)
  ]

  handle-IsOver : (e : Event) (c : WsClient) → IsNotConnect e → IsOver c → IsOver (handle opts e c)
  unfolding handle token_given token_refused timer_fired
  handle-IsOver connects c keep over = elim keep [ ]
  handle-IsOver closes c keep over = IsOver-close c over
  handle-IsOver gives_token c keep over = rw (token_given, over.tokens) over
  handle-IsOver refuses_token c keep over = rw (token_refused, over.tokens) over
  handle-IsOver fires c keep over = rw (timer_fired, over.reconnects) over
  handle-IsOver (opens n) c keep over = rw (IsOver-open n c over) over
  handle-IsOver (shuts n k) c keep over = IsOver-shut n k c over
  handle-IsOver (ticks n) c keep over = rw (IsOver-tick n c over) over

  run-IsOver :
      (es : List Event) (c : WsClient) → All IsNotConnect es → IsOver c → IsOver (run opts es c)
  unfolding run
  run-IsOver [] c keep over = over
  run-IsOver (e ∷ es) c (first, rest) over =
      run-IsOver es (handle opts e c) rest (handle-IsOver e c first over)

  -- Closing an open connection is final if, since the first call of `connect` and until the close,
  -- the program called neither `connect` nor `close` and no token was refused, with reconnection on:
  -- whatever follows, without a further call of `connect`, the state is "closing" or "closed", no token is awaited, no timer
  -- runs, and the only socket that may be left is one that is shutting down.
  pub close-IsOver_after :
      (es after : List Event)
      → opts.reconnect ≡ true
      → All IsLeftAlone es
      → (run opts es (connect new_client)).state ≡ opened
      → All IsNotConnect after
      → IsOver (run opts after (close (run opts es (connect new_client))))
  close-IsOver_after es after again alone up keep =
      let c : WsClient = run opts es (connect new_client) in
      run-IsOver after (close c) keep (
        open-IsOver c
          (run-IsOnline opts es (connect new_client) again alone (awaiting, connect-Has opts)) up)

  -- The way back after `close` while the timer of a reconnection runs.
  abbrev way_back : WsClient → List Event
  way_back c = fires ∷ gives_token ∷ opens c.made ∷ []

  dormant-opens : (d : ℕ) (c : WsClient) → (run opts (way_back c) (dormant d c)).state ≡ opened
  unfolding run handle find_socket token_given timer_fired connect_internal set_state on_open
      start_ping
  dormant-opens d c = ground arith

  -- A close is not final while the timer of a reconnection runs: there is a sequence of events from
  -- outside, without any further call of the program, after which the connection is open again.
  pub close-reopens :
      (es : List Event)
      → opts.reconnect ≡ true
      → All IsLeftAlone es
      → (run opts es (connect new_client)).state ≡ reconnecting
      → (next : List Event) × (All IsLeftAlone next
          × ((run opts next (close (run opts es (connect new_client)))).state ≡ opened))
  close-reopens es again alone waits =
      let c : WsClient = run opts es (connect new_client) in
      let (d, e) =
        close-dormant c
          (run-IsOnline opts es (connect new_client) again alone (awaiting, connect-Has opts))
          waits in
      (
        way_back (close c),
        (
          (tt, (tt, (tt, tt))),
          subst (λ x. (run opts (way_back (close c)) x).state ≡ opened) (sym e)
              (dormant-opens d (close c)),
        ),
      )
