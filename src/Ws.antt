-- ===== src/Ws.antt =====
-- The socket and its reconnection: src/transport/ws.ts, class `WsClient`. The state holds, besides
-- the fields of the class, what its calls have set going outside: requests for a token, sockets,
-- intervals and timers. What comes from outside is an event; an event of a thing that is not there
-- does nothing. The value of `Math.random()` is `k / 2 ^ 53`.
pub mod Reconnect
pub mod Closing
pub mod Backoff
use secure_chat_client.Prelude.{
  ℕ, zero, suc, ◌+◌, ◌-◌, ◌*◌, ◌/◌, ◌^◌, Bool, true, false, ◌&&◌, ◌||◌, not, Option, none, some,
  List, [], ◌∷◌, ◌++◌, eqb, leb, ltb, if◌then◌else◌,
}

pub data WsState : Type 0 where
  connecting opened closing closed reconnecting : WsState

abbrev pub same_state : WsState → WsState → Bool
same_state connecting connecting = true
same_state opened opened = true
same_state closing closing = true
same_state closed closed = true
same_state reconnecting reconnecting = true
same_state _ _ = false

-- `opened` is the state "open".

-- `readyState` of a socket that has not closed.
pub data ReadyState : Type 0 where
  pending ready shutting : ReadyState

pub record Socket : Type 0 where
  pub number : ℕ
  pub ready_state : ReadyState

pub record WsClientOptions : Type 0 where
  pub reconnect : Bool
  pub ping_interval_ms : ℕ

pub record WsClient : Type 0 where
  pub socket : Option ℕ
  pub state : WsState
  pub attempt : ℕ
  pub ping_timer : Option ℕ
  pub explicit_close : Bool
  -- how many calls of `getToken` have not been answered
  pub tokens : ℕ
  pub sockets : List Socket
  -- the numbers of the running intervals
  pub intervals : List ℕ
  -- the delays of the timers of `connectInternal`
  pub reconnects : List ℕ
  -- the numbers given to sockets and intervals
  pub made : ℕ
  -- the calls of `onState`
  pub states : List WsState
  -- the pings on the socket of a number
  pub pings : List ℕ

abbrev pub new_client : WsClient
new_client = record {
  socket = none;
  state = closed;
  attempt = 0;
  ping_timer = none;
  explicit_close = false;
  tokens = 0;
  sockets = [];
  intervals = [];
  reconnects = [];
  made = 0;
  states = [];
  pings = [];
}

abbrev pub min : ℕ → ℕ → ℕ
min a b = if leb a b then a else b

abbrev pub max : ℕ → ℕ → ℕ
max a b = if leb a b then b else a

abbrev pub backoff_base : ℕ → ℕ
backoff_base attempt = min (500 * 2 ^ attempt) 30000

-- `base + base * (0.2 * (random - 0.5) * 2)` is `base * (8 + 4 * random) / 10`.
unfoldable pub backoff_ms : ℕ → ℕ → ℕ
backoff_ms attempt k = max 250 (backoff_base attempt * (8 * 2 ^ 53 + 4 * k) / (10 * 2 ^ 53))

unfoldable pub set_state : WsState → WsClient → WsClient
set_state s c =
    if same_state c.state s then c else record c { state = s; states = c.states ++ s ∷ [] }

unfoldable pub remove_number : ℕ → List ℕ → List ℕ
remove_number n [] = []
remove_number n (m ∷ ms) = let rest = remove_number n ms in if eqb m n then rest else m ∷ rest

unfoldable pub find_socket : ℕ → List Socket → Option ReadyState
find_socket n [] = none
find_socket n (s ∷ ss) =
    let rest = find_socket n ss in if eqb s.number n then some s.ready_state else rest

unfoldable pub set_ready_state : ℕ → ReadyState → List Socket → List Socket
set_ready_state n r [] = []
set_ready_state n r (s ∷ ss) =
    let rest = set_ready_state n r ss in
    if eqb s.number n then record s { ready_state = r } ∷ ss else s ∷ rest

unfoldable pub remove_socket : ℕ → List Socket → List Socket
remove_socket n [] = []
remove_socket n (s ∷ ss) = let rest = remove_socket n ss in if eqb s.number n then ss else s ∷ rest

-- `stopPing`
unfoldable pub stop_ping : WsClient → WsClient
unfolding remove_number
stop_ping c = elim c.ping_timer [
  | none ↦ c
  | some n ↦ record c { intervals = remove_number n c.intervals; ping_timer = none }
]

-- `connectInternal` up to the answer of `getToken`.
unfoldable pub connect_internal : WsClient → WsClient
unfolding set_state
connect_internal c =
    let c1 : WsClient = set_state connecting c in record c1 { tokens = c1.tokens + 1 }

unfoldable pub connect : WsClient → WsClient
unfolding connect_internal
connect c =
    if same_state c.state opened || same_state c.state connecting
    then c
    else connect_internal (record c { explicit_close = false })

-- `socket.close` of a socket whose `readyState` is `OPEN`.
unfoldable pub close_socket : WsClient → WsClient
unfolding find_socket set_ready_state
close_socket c = elim c.socket [
  | none ↦ c
  | some n ↦ elim (find_socket n c.sockets) [
    | some ready ↦ record c { sockets = set_ready_state n shutting c.sockets }
    | _ ↦ c
  ]
]

unfoldable pub close : WsClient → WsClient
unfolding set_state stop_ping close_socket
close c = close_socket (stop_ping (set_state closing (record c { explicit_close = true })))

-- The answer of `getToken`: a new socket, or the end of the call.
unfoldable pub token_given : WsClient → WsClient
token_given c = elim c.tokens [
  | zero ↦ c
  | suc n ↦ record c {
    tokens = n;
    sockets = c.sockets ++ (record { number = c.made; ready_state = pending }) ∷ [];
    socket = some c.made;
    made = c.made + 1;
  }
]

unfoldable pub token_refused : WsClient → WsClient
token_refused c = elim c.tokens [ zero ↦ c | suc n ↦ record c { tokens = n } ]

-- `send` of a ping: `none`: it throws.
unfoldable pub ping : WsClient → Option WsClient
ping c = elim c.socket [
  | none ↦ none
  | some n ↦
      if same_state c.state opened then some (record c { pings = c.pings ++ n ∷ [] }) else none
]

-- The callback of the interval.
unfoldable pub ping_tick : ℕ → WsClient → WsClient
unfolding ping
ping_tick n c = elim (ping c) [ none ↦ c | some c' ↦ c' ]

-- The calls of the program, and what comes from outside.
pub data Event : Type 0 where
  connects closes gives_token refuses_token fires : Event
  opens : ℕ → Event
  shuts : ℕ → ℕ → Event
  ticks : ℕ → Event

module _ (opts : WsClientOptions) where
  unfoldable pub start_ping : WsClient → WsClient
  start_ping c = if eqb opts.ping_interval_ms 0 then c else record c {
    ping_timer = some c.made;
    intervals = c.intervals ++ c.made ∷ [];
    made = c.made + 1;
  }

  unfoldable pub on_open : ℕ → WsClient → WsClient
  unfolding set_state start_ping set_ready_state
  on_open n c =
      start_ping
        (set_state opened (record c { attempt = 0; sockets = set_ready_state n ready c.sockets }))

  unfoldable pub on_close : ℕ → ℕ → WsClient → WsClient
  unfolding stop_ping set_state remove_socket
  on_close n k c =
      let c1 : WsClient = record (stop_ping c) {
        socket = none;
        sockets = remove_socket n c.sockets;
      } in
      if c1.explicit_close || not opts.reconnect
      then set_state closed c1
      else let c2 : WsClient = set_state reconnecting c1 in
        record c2 {
          reconnects = c2.reconnects ++ backoff_ms c2.attempt k ∷ [];
          attempt = c2.attempt + 1;
        }

  -- The timer of a reconnection.
  unfoldable pub timer_fired : WsClient → WsClient
  unfolding connect_internal
  timer_fired c = elim c.reconnects [
    | [] ↦ c
    | d ∷ ds ↦ connect_internal (record c { reconnects = ds })
  ]

  unfoldable pub handle : Event → WsClient → WsClient
  unfolding connect close token_given token_refused timer_fired on_open on_close ping_tick
      find_socket
  handle connects c = connect c
  handle closes c = close c
  handle gives_token c = token_given c
  handle refuses_token c = token_refused c
  handle fires c = timer_fired c
  handle (opens n) c = elim (find_socket n c.sockets) [ some pending ↦ on_open n c | _ ↦ c ]
  handle (shuts n k) c = elim (find_socket n c.sockets) [ none ↦ c | some r ↦ on_close n k c ]
  handle (ticks n) c = ping_tick n c

  unfoldable pub run : List Event → WsClient → WsClient
  unfolding handle
  run [] c = c
  run (e ∷ es) c = run es (handle e c)
