-- ===== src/Outbox.antt =====
-- The queue of sends that are retried: src/outbox.ts, class `Outbox`.
-- The closure `attempt` of an entry is code of the caller: what it returns is the environment
-- `World`, a function of the message and the number of the attempt (`none`: it throws). The value
-- of `Math.random()` is `k / 2 ^ 53`. A tick runs to its end before the next call.
pub mod Bounds
pub mod Accounts
pub mod Drain
pub mod Kept
use secure_chat_client.Prelude.JsMap.{JsMap, values}
use secure_chat_client.Prelude.JsSet
use secure_chat_client.Prelude.{
  ℕ, suc, ◌+◌, ◌-◌, ◌*◌, ◌/◌, ◌^◌, Bool, true, false, ◌||◌, Option, none, some, List, [], ◌∷◌, ◌++◌,
  Text, leb, ltb, length, if◌then◌else◌,
}
use secure_chat_client.Status.{SendStatus, live, stored, dropped, error}

pub record OutboxEntry : Type 0 where
  pub message_id : Text
  pub peer_user_id : Text
  pub ephemeral : Bool
  pub attempts : ℕ
  pub next_retry_at : ℕ

pub record Outbox : Type 0 where
  pub queue : List OutboxEntry
  pub inflight_ids : List Text
  pub max_attempts : ℕ
  pub base_backoff_ms : ℕ
  -- the calls of `onTerminalFailure`, in order
  pub failures : List OutboxEntry

pub record World : Type 0 where
  pub outcomes : Text → ℕ → Option (JsMap SendStatus)
  pub random : Text → ℕ → ℕ

abbrev pub default_max_attempts : ℕ
default_max_attempts = 5

abbrev pub default_base_backoff : ℕ
default_base_backoff = 500

abbrev or_default : Option ℕ → ℕ → ℕ
or_default none d = d
or_default (some n) d = n

-- The constructor, from the two optional numbers.
unfoldable pub new_outbox : Option ℕ → Option ℕ → Outbox
new_outbox max_attempts base_backoff_ms = record {
  queue = [];
  inflight_ids = [];
  max_attempts = or_default max_attempts default_max_attempts;
  base_backoff_ms = or_default base_backoff_ms default_base_backoff;
  failures = [];
}

abbrev pub new_entry : Text → Text → Bool → OutboxEntry
new_entry id peer ephemeral = record {
  message_id = id;
  peer_user_id = peer;
  ephemeral = ephemeral;
  attempts = 0;
  next_retry_at = 0;
}

unfoldable pub enqueue : Text → Text → Bool → Outbox → Outbox
enqueue id peer ephemeral ob = if JsSet.contains id ob.inflight_ids then ob else record ob {
  inflight_ids = JsSet.add id ob.inflight_ids;
  queue = ob.queue ++ new_entry id peer ephemeral ∷ [];
}

abbrev pub max : ℕ → ℕ → ℕ
max a b = if leb a b then b else a

-- `Math.max(100, Math.floor(base + base * (0.4 * random - 0.2)))`, with `random = k / 2 ^ 53` and
-- `base = base_backoff_ms * 2 ^ (attempt - 1)`, on exact rationals.
unfoldable pub compute_backoff : ℕ → ℕ → ℕ → ℕ
compute_backoff base_backoff_ms attempt k =
    max 100 (base_backoff_ms * 2 ^ (attempt - 1) * (8 * 2 ^ 53 + 4 * k) / (10 * 2 ^ 53))

abbrev pub is_ok : SendStatus → Bool
is_ok live = true
is_ok stored = true
is_ok _ = false

abbrev pub any_ok : List SendStatus → Bool
any_ok [] = false
any_ok (s ∷ ss) = is_ok s || any_ok ss

-- A throw counts as an empty map of outcomes.
abbrev pub succeeded : Option (JsMap SendStatus) → Bool
succeeded none = false
succeeded (some m) = any_ok (values m)

-- What becomes of one entry of the queue in a tick.
pub data Verdict : Type 0 where
  keep : OutboxEntry → Verdict
  deliver : OutboxEntry → Verdict
  give_up : OutboxEntry → Verdict

unfoldable pub judge : World → ℕ → ℕ → ℕ → OutboxEntry → Verdict
unfolding compute_backoff
judge w now max_attempts base e =
    if ltb now e.next_retry_at
    then keep e
    else (let e' : OutboxEntry = record e { attempts = suc e.attempts } in
        if succeeded (w.outcomes e'.message_id e'.attempts)
        then deliver e'
        else if leb max_attempts e'.attempts
        then give_up e'
        else keep (record e' {
          next_retry_at =
              now + compute_backoff base e'.attempts (w.random e'.message_id e'.attempts);
        }))

-- The variables of the loop of `tick`.
pub record Round : Type 0 where
  pub still_pending : List OutboxEntry
  pub inflight : List Text
  pub completed : ℕ
  pub failed : List OutboxEntry

unfoldable pub settle : Verdict → Round → Round
unfolding JsSet.remove
settle (keep e) r = record r { still_pending = r.still_pending ++ e ∷ [] }
settle (deliver e) r = record r {
  inflight = JsSet.remove e.message_id r.inflight;
  completed = suc r.completed;
}
settle (give_up e) r = record r {
  inflight = JsSet.remove e.message_id r.inflight;
  completed = suc r.completed;
  failed = r.failed ++ e ∷ [];
}

unfoldable pub tick_loop : World → ℕ → ℕ → ℕ → List OutboxEntry → Round → Round
unfolding judge settle
tick_loop w now max_attempts base [] r = r
tick_loop w now max_attempts base (e ∷ es) r =
    tick_loop w now max_attempts base es (settle (judge w now max_attempts base e) r)

abbrev pub first_round : Outbox → Round
first_round ob = record {
  still_pending = [];
  inflight = ob.inflight_ids;
  completed = 0;
  failed = ob.failures;
}

-- `tick()` at the time `now`: the number of entries that completed, and the outbox after it.
unfoldable pub tick : World → ℕ → Outbox → ℕ × Outbox
unfolding tick_loop
tick w now ob =
    let r : Round = tick_loop w now ob.max_attempts ob.base_backoff_ms ob.queue (first_round ob) in
    (
      r.completed,
      record ob { queue = r.still_pending; inflight_ids = r.inflight; failures = r.failed },
    )

abbrev pub size : Outbox → ℕ
size ob = length ob.queue

abbrev pub has : Text → Outbox → Bool
has id ob = JsSet.contains id ob.inflight_ids
