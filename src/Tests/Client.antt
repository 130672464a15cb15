-- ===== src/Tests/Client.antt =====
-- A client with a thread of two messages: src/index.ts.
use secure_chat_client.Prelude.JsSet
use secure_chat_client.Prelude.{
  ℕ, zero, suc, ◌<◌, ◌≡◌, refl, true, false, Option, none, some, List, [], ◌∷◌, ◌++◌, Text, lit,
  ◌==◌, length, take, drop, is_empty, drop-length-append, length-append, arith,
}
use secure_chat_client.Content.{ContentEvent, echoable, edit}
use secure_chat_client.Client.{Env, Client}
use secure_chat_client.Client.Dispatch.{dispatch_inbound_event}
use secure_chat_client.Client.Kept.{Kept, IsSound, row}
use secure_chat_client.Client.Preferences.{IdsText, set_blocked_user_ids, load_blocked_user_ids}
use secure_chat_client.Client.Blocking.{IsIdsFaithful, IsSilent, set_blocked_user_ids-IsSilent}
use secure_chat_client.Client.Authority.{dispatch_inbound_event-Kept}
use secure_chat_client.Devices.{new_cache}
use secure_chat_client.Messages
use secure_chat_client.Prelude.JsMap
use secure_chat_client.Status.{empty_tracker}
use secure_chat_client.Store.Memory.{MemoryKvStore, memory_kv, memory-IsLawful}
use secure_chat_client.Tests.Samples.{take-length-append, codec, codec-IsFaithful}
use secure_chat_client.Tests.Messages.{answer, thread, thread-IsKeyed}
use secure_chat_client.Tests.Conversations.{rows}
use secure_chat_client.Tests.Dedup.{numerals}
use secure_chat_client.Tests.Devices.{http}

abbrev pub env : Env MemoryKvStore
env = record { kv = memory_kv; codec = codec; rows = rows; numerals = numerals; http = http }

abbrev pub ann : Client MemoryKvStore
ann = record {
  store = thread.store;
  messages = thread.cache;
  conversations = [];
  loaded = true;
  status = empty_tracker;
  peer_devices = new_cache;
  blocked_user_ids = [];
  announced = [];
  pending_received = [];
  flush_timer = false;
  self_user_id = some (lit "ann");
  notices = [];
  receipts = [];
}

-- Bob tries to change the answer of Ann.
abbrev forgery : ContentEvent
forgery = echoable (
    edit
      (record {
        v = 1;
        id = lit "e1";
        client_sent_at = record { negative = false; mantissa = 3000; scale = 0 };
      })
      (lit "m2") (lit "never"))

answer-stored : row env (lit "m2") ann ≡ some answer
unfolding JsMap.lookup Messages.put ◌==◌ codec
answer-stored = refl

ann-IsSound : IsSound env ann
ann-IsSound = record { cached = thread-IsKeyed.cached; keyed = thread-IsKeyed.keyed }

dispatch_inbound_event-Kept_example :
    Kept env (lit "m2") ann (dispatch_inbound_event env (lit "bob") (lit "phone") forgery 5 6 ann)
unfolding ◌==◌
dispatch_inbound_event-Kept_example =
    dispatch_inbound_event-Kept env JsMap.lookup memory-IsLawful codec-IsFaithful (lit "m2")
      (lit "bob") (lit "phone") forgery 5 6 answer ann answer-stored refl refl ann-IsSound

-- A text of ids that writes the length of each id in front of it.
unfoldable stringify_ids : List Text → Text
stringify_ids [] = 0 ∷ []
stringify_ids (id ∷ ids) = 1 ∷ length id ∷ (id ++ stringify_ids ids)

unfoldable parse_ids : ℕ → Text → Option (List Text)
parse_ids zero s = none
parse_ids (suc fuel) [] = none
parse_ids (suc fuel) (zero ∷ s) = some []
parse_ids (suc fuel) (suc k ∷ []) = none
parse_ids (suc fuel) (suc k ∷ n ∷ s) = elim (parse_ids fuel (drop n s)) [
  | none ↦ none
  | some ids ↦ some (take n s ∷ ids)
]

abbrev ids_text : IdsText
ids_text = record { stringify = stringify_ids; parse = λ s. parse_ids (length s) s }

parse-stringify_ids :
    (fuel : ℕ) (ids : List Text) → length ids < fuel → parse_ids fuel (stringify_ids ids) ≡ some ids
unfolding parse_ids stringify_ids
parse-stringify_ids zero ids enough = ground (arith, enough)
parse-stringify_ids (suc fuel) [] enough = refl
parse-stringify_ids (suc fuel) (id ∷ ids) enough =
    let rest : parse_ids fuel (stringify_ids ids) ≡ some ids =
      parse-stringify_ids fuel ids (omega (arith, enough)) in
    rw (drop-length-append id (stringify_ids ids), rest, take-length-append id (stringify_ids ids))
      refl

length-stringify_ids : (ids : List Text) → length ids < length (stringify_ids ids)
unfolding stringify_ids
length-stringify_ids [] = omega arith
length-stringify_ids (id ∷ ids) =
    omega (arith, length-append id (stringify_ids ids), length-stringify_ids ids)

stringify_ids_named : (ids : List Text) → is_empty (stringify_ids ids) ≡ false
unfolding stringify_ids
stringify_ids_named [] = refl
stringify_ids_named (id ∷ ids) = refl

ids_text-IsIdsFaithful : IsIdsFaithful ids_text
ids_text-IsIdsFaithful = record {
  parse-stringify =
      λ ids. parse-stringify_ids (length (stringify_ids ids)) ids (length-stringify_ids ids);
  stringify_named = stringify_ids_named;
}

-- Ann blocks Eve and Bob, and starts again.
abbrev blocked : List Text
blocked = lit "eve" ∷ lit "bob" ∷ []

abbrev restarted : Client MemoryKvStore
restarted = record ann { store = (set_blocked_user_ids env ids_text blocked ann).store }

set_blocked_user_ids-IsSilent_example :
    IsSilent (set_blocked_user_ids env ids_text blocked ann) (
      dispatch_inbound_event env
        (lit "bob")
        (lit "phone")
        forgery
        5
        6
        (set_blocked_user_ids env ids_text blocked ann))
    × IsSilent (load_blocked_user_ids env ids_text restarted) (
        dispatch_inbound_event env
          (lit "bob")
          (lit "phone")
          forgery
          5
          6
          (load_blocked_user_ids env ids_text restarted))
unfolding JsSet.contains ◌==◌
set_blocked_user_ids-IsSilent_example =
    set_blocked_user_ids-IsSilent env JsMap.lookup memory-IsLawful ids_text blocked (lit "bob")
      (lit "phone") forgery 5 6 ann restarted ids_text-IsIdsFaithful refl refl
