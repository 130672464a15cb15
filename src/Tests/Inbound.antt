-- ===== src/Tests/Inbound.antt =====
-- An envelope that arrives on the socket and again from the server: src/index.ts.
use secure_chat_client.Client.Drain.{drain_pending}
use secure_chat_client.Client.Draining.{HoldsQueue, Ends, page_uuids, drain_pending-Ends}
use secure_chat_client.Client.Inbound.{
  PendingEnvelope, PendingHttp, InboundEnv, Envelope, Receiver, Times, live, drain, handled,
  ack_live, handle_inbound_ciphertext, handle_new, decrypt_or_recover, mark, settle,
  accept_plaintext, dispatch_or_throw, decode,
}
use secure_chat_client.Client.Again.{handle_all, handle_inbound_ciphertext_again}
use secure_chat_client.Client.Once.{IsSettled, handle_inbound_ciphertext-IsSettled}
use secure_chat_client.Dedup.{has, init}
use secure_chat_client.Prelude.JsMap
use secure_chat_client.Prelude.JsSet
use secure_chat_client.Prelude.JsSet.{Subset, length-remove, length-remove-le}
use secure_chat_client.Prelude.{
  ◌≡◌, ◌<◌, ◌≤◌, refl, sym, ap, ◌∙◌, eq_iff, true, Option, none, some, List, [], ◌∷◌, Text, lit,
  length, map, arith, inl, inr, Option-cases,
}
use secure_chat_client.Sessions.{normal, new_sessions}
use secure_chat_client.Store.Memory.{MemoryKvStore, memory-IsLawful}
use secure_chat_client.Tests.Client.{env, ann}
use secure_chat_client.Tests.Content.{json, plaintext}
use secure_chat_client.Tests.Sessions.{crypto, http, opts}

-- A server that holds the ids of the envelopes that wait.
abbrev pub waiting_envelope : Text → PendingEnvelope
waiting_envelope uuid = record {
  envelope_uuid = uuid;
  sender_user_id = lit "bob";
  sender_device_id = lit "phone";
  ciphertext = plaintext;
  msg_type = normal;
  received_at = 7;
}

unfoldable pub remove_all : List Text → List Text → List Text
unfolding JsSet.remove
remove_all [] queue = queue
remove_all (u ∷ us) queue = remove_all us (JsSet.remove u queue)

abbrev pub server : PendingHttp (List Text)
server = record {
  pending = λ device n queue. (some (map waiting_envelope queue), queue);
  ack = λ device uuids queue. (some tt, remove_all uuids queue);
}

abbrev pub inbound : InboundEnv MemoryKvStore (List Text)
inbound = record {
  env = env;
  crypto = crypto;
  http = http;
  pending_http = server;
  options = opts;
  json = json;
  recode = λ s. s;
  interrupts = λ event now c. none;
}

abbrev pub receiver : Receiver MemoryKvStore (List Text)
receiver = record {
  client = ann;
  sessions = new_sessions (lit "e1" ∷ lit "e2" ∷ []);
  processed = [];
  initialized = true;
  ws_open = true;
  acks = [];
}

abbrev first : Envelope
first = record {
  envelope_uuid = lit "e1";
  peer_user_id = lit "bob";
  peer_device_id = lit "phone";
  ciphertext = plaintext;
  msg_type = normal;
  source = live;
}

abbrev times : Times
times = record {
  added_at = 1;
  recovered_at = 2;
  looked_up_at = 3;
  listed_at = 4;
  relisted_at = 5;
  dispatched_at = 6;
  done_at = 7;
}

handle_inbound_ciphertext-IsSettled_example :
    IsSettled inbound JsMap.lookup first times receiver
      (handle_inbound_ciphertext inbound first times receiver).0
      (handle_inbound_ciphertext inbound first times receiver).1
handle_inbound_ciphertext-IsSettled_example =
    handle_inbound_ciphertext-IsSettled inbound JsMap.lookup memory-IsLawful first times receiver
      refl

accept_plaintext-handled :
    (text : Text) (r : Receiver MemoryKvStore (List Text))
    → (accept_plaintext inbound first text times r).0 ≡ handled
unfolding accept_plaintext dispatch_or_throw
accept_plaintext-handled text r = elim (Option-cases (decode inbound text)) [
  | inl unreadable ↦ rw (accept_plaintext, unreadable) refl
  | inr (event, readable) ↦ rw (accept_plaintext, readable) refl
]

first-handled : (handle_inbound_ciphertext inbound first times receiver).0 ≡ handled
unfolding handle_inbound_ciphertext handle_new decrypt_or_recover has init JsMap.lookup
first-handled =
    let r : Receiver MemoryKvStore (List Text) =
      (decrypt_or_recover inbound first times
        (mark inbound first.envelope_uuid times.added_at receiver)).1 in
    ap
      (λ out.
        (settle inbound first.envelope_uuid
          (out, (accept_plaintext inbound first plaintext times r).1)).0)
      (accept_plaintext-handled plaintext r)

-- Another envelope comes in between.
abbrev between : List (Envelope × Times)
between = (record first { envelope_uuid = lit "e2"; source = drain }, times) ∷ []

handle_inbound_ciphertext_again_example :
    handle_inbound_ciphertext inbound
      (record first { source = drain })
      times
      (handle_all inbound between (handle_inbound_ciphertext inbound first times receiver).1)
    ≡ (
      handled,
      ack_live
          (record first { source = drain })
          (handle_all inbound between (handle_inbound_ciphertext inbound first times receiver).1),
    )
unfolding handle_inbound_ciphertext
handle_inbound_ciphertext_again_example =
    handle_inbound_ciphertext_again inbound first (record first { source = drain }) times times
      between receiver refl refl first-handled refl (omega arith)

remove_all-le : (us queue : List Text) → length (remove_all us queue) ≤ length queue
unfolding remove_all
remove_all-le [] queue = omega arith
remove_all-le (u ∷ us) queue =
    omega (arith, remove_all-le us (JsSet.remove u queue), length-remove-le u queue)

ack_takes :
    (u : Text) (us queue : List Text)
    → Subset (u ∷ us) queue
    → length (remove_all (u ∷ us) queue) < length queue
unfolding remove_all JsSet.contains
ack_takes u us queue sub = omega (
  arith,
  remove_all-le us (JsSet.remove u queue),
  length-remove u queue (sub u (ground (arith, eq_iff u u))),
)

page_uuids-waiting : (queue : List Text) → page_uuids (map waiting_envelope queue) ≡ queue
unfolding page_uuids
page_uuids-waiting [] = refl
page_uuids-waiting (u ∷ us) = ap (λ rest. u ∷ rest) (page_uuids-waiting us)

abbrev or_empty : Option (List PendingEnvelope) → List PendingEnvelope
or_empty none = []
or_empty (some page) = page

server-HoldsQueue : HoldsQueue inbound (lit "tablet") (λ queue. queue)
server-HoldsQueue = record {
  decrypt_keeps = λ peer device ciphertext type w. refl;
  forget_keeps = λ peer device w. refl;
  claim_keeps = λ self peer w. refl;
  pending_keeps = λ n w. refl;
  pending_lists = λ n w page given a there.
      ap (JsSet.contains a) (sym (page_uuids-waiting w) ∙ ap (λ o. page_uuids (or_empty o)) given)
      ∙ there;
  ack_takes = λ u us w sub given. ack_takes u us w sub;
}

drain_pending-Ends_example :
    Ends (drain_pending inbound (lit "tablet") (λ uuid. times) 3 receiver).0
drain_pending-Ends_example =
    drain_pending-Ends inbound (lit "tablet") (λ uuid. times) (λ queue. queue) server-HoldsQueue 3
      receiver (omega arith)
