-- ===== src/Client/Outgoing.antt =====
-- What is sent: src/index.ts, `sendContent`, `sendContentInner`, `selfEcho` and
-- `shipCatchUpEnvelope`. The frames of a message wait with its entry of the outbox. Sends come one
-- after the other, and the immediate tick of the outbox runs to its end where it stands. What the
-- tick does for its entries follows on the tick itself, the failures last.
use secure_chat_client.Bundles
use secure_chat_client.Bundles.{CryptoAdapter, HttpClient}
use secure_chat_client.Client.{Client, history, with_history, tracked}
use secure_chat_client.Client.Inbound.{InboundEnv, Receiver, set_client, set_sessions}
use secure_chat_client.Client.Preferences.{on_terminal_failure}
use secure_chat_client.Content.{Number, ContentEvent, SelfEchoableEvent, encode_event}
use secure_chat_client.Content.Factories.{new_self_echo}
use secure_chat_client.Client.Dispatch.{is_content, event_id}
use secure_chat_client.Messages
use secure_chat_client.Messages.{StoredMessage, Page}
use secure_chat_client.Outbox.{Outbox, OutboxEntry, World, enqueue, tick}
use secure_chat_client.Prelude.JsMap
use secure_chat_client.Prelude.JsSet
use secure_chat_client.Prelude.JsMap.{JsMap}
use secure_chat_client.Prelude.{
  ℕ, ◌+◌, Bool, true, false, ◌&&◌, ◌||◌, none, some, List, [], ◌∷◌, ◌++◌, Text, ◌==◌, is_empty,
  is_some, drop, length, leb, if◌then◌else◌,
}
use secure_chat_client.Sessions.{
  MsgType, prekey, normal, EncryptForResult, SessionManager, encrypt_for_peer, cached_fanout_size,
  refresh_peer_bundles,
}
use secure_chat_client.Status.{SendStatus, stored, error, on_send_result}
use secure_chat_client.Status.Track.{track_outbound}

pub record ChatSendTarget : Type 0 where
  pub device_id : Text
  pub ciphertext : Text
  pub envelope_uuid : Text

-- A missing `ephemeral` is false, a missing `notifyPush` is true.
pub record ChatSendFrame : Type 0 where
  pub to_user_id : Text
  pub ephemeral : Bool
  pub notify_push : Bool
  pub msg_type : MsgType
  pub targets : List ChatSendTarget

-- What the attempt of an entry of the outbox closes over.
pub record Shipment : Type 0 where
  pub frames : List ChatSendFrame
  pub targets : List ChatSendTarget
  pub promotes : Bool

pub record SendOptions : Type 0 where
  pub ephemeral : Bool
  pub notify_push : Bool

-- `{ ephemeral: false, notifyPush: false }`
abbrev pub silent : SendOptions
silent = record { ephemeral = false; notify_push = false }

pub record Sender (S K : Type 0) : Type 0 where
  pub receiver : Receiver S K
  pub outbox : Outbox
  pub shipments : JsMap Shipment
  pub bundle_reupload_attempted : Bool
  -- how many ids were drawn
  pub drawn : ℕ
  -- the frames handed to the socket
  pub sent : List ChatSendFrame

pub record SendEnv (S K : Type 0) : Type 0 where
  pub inbound : InboundEnv S K
  pub bundle_crypto : CryptoAdapter K
  pub bundle_http : HttpClient K
  pub device_id : Text
  -- `generateUUID()`, by the number of the call
  pub generate_uuid : ℕ → Text

pub data Sending : Type 0 where
  shipped : Sending
  peer_unreachable : Sending
  failed_to_send : Sending

-- The times of one send: its start, the end of a claim, the end of the encryption.
pub record SendTimes : Type 0 where
  pub now : ℕ
  pub claimed_at : ℕ
  pub encrypted_at : ℕ
  -- `Math.random()` of the backoff
  pub random : Text → ℕ → ℕ

abbrev pub set_receiver : {S K : Type 0} → Receiver S K → Sender S K → Sender S K
set_receiver r s = record s { receiver = r }

abbrev pub same_type : MsgType → MsgType → Bool
same_type prekey prekey = true
same_type normal normal = true
same_type _ _ = false

abbrev pub Buckets : Type 0
Buckets = List (MsgType × List ChatSendTarget)

unfoldable pub put_in_bucket : MsgType → ChatSendTarget → Buckets → Buckets
put_in_bucket type t [] = (type, t ∷ []) ∷ []
put_in_bucket type t ((b, ts) ∷ bs) =
    let rest = put_in_bucket type t bs in
    if same_type b type then (b, ts ++ t ∷ []) ∷ bs else (b, ts) ∷ rest

unfoldable pub by_msg_type : List (MsgType × ChatSendTarget) → Buckets → Buckets
unfolding put_in_bucket
by_msg_type [] bs = bs
by_msg_type ((type, t) ∷ es) bs = by_msg_type es (put_in_bucket type t bs)

unfoldable pub frames_of : Text → SendOptions → Buckets → List ChatSendFrame
frames_of peer o [] = []
frames_of peer o ((type, ts) ∷ bs) =
    (record {
      to_user_id = peer;
      ephemeral = o.ephemeral;
      notify_push = o.notify_push;
      msg_type = type;
      targets = ts;
    })
    ∷ frames_of peer o bs

unfoldable pub targets_of : List (MsgType × ChatSendTarget) → List ChatSendTarget
targets_of [] = []
targets_of ((type, t) ∷ es) = t ∷ targets_of es

unfoldable pub envelope_map : List ChatSendTarget → JsMap Text → JsMap Text
unfolding JsMap.insert
envelope_map [] m = m
envelope_map (t ∷ ts) m = envelope_map ts (JsMap.insert t.envelope_uuid t.device_id m)

unfoldable pub all_outcomes : SendStatus → List ChatSendTarget → JsMap SendStatus → JsMap SendStatus
unfolding JsMap.insert
all_outcomes outcome [] m = m
all_outcomes outcome (t ∷ ts) m = all_outcomes outcome ts (JsMap.insert t.envelope_uuid outcome m)

module _ {S K : Type 0} (se : SendEnv S K) where
  unfoldable pub entries : List EncryptForResult → ℕ → List (MsgType × ChatSendTarget)
  entries [] n = []
  entries (e ∷ es) n =
      (
        e.msg_type,
        record {
          device_id = e.peer_device_id;
          ciphertext = e.ciphertext;
          envelope_uuid = se.generate_uuid n;
        },
      )
      ∷ entries es (n + 1)

  abbrev pub update_client : (Client S → Client S) → Sender S K → Sender S K
  update_client f s = set_receiver (set_client (f s.receiver.client) s.receiver) s

  abbrev pub upload_again : Sender S K → Sender S K
  upload_again s =
      let m : SessionManager K = s.receiver.sessions in
      let w : K =
        (Bundles.reupload_current_bundle se.bundle_crypto se.bundle_http se.device_id
          m.outside).1 in
      record s {
        receiver = set_sessions (record m { outside = w }) s.receiver;
        bundle_reupload_attempted = true;
      }

  -- No device of the peer is known.
  unfoldable pub suspect_mismatch : Text → SendOptions → Sender S K → Sender S K
  unfolding Messages.list_for_peer Bundles.reupload_current_bundle
  suspect_mismatch peer o s =
      if o.ephemeral || s.bundle_reupload_attempted
      then s
      else let (rows, ms) =
          Messages.list_for_peer se.inbound.env.kv se.inbound.env.codec peer
            (record { limit = some 1; before_sent_at = none }) (history s.receiver.client) in
        let s1 : Sender S K = update_client (with_history ms) s in
        if leb 1 (length rows) then upload_again s1 else s1

  -- What the attempts come to: the socket takes all or nothing.
  abbrev pub world_of : (Text → ℕ → ℕ) → Sender S K → World
  world_of random s = record {
    outcomes = λ id n. elim (JsMap.lookup id s.shipments) [
      | none ↦ none
      | some sh ↦ some (all_outcomes (if s.receiver.ws_open then stored else error) sh.targets [])
    ];
    random = random;
  }

  unfoldable pub promote : List ChatSendTarget → Client S → Client S
  unfolding on_send_result
  promote [] c = c
  promote (t ∷ ts) c = promote ts (tracked se.inbound.env (on_send_result t.envelope_uuid stored) c)

  abbrev pub ship : Shipment → Sender S K → Sender S K
  ship sh s =
      let s1 : Sender S K = record s { sent = s.sent ++ sh.frames } in
      if sh.promotes then update_client (promote sh.targets) s1 else s1

  -- The frames of the entries that are due, if the socket is open.
  unfoldable pub ship_due : ℕ → List OutboxEntry → Sender S K → Sender S K
  unfolding promote JsMap.lookup
  ship_due now [] s = s
  ship_due now (e ∷ es) s = ship_due now es (
      if s.receiver.ws_open && leb e.next_retry_at now
      then (elim (JsMap.lookup e.message_id s.shipments) [ none ↦ s | some sh ↦ ship sh s ])
      else s)

  unfoldable pub give_up_all : List OutboxEntry → Client S → Client S
  unfolding on_terminal_failure
  give_up_all [] c = c
  give_up_all (e ∷ es) c =
      give_up_all es (on_terminal_failure se.inbound.env e.peer_user_id e.message_id c)

  -- `outbox.tick()`
  unfoldable pub ship_pending : (Text → ℕ → ℕ) → ℕ → Sender S K → Sender S K
  unfolding tick ship_due give_up_all all_outcomes
  ship_pending random now s =
      let after : Outbox = (tick (world_of random s) now s.outbox).1 in
      let s1 : Sender S K = ship_due now s.outbox.queue s in
      update_client (give_up_all (drop (length s.outbox.failures) after.failures))
        (record s1 { outbox = after })

  -- The ciphertexts as frames: sent at once if ephemeral, else queued in the outbox, which ticks.
  unfoldable pub post :
      Text
      → ContentEvent
      → SendOptions
      → SendTimes
      → List EncryptForResult
      → Sender S K
      → Sender S K
  unfolding entries targets_of frames_of by_msg_type envelope_map track_outbound enqueue
      JsMap.insert ship_pending JsSet.contains
  post peer event o t encrypted s =
      let es = entries encrypted s.drawn in
      let targets : List ChatSendTarget = targets_of es in
      let frames : List ChatSendFrame = frames_of peer o (by_msg_type es []) in
      let s1 : Sender S K = record s { drawn = s.drawn + length encrypted } in
      let s2 : Sender S K =
        if is_content event
        then update_client
            (tracked se.inbound.env
              (track_outbound (event_id event) peer (envelope_map targets [])))
            s1
        else s1 in
      if o.ephemeral
      then (if s2.receiver.ws_open then record s2 { sent = s2.sent ++ frames } else s2)
      else ship_pending t.random t.encrypted_at (record s2 {
        outbox = enqueue (event_id event) peer false s2.outbox;
        shipments =
            if JsSet.contains (event_id event) s2.outbox.inflight_ids
            then s2.shipments
            else JsMap.insert (event_id event)
                (record { frames = frames; targets = targets; promotes = is_content event })
                s2.shipments;
      })

  unfoldable pub send_content :
      Text → ContentEvent → SendOptions → SendTimes → Sender S K → Sending × Sender S K
  unfolding encode_event encrypt_for_peer suspect_mismatch post
  send_content peer event o t s = elim (encode_event se.inbound.json event) [
    | none ↦ (failed_to_send, s)
    | some plaintext ↦
        let (encrypted, m) =
          encrypt_for_peer se.inbound.crypto se.inbound.http se.inbound.options peer
            (se.inbound.recode plaintext) t.now t.claimed_at t.encrypted_at s.receiver.sessions in
        let s1 : Sender S K = set_receiver (set_sessions m s.receiver) s in
        elim encrypted [
          | none ↦ (failed_to_send, s1)
          | some [] ↦
              (if o.ephemeral then shipped else peer_unreachable, suspect_mismatch peer o s1)
          | some (e ∷ es) ↦ (shipped, post peer event o t (e ∷ es) s1)
        ]
  ]

  -- The devices of the user are claimed if none is known; false: the claim throws.
  unfoldable pub know_siblings : Text → Sender S K → Bool × Sender S K
  unfolding cached_fanout_size refresh_peer_bundles
  know_siblings self s =
      let i : InboundEnv S K = se.inbound in
      let known : Bool =
        elim (cached_fanout_size i.crypto i.http i.options self s.receiver.sessions) [
          | none ↦ false
          | some n ↦ leb 1 n
        ] in
      let (claimed, m) = refresh_peer_bundles i.crypto i.http i.options self s.receiver.sessions in
      if known then (true, s) else (is_some claimed, set_receiver (set_sessions m s.receiver) s)

  -- `selfEcho`; the new event has a drawn id and the time `at`. Errors are swallowed.
  unfoldable pub echo_to_self :
      Text → SelfEchoableEvent → Number → SendTimes → Sender S K → Sender S K
  unfolding know_siblings send_content
  echo_to_self original_peer original at t s = elim s.receiver.client.self_user_id [
    | none ↦ s
    | some self ↦
        if is_empty self || (original_peer == self)
        then s
        else let echo : ContentEvent =
            new_self_echo (se.generate_uuid s.drawn) at original_peer original in
          let (known, s1) = know_siblings self (record s { drawn = s.drawn + 1 }) in
          let sent_on : Sender S K = (send_content self echo silent t s1).1 in
          if known then sent_on else s1
  ]
