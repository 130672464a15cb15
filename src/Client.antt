-- ===== src/Client.antt =====
-- The state of the client and what all of its handlers share: src/index.ts, class
-- `DTelecomSecureChat`. The message history, the conversation index and the client itself keep
-- their rows in one store, which the client's state holds once. The calls of the listeners and of
-- `sendContent` for receipts are kept in order. `void` calls run to their end where they stand.
pub mod Dispatch
pub mod Kept
pub mod Effects
pub mod Authority
pub mod Inbound
pub mod Drain
pub mod Once
pub mod Again
pub mod Draining
pub mod Preferences
pub mod Blocking
pub mod Outgoing
pub mod Calls
pub mod Texts
pub mod Retries
pub mod Guards
pub mod Frames
use secure_chat_client.Prelude.JsMap
use secure_chat_client.Prelude.JsMap.{JsMap}
use secure_chat_client.Prelude.JsSet
use secure_chat_client.Prelude.{
  ℕ, ◌≡◌, ◌/◌, ◌^◌, Bool, true, false, ◌&&◌, ◌||◌, not, Option, none, some, List, [], ◌∷◌, ◌++◌,
  Text, lit, ◌==◌, is_empty, eqb, leb, length, if◌then◌else◌,
}
use secure_chat_client.Content.{Number, Json}
use secure_chat_client.Conversations.{ConvIndexRow, RowCodec, ConversationIndex, MessageStored}
use secure_chat_client.Conversations
use secure_chat_client.Dedup.{Numerals}
use secure_chat_client.Devices.{Directory, PeerDeviceCache}
use secure_chat_client.Messages.{StoredMessage, Codec, MessageStore}
use secure_chat_client.Messages
use secure_chat_client.Status.{MessageStatus, failed, same_status, StatusEvent, StatusTracker}
use secure_chat_client.Store.{KvOps}

-- What the client stands on: storage, codecs, the directory of devices.
pub record Env (S : Type 0) : Type 0 where
  pub kv : KvOps S
  pub codec : Codec
  pub rows : RowCodec
  -- `String(n)` and `parseInt(text, 10)`
  pub numerals : Numerals
  pub http : Directory

-- The calls of the listeners.
pub data Notice : Type 0 where
  message : Text → Text → Text → StoredMessage → Notice
  app_event : Text → Text → Text → Json → Text → ℕ → Notice
  message_edited : Text → Text → Text → Text → ℕ → Notice
  message_deleted : Text → Text → Text → ℕ → Notice
  read_receipt : Text → Text → Text → Notice
  typing : Text → Text → Bool → Notice
  status_change : Text → Text → MessageStatus → Notice
  send_failed : Text → Text → Notice
  peer_new_device : Text → Text → Text → Notice
  conversations_changed : List Text → ℕ → Notice
  deleted_by_self : Text → Bool → Notice
  deleted_by_peer : Text → Notice

-- A call of `sendContent` with `newReceived(ids)`.
pub record Receipt : Type 0 where
  pub to : Text
  pub ids : List Text

pub record Client (S : Type 0) : Type 0 where
  pub store : S
  pub messages : JsMap StoredMessage
  pub conversations : JsMap ConvIndexRow
  pub loaded : Bool
  pub status : StatusTracker
  pub peer_devices : PeerDeviceCache
  pub blocked_user_ids : List Text
  pub announced : List Text
  -- the keys of the source are `peerUserId|peerDeviceId`
  pub pending_received : JsMap (List Text)
  pub flush_timer : Bool
  pub self_user_id : Option Text
  pub notices : List Notice
  pub receipts : List Receipt

-- The time of an event in whole milliseconds, as `Date.now()` gives it.
unfoldable pub millis : Number → ℕ
millis n = if n.negative then 0 else n.mantissa / 10 ^ n.scale

abbrev pub received_batch_flush_size : ℕ
received_batch_flush_size = 50

abbrev pub dispatch : {S : Type 0} → Notice → Client S → Client S
dispatch n c = record c { notices = c.notices ++ n ∷ [] }

-- The message history and the conversation index over the client's store, and back.
abbrev pub history : {S : Type 0} → Client S → MessageStore S
history c = record { cache = c.messages; store = c.store }

abbrev pub with_history : {S : Type 0} → MessageStore S → Client S → Client S
with_history ms c = record c { messages = ms.cache; store = ms.store }

abbrev pub index : {S : Type 0} → Client S → ConversationIndex S
index c = record { cache = c.conversations; loaded = c.loaded; store = c.store }

abbrev pub with_index : {S : Type 0} → ConversationIndex S → Client S → Client S
with_index i c = record c { conversations = i.cache; loaded = i.loaded; store = i.store }

-- `key.split("|")[0]`
unfoldable pub before_bar : Text → Text
before_bar [] = []
before_bar (x ∷ xs) = let rest = before_bar xs in if eqb x 124 then [] else x ∷ rest

abbrev pub device_key : Text → Text → Text
device_key peer device = peer ++ lit "|" ++ device

unfoldable pub receipts_of : JsMap (List Text) → List Receipt
unfolding before_bar
receipts_of [] = []
receipts_of ((key, ids) ∷ m) = record { to = before_bar key; ids = ids } ∷ receipts_of m

unfoldable pub flush_received_batch : {S : Type 0} → Client S → Client S
unfolding receipts_of
flush_received_batch c = record c {
  flush_timer = false;
  receipts = c.receipts ++ receipts_of c.pending_received;
  pending_received = [];
}

abbrev pub pending_at : {S : Type 0} → Text → Client S → List Text
pending_at key c = elim (JsMap.lookup key c.pending_received) [ none ↦ [] | some ids ↦ ids ]

unfoldable pub queue_received_ack : {S : Type 0} → Text → Text → Text → Client S → Client S
unfolding flush_received_batch JsMap.insert
queue_received_ack {S} peer device event_id c =
    let key : Text = device_key peer device in
    let ids : List Text = pending_at key c ++ event_id ∷ [] in
    let c' : Client S = record c { pending_received = JsMap.insert key ids c.pending_received } in
    if leb received_batch_flush_size (length ids)
    then flush_received_batch c'
    else record c' { flush_timer = true }

module _ {S : Type 0} (env : Env S) where
  unfoldable pub emit_conversations_changed : List Text → Client S → Client S
  unfolding Conversations.list Conversations.total
  emit_conversations_changed changed c =
      let (out, (i, ms)) =
        Conversations.list env.kv env.codec env.rows c.self_user_id (index c) (history c) in
      dispatch (conversations_changed changed (Conversations.total env.kv env.codec out))
        (with_history ms (with_index i c))

  unfoldable pub bump_conversation : MessageStored → Client S → Client S
  unfolding Conversations.on_message_stored emit_conversations_changed
  bump_conversation m c =
      let (changed, i) =
        Conversations.on_message_stored env.kv env.rows c.self_user_id m (index c) in
      let c' : Client S = with_index i c in
      if changed then emit_conversations_changed (m.peer_user_id ∷ []) c' else c'

  unfoldable pub bump_read_watermark : Text → Text → Client S → Client S
  unfolding Messages.get Conversations.mark_read_up_to emit_conversations_changed
  bump_read_watermark peer up_to_message_id c =
      let (target, ms) = Messages.get env.kv env.codec up_to_message_id (history c) in
      let c1 : Client S = with_history ms c in
      elim target [
        | none ↦ c1
        | some m ↦
            let (changed, i) =
              Conversations.mark_read_up_to env.kv env.rows peer m.sent_at (index c1) in
            let c2 : Client S = with_index i c1 in
            if changed then emit_conversations_changed (peer ∷ []) c2 else c2
      ]

  -- `lastReadSentKey`
  abbrev pub last_read_sent_key : Text → Text
  last_read_sent_key peer = lit "lastReadSent/" ++ peer

  unfoldable pub get_last_read_sent : Text → Client S → Option ℕ
  get_last_read_sent peer c = elim (env.kv.get_string (last_read_sent_key peer) c.store) [
    | none ↦ none
    | some raw ↦ if is_empty raw then none else env.numerals.parse raw
  ]

  unfoldable pub set_last_read_sent : Text → ℕ → Client S → Client S
  unfolding get_last_read_sent
  set_last_read_sent peer sent_at c =
      let known : Bool = elim (get_last_read_sent peer c) [
        | none ↦ false
        | some n ↦ leb sent_at n
      ] in
      if known then c else record c {
        store = env.kv.set_string (last_read_sent_key peer) (env.numerals.print sent_at) c.store;
      }

  -- The calls of the listeners on a new status.
  unfoldable pub notify_status : StatusEvent → Client S → Client S
  notify_status e c =
      let c1 : Client S = dispatch (status_change e.peer_user_id e.message_id e.status) c in
      if same_status e.status failed
      then dispatch (send_failed e.peer_user_id e.message_id) c1
      else c1

  abbrev pub is_own : StoredMessage → Client S → Bool
  is_own m c = elim c.self_user_id [ none ↦ false | some self ↦ m.sender_user_id == self ]

  -- The listener of the status tracker: the calls of the listeners, and the row of the message.
  unfoldable pub on_status : StatusEvent → Client S → Client S
  unfolding Messages.get Messages.put notify_status
  on_status e c =
      let c1 : Client S = notify_status e c in
      let (row, ms) = Messages.get env.kv env.codec e.message_id (history c1) in
      let c2 : Client S = with_history ms c1 in
      elim row [
        | none ↦ c2
        | some m ↦
            if is_own m c2
            then with_history
                (Messages.put env.kv env.codec (record m { status = some e.status }) (history c2))
                c2
            else c2
      ]

  unfoldable pub on_statuses : List StatusEvent → Client S → Client S
  unfolding on_status
  on_statuses [] c = c
  on_statuses (e ∷ es) c = on_statuses es (on_status e c)

  -- A call of the tracker, and its listener on what the call emitted.
  abbrev pub tracked : (StatusTracker → StatusTracker) → Client S → Client S
  tracked f c =
      let t : StatusTracker = f (record c.status { emitted = [] }) in
      on_statuses t.emitted (record c { status = record t { emitted = [] } })
