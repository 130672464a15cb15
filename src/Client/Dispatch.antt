-- ===== src/Client/Dispatch.antt =====
-- What an event of a peer, or the echo of an own device, does: src/index.ts,
-- `dispatchInboundEvent`.
use secure_chat_client.Prelude.JsMap
use secure_chat_client.Prelude.JsMap.{JsMap}
use secure_chat_client.Prelude.JsSet
use secure_chat_client.Prelude.{
  ℕ, Bool, true, false, ◌&&◌, Option, none, some, List, [], ◌∷◌, ◌++◌, Text, lit, ◌==◌, is_some,
  leb, ltb, if◌then◌else◌,
}
use secure_chat_client.Content.{
  BaseEvent, TypingMark, started, stopped, SelfEchoableEvent, text, edit, delete, read,
  chat_delete_self, chat_delete_all, ContentEvent, echoable, received, typing, self_echo, app,
}
use secure_chat_client.Conversations
use secure_chat_client.Devices.{PeerDeviceMeta, get_peer_devices}
use secure_chat_client.Messages.{StoredMessage, Edit, Deletion}
use secure_chat_client.Messages
use secure_chat_client.Status.{MessageStatus, pending, on_received, on_read}
use secure_chat_client.Status.Track.{track_outbound}
use secure_chat_client.Client.{
  Env, Client, Notice, message, app_event, message_edited, message_deleted, read_receipt,
  conversations_changed, deleted_by_self, deleted_by_peer, millis, dispatch, history, with_history,
  index, with_index, queue_received_ack, emit_conversations_changed, bump_conversation,
  bump_read_watermark, set_last_read_sent, tracked,
}
use secure_chat_client.Client

-- The events that a blocked peer still gets a receipt for.
abbrev pub is_content : ContentEvent → Bool
is_content (echoable (text b s r)) = true
is_content (echoable (edit b k s)) = true
is_content (echoable (delete b k)) = true
is_content _ = false

abbrev pub event_id : ContentEvent → Text
event_id (echoable (text b s r)) = b.id
event_id (echoable (edit b k s)) = b.id
event_id (echoable (delete b k)) = b.id
event_id (echoable (read b k)) = b.id
event_id (echoable (chat_delete_self b p)) = b.id
event_id (echoable (chat_delete_all b)) = b.id
event_id (received b l) = b.id
event_id (typing b m) = b.id
event_id (self_echo b p e) = b.id
event_id (app b ns p) = b.id

-- The row of a text.
abbrev pub new_row :
    BaseEvent → Text → Text → Text → Option Text → Option MessageStatus → StoredMessage
new_row b peer sender s reply_to status = record {
  id = b.id;
  peer_user_id = peer;
  sender_user_id = sender;
  text = s;
  sent_at = millis b.client_sent_at;
  edited_at = none;
  deleted_at = none;
  reply_to = reply_to;
  status = status;
}

abbrev pub is_started : TypingMark → Bool
is_started started = true
is_started stopped = false

-- The synthetic envelopes of an echoed message, one per device of the peer.
unfoldable pub sibling_envelopes : Text → List PeerDeviceMeta → JsMap Text → JsMap Text
unfolding JsMap.insert
sibling_envelopes id [] m = m
sibling_envelopes id (d ∷ ds) m =
    sibling_envelopes id ds
      (JsMap.insert (lit "sibling:" ++ id ++ lit ":" ++ d.device_id) d.device_id m)

module _ {S : Type 0} (env : Env S) where
  -- `messages.put`, `applyEdit`, `applyDelete`, `deleteForPeer` and the watermark over the client.
  abbrev pub put_row : StoredMessage → Client S → Client S
  put_row m c = with_history (Messages.put env.kv env.codec m (history c)) c

  abbrev pub delete_watermark : Text → Client S → ℕ
  delete_watermark peer c = Messages.get_delete_watermark env.kv env.codec peer (history c)

  abbrev pub set_watermark : Text → ℕ → Client S → Client S
  set_watermark peer ms c =
      with_history (Messages.set_delete_watermark env.kv env.codec peer ms (history c)) c

  -- A text of `sender` in the thread of `peer`: the row, the index and the listeners.
  unfoldable pub store_text : Text → StoredMessage → Client S → Client S
  unfolding Messages.put bump_conversation
  store_text device m c = dispatch (message m.peer_user_id device m.sender_user_id m) (
      bump_conversation env
        (record {
          peer_user_id = m.peer_user_id;
          sender_user_id = m.sender_user_id;
          message_id = m.id;
          sent_at = m.sent_at;
        })
        (put_row m c))

  unfoldable pub edit_row : Text → Text → Edit → Client S → Client S
  unfolding Messages.apply_edit
  edit_row peer editor e c =
      let (updated, ms) = Messages.apply_edit env.kv env.codec e (history c) in
      let c' : Client S = with_history ms c in
      if is_some updated
      then dispatch (message_edited peer editor e.target_id e.new_text e.edited_at) c'
      else c'

  unfoldable pub delete_row : Text → Text → Deletion → Client S → Client S
  unfolding Messages.apply_delete
  delete_row peer deleter d c =
      let (updated, ms) = Messages.apply_delete env.kv env.codec d (history c) in
      let c' : Client S = with_history ms c in
      if is_some updated
      then dispatch (message_deleted peer deleter d.target_id d.deleted_at) c'
      else c'

  -- The thread of `peer` goes, with its row of the index, and the watermark is set.
  unfoldable pub wipe_thread : Text → ℕ → Client S → Client S
  unfolding Messages.delete_for_peer Conversations.delete Messages.set_delete_watermark
      emit_conversations_changed
  wipe_thread peer at c =
      let c1 : Client S =
        with_history (Messages.delete_for_peer env.kv env.codec peer (history c)) c in
      let c2 : Client S = with_index (Conversations.delete env.kv env.rows peer (index c1)) c1 in
      emit_conversations_changed env (peer ∷ []) (set_watermark peer at c2)

  -- A text of a peer first moves a delete watermark that was set.
  abbrev pub re_engage : Text → ℕ → Client S → Client S
  re_engage peer at c =
      let watermark : ℕ = delete_watermark peer c in
      if ltb 0 watermark && ltb watermark at then set_watermark peer at c else c

  abbrev pub edit_of : BaseEvent → Text → Text → Text → Edit
  edit_of b k editor s = record {
    target_id = k;
    editor_user_id = editor;
    new_text = s;
    edited_at = millis b.client_sent_at;
    original_sent_at = none;
  }

  abbrev pub deletion_of : BaseEvent → Text → Text → Deletion
  deletion_of b k deleter = record {
    target_id = k;
    deleter_user_id = deleter;
    deleted_at = millis b.client_sent_at;
  }

  -- The cases of the switch for the events that may also be echoed.
  unfoldable pub dispatch_echoable : Text → Text → SelfEchoableEvent → Client S → Client S
  unfolding store_text edit_row delete_row wipe_thread queue_received_ack on_read
      Messages.get_delete_watermark Messages.set_delete_watermark
  dispatch_echoable peer device (text b s r) c = queue_received_ack peer device b.id (
      store_text device (new_row b peer peer s r none) (re_engage peer (millis b.client_sent_at) c))
  dispatch_echoable peer device (edit b k s) c =
      queue_received_ack peer device b.id (edit_row peer peer (edit_of b k peer s) c)
  dispatch_echoable peer device (delete b k) c =
      queue_received_ack peer device b.id (delete_row peer peer (deletion_of b k peer) c)
  dispatch_echoable peer device (read b up_to_id) c =
      dispatch (read_receipt peer device up_to_id) (tracked env (on_read peer up_to_id) c)
  dispatch_echoable peer device (chat_delete_self b p) c = c
  dispatch_echoable peer device (chat_delete_all b) c =
      if leb (millis b.client_sent_at) (delete_watermark peer c)
      then queue_received_ack peer device b.id c
      else queue_received_ack peer device b.id
          (dispatch (deleted_by_peer peer) (wipe_thread peer (millis b.client_sent_at) c))

  -- The registration of an echoed message with the tracker, as far as the devices are known.
  unfoldable pub track_sibling : Text → Text → ℕ → ℕ → Client S → Client S
  unfolding get_peer_devices track_outbound sibling_envelopes
  track_sibling id original_peer now done c =
      let (devices, cache) = get_peer_devices env.http none original_peer now done c.peer_devices in
      let c' : Client S = record c { peer_devices = cache } in
      elim devices [
        | none ↦ c'
        | some ds ↦ tracked env (track_outbound id original_peer (sibling_envelopes id ds [])) c'
      ]

  -- The row that an echoed `read` names moves the watermark that was sent.
  unfoldable pub adopt_read : Text → Text → Client S → Client S
  unfolding Messages.get set_last_read_sent
  adopt_read original_peer up_to_id c =
      let (row, ms) = Messages.get env.kv env.codec up_to_id (history c) in
      let c' : Client S = with_history ms c in
      elim row [ none ↦ c' | some m ↦ set_last_read_sent env original_peer m.sent_at c' ]

  -- The cases of the inner switch: an event that an own device sent to `original_peer`.
  unfoldable pub dispatch_echo :
      Text → Text → Text → SelfEchoableEvent → ℕ → ℕ → Client S → Client S
  unfolding store_text edit_row delete_row wipe_thread track_sibling adopt_read on_read
      bump_read_watermark
  dispatch_echo self device original_peer (text b s r) now done c =
      track_sibling b.id original_peer now done
        (store_text device (new_row b original_peer self s r (some pending)) c)
  dispatch_echo self device original_peer (edit b k s) now done c =
      edit_row original_peer self (edit_of b k self s) c
  dispatch_echo self device original_peer (delete b k) now done c =
      delete_row original_peer self (deletion_of b k self) c
  dispatch_echo self device original_peer (read b up_to_id) now done c =
      adopt_read original_peer up_to_id (
        bump_read_watermark env original_peer up_to_id
          (tracked env (on_read original_peer up_to_id) c))
  dispatch_echo self device original_peer (chat_delete_self b p) now done c =
      dispatch (deleted_by_self p false) (wipe_thread p (millis b.client_sent_at) c)
  dispatch_echo self device original_peer (chat_delete_all b) now done c =
      dispatch (deleted_by_self original_peer true)
        (wipe_thread original_peer (millis b.client_sent_at) c)

  abbrev pub is_self : Text → Client S → Bool
  is_self peer c = elim c.self_user_id [ none ↦ false | some self ↦ peer == self ]

  -- The whole switch.
  unfoldable pub dispatch_event : Text → Text → ContentEvent → ℕ → ℕ → Client S → Client S
  unfolding dispatch_echoable dispatch_echo on_received
  dispatch_event peer device (echoable e) now done c = dispatch_echoable peer device e c
  dispatch_event peer device (received b ids) now done c =
      tracked env (on_received peer device ids) c
  dispatch_event peer device (typing b m) now done c =
      dispatch (Client.typing peer device (is_started m)) c
  dispatch_event peer device (app b ns payload) now done c =
      dispatch (app_event peer device ns payload b.id (millis b.client_sent_at)) c
  dispatch_event peer device (self_echo b original_peer e) now done c =
      if is_self peer c then dispatch_echo peer device original_peer e now done c else c

  -- `dispatchInboundEvent`: a blocked peer has at most a receipt.
  unfoldable pub dispatch_inbound_event : Text → Text → ContentEvent → ℕ → ℕ → Client S → Client S
  unfolding dispatch_event queue_received_ack JsSet.contains
  dispatch_inbound_event peer device event now done c =
      if JsSet.contains peer c.blocked_user_ids
      then (if is_content event then queue_received_ack peer device (event_id event) c else c)
      else dispatch_event peer device event now done c
