-- ===== src/Client/Calls.antt =====
-- The calls of the user that send: src/index.ts, `editMessage`, `deleteMessage`, `markRead`,
-- `deleteConversationForMe` and `deleteConversationForEveryone`.
use secure_chat_client.Client.{
  Client, deleted_by_self, dispatch, history, with_history, index, with_index, bump_read_watermark,
  get_last_read_sent, set_last_read_sent, emit_conversations_changed,
}
use secure_chat_client.Client.Dispatch.{set_watermark, wipe_thread}
use secure_chat_client.Client.Outgoing.{
  SendEnv, SendTimes, Sender, Sending, shipped, silent, update_client, send_content, echo_to_self,
}
use secure_chat_client.Client.Preferences.{are_read_receipts_enabled}
use secure_chat_client.Content.{Number, SelfEchoableEvent, echoable, edit_window_ms}
use secure_chat_client.Content.Factories.{
  new_edit, new_delete, new_read, new_chat_delete_self, new_chat_delete_all,
}
use secure_chat_client.Conversations
use secure_chat_client.Messages
use secure_chat_client.Messages.{StoredMessage, Edit, Deletion}
use secure_chat_client.Prelude.{
  ℕ, ◌+◌, Bool, true, false, not, Option, none, some, [], ◌∷◌, Text, ◌==◌, is_empty, leb, ltb,
  if◌then◌else◌,
}

-- How a call ends: with the id of the event, or with an error of its code.
pub data Outcome : Type 0 where
  done : Text → Outcome
  not_found : Outcome
  not_authorized : Outcome
  edit_window_expired : Outcome
  not_sent : Sending → Outcome

-- The time of an event that is made at a whole millisecond.
abbrev pub at_ms : ℕ → Number
at_ms now = record { negative = false; mantissa = now; scale = 0 }

module _ {S K : Type 0} (se : SendEnv S K) where
  abbrev pub draw : Sender S K → Text × Sender S K
  draw s = (se.generate_uuid s.drawn, record s { drawn = s.drawn + 1 })

  abbrev pub lookup_row : Text → Sender S K → Option StoredMessage × Sender S K
  lookup_row id s =
      let (row, ms) =
        Messages.get se.inbound.env.kv se.inbound.env.codec id (history s.receiver.client) in
      (row, update_client se (with_history ms) s)

  -- `selfUserId === null || senderUserId !== selfUserId`
  abbrev pub is_foreign : StoredMessage → Sender S K → Bool
  is_foreign m s = elim s.receiver.client.self_user_id [
    | none ↦ true
    | some self ↦ not (m.sender_user_id == self)
  ]

  -- `if (this.selfUserId)`
  abbrev pub as_self : (Text → Client S → Client S) → Sender S K → Sender S K
  as_self f s = elim s.receiver.client.self_user_id [
    | none ↦ s
    | some self ↦ if is_empty self then s else update_client se (f self) s
  ]

  abbrev pub apply_own_edit : Text → Text → ℕ → ℕ → Text → Client S → Client S
  apply_own_edit target_id new_text edited_at original_sent_at self c =
      with_history
        (Messages.apply_edit se.inbound.env.kv se.inbound.env.codec
          (record {
            target_id = target_id;
            editor_user_id = self;
            new_text = new_text;
            edited_at = edited_at;
            original_sent_at = some original_sent_at;
          })
          (history c)).1
        c

  abbrev pub apply_own_delete : Text → ℕ → Text → Client S → Client S
  apply_own_delete target_id deleted_at self c =
      with_history
        (Messages.apply_delete se.inbound.env.kv se.inbound.env.codec
          (record { target_id = target_id; deleter_user_id = self; deleted_at = deleted_at })
          (history c)).1
        c

  -- The wire, then the own row, then the siblings; an error of the wire ends the call.
  unfoldable pub send_then :
      Text
      → SelfEchoableEvent
      → Text
      → ℕ
      → SendTimes
      → (Sender S K → Sender S K)
      → Sender S K
      → Outcome × Sender S K
  unfolding send_content echo_to_self
  send_then peer event id now t applied s =
      let (out, s1) = send_content se peer (echoable event) silent t s in
      let s2 : Sender S K = echo_to_self se peer event (at_ms now) t (applied s1) in
      elim out [ shipped ↦ (done id, s2) | other ↦ (not_sent other, s1) ]

  unfoldable pub edit_message :
      Text → Text → Text → ℕ → SendTimes → Sender S K → Outcome × Sender S K
  unfolding Messages.get Messages.apply_edit send_then
  edit_message peer target_id new_text now t s =
      let (original, s1) = lookup_row target_id s in
      elim original [
        | none ↦ (not_found, s1)
        | some m ↦
            if is_foreign m s1
            then (not_authorized, s1)
            else if ltb (m.sent_at + edit_window_ms) now
            then (edit_window_expired, s1)
            else let (id, s2) = draw s1 in
              send_then peer (new_edit id (at_ms now) target_id new_text) id now t
                (as_self (apply_own_edit target_id new_text now m.sent_at)) s2
      ]

  unfoldable pub delete_message : Text → Text → ℕ → SendTimes → Sender S K → Outcome × Sender S K
  unfolding Messages.get Messages.apply_delete send_then
  delete_message peer target_id now t s =
      let (original, s1) = lookup_row target_id s in
      elim original [
        | none ↦ (not_found, s1)
        | some m ↦
            if is_foreign m s1
            then (not_authorized, s1)
            else let (id, s2) = draw s1 in
              send_then peer (new_delete id (at_ms now) target_id) id now t
                (as_self (apply_own_delete target_id now)) s2
      ]

  -- The part of `markRead` that sends.
  unfoldable pub send_read : Text → Text → ℕ → ℕ → SendTimes → Sender S K → Outcome × Sender S K
  unfolding send_content echo_to_self set_last_read_sent
  send_read peer up_to_id sent_at now t s =
      let (id, s1) = draw s in
      let event : SelfEchoableEvent = new_read id (at_ms now) up_to_id in
      let (out, s2) = send_content se peer (echoable event) silent t s1 in
      let s3 : Sender S K = echo_to_self se peer event (at_ms now) t s2 in
      elim out [
        | shipped ↦ (done id, update_client se (set_last_read_sent se.inbound.env peer sent_at) s3)
        | other ↦ (not_sent other, s2)
      ]

  -- `markRead`; the first argument is the cached setting of the read receipts, and `done []` says
  -- that nothing was to be sent.
  unfoldable pub mark_read :
      Option Bool → Text → Text → ℕ → SendTimes → Sender S K → Outcome × Sender S K
  unfolding bump_read_watermark are_read_receipts_enabled Messages.get get_last_read_sent send_read
  mark_read cached peer up_to_id now t s =
      let s1 : Sender S K = update_client se (bump_read_watermark se.inbound.env peer up_to_id) s in
      if not (are_read_receipts_enabled se.inbound.env.kv cached s1.receiver.client.store)
      then (done [], s1)
      else let (target, s2) = lookup_row up_to_id s1 in
        elim target [
          | none ↦ (done [], s2)
          | some m ↦ elim (get_last_read_sent se.inbound.env peer s2.receiver.client) [
            | none ↦ send_read peer up_to_id m.sent_at now t s2
            | some last ↦
                if leb m.sent_at last
                then (done [], s2)
                else send_read peer up_to_id m.sent_at now t s2
          ]
        ]

  abbrev pub remove_thread : Text → Client S → Client S
  remove_thread peer c =
      let c1 : Client S =
        with_history
          (Messages.delete_for_peer se.inbound.env.kv se.inbound.env.codec peer (history c)) c in
      with_index (Conversations.delete se.inbound.env.kv se.inbound.env.rows peer (index c1)) c1

  -- `deleteConversationForMe`; `now` is also the time of its event.
  unfoldable pub delete_conversation_for_me : Text → ℕ → SendTimes → Sender S K → Sender S K
  unfolding Messages.delete_for_peer Conversations.delete Messages.set_delete_watermark
      emit_conversations_changed echo_to_self
  delete_conversation_for_me peer now t s =
      let s1 : Sender S K =
        update_client se (λ c. set_watermark se.inbound.env peer now (remove_thread peer c)) s in
      let known : Bool = elim s1.receiver.client.self_user_id [
        | none ↦ false
        | some self ↦ not (is_empty self)
      ] in
      let (id, s2) = draw s1 in
      let echoed : Sender S K =
        echo_to_self se peer (new_chat_delete_self id (at_ms now) peer) (at_ms now) t s2 in
      update_client se
        (λ c.
          dispatch (deleted_by_self peer false)
            (emit_conversations_changed se.inbound.env (peer ∷ []) c))
        (if known then echoed else s1)

  -- `deleteConversationForEveryone`: the own thread goes first, whatever the wire does.
  unfoldable pub delete_conversation_for_everyone :
      Text → ℕ → SendTimes → Sender S K → Outcome × Sender S K
  unfolding wipe_thread send_content echo_to_self
  delete_conversation_for_everyone peer now t s =
      let (id, s1) = draw s in
      let event : SelfEchoableEvent = new_chat_delete_all id (at_ms now) in
      let s2 : Sender S K =
        update_client se
          (λ c. dispatch (deleted_by_self peer true) (wipe_thread se.inbound.env peer now c)) s1 in
      let (out, s3) = send_content se peer (echoable event) silent t s2 in
      let s4 : Sender S K = echo_to_self se peer event (at_ms now) t s3 in
      (elim out [ shipped ↦ done id | other ↦ not_sent other ], s4)
