-- ===== src/Client/Texts.antt =====
-- Texts and app events: src/index.ts, `sendText`, `retrySend` and `sendAppEvent`.
use secure_chat_client.Client.{
  Client, status_change, dispatch, history, with_history, bump_conversation,
}
use secure_chat_client.Client.Calls.{Outcome, done, not_sent, at_ms, draw, lookup_row, as_self}
use secure_chat_client.Client.Outgoing.{
  SendEnv, SendTimes, SendOptions, Sender, Sending, shipped, update_client, send_content,
  echo_to_self,
}
use secure_chat_client.Content.{Json, SelfEchoableEvent, echoable}
use secure_chat_client.Content.Factories.{new_text, new_app}
use secure_chat_client.Messages
use secure_chat_client.Messages.{StoredMessage}
use secure_chat_client.Prelude.{
  ℕ, Bool, true, false, not, Option, none, some, Text, ◌==◌, is_empty, is_some, ltb, if◌then◌else◌,
}
use secure_chat_client.Status.{MessageStatus, pending, failed, same_status}
use secure_chat_client.Typing.{TypingManager, clear_on_send}

-- `{ ephemeral: false }`
abbrev pub durable : SendOptions
durable = record { ephemeral = false; notify_push = true }

-- How a second attempt ends; all but the first and the last are errors of the call itself.
pub data Retry : Type 0 where
  retried : Retry
  not_connected : Retry
  unknown_message : Retry
  foreign_message : Retry
  deleted_message : Retry
  not_failed : Retry
  retry_not_sent : Sending → Retry

abbrev pub has_failed : Option MessageStatus → Bool
has_failed none = false
has_failed (some s) = same_status s failed

module _ {S K : Type 0} (se : SendEnv S K) where
  abbrev pub own_row : Text → Text → Text → Option Text → ℕ → Text → StoredMessage
  own_row peer id s reply_to now self = record {
    id = id;
    peer_user_id = peer;
    sender_user_id = self;
    text = s;
    sent_at = now;
    edited_at = none;
    deleted_at = none;
    reply_to = reply_to;
    status = some pending;
  }

  -- A conversation that was wiped begins anew: its mark moves to the time of the text.
  unfoldable pub begin_anew : Text → ℕ → Client S → Client S
  unfolding Messages.get_delete_watermark Messages.set_delete_watermark
  begin_anew peer now c =
      let mark : ℕ =
        Messages.get_delete_watermark se.inbound.env.kv se.inbound.env.codec peer (history c) in
      if ltb 0 mark
      then with_history
          (Messages.set_delete_watermark se.inbound.env.kv se.inbound.env.codec peer now
            (history c))
          c
      else c

  -- The row is stored before anything is sent.
  unfoldable pub keep_row : StoredMessage → Client S → Client S
  unfolding Messages.put bump_conversation
  keep_row m c =
      bump_conversation se.inbound.env
        (record {
          peer_user_id = m.peer_user_id;
          sender_user_id = m.sender_user_id;
          message_id = m.id;
          sent_at = m.sent_at;
        })
        (with_history (Messages.put se.inbound.env.kv se.inbound.env.codec m (history c)) c)

  -- The row takes the status, and the listeners hear of it.
  unfoldable pub put_status : MessageStatus → Text → StoredMessage → Client S → Client S
  unfolding Messages.put
  put_status status peer m c = dispatch (status_change peer m.id status) (
      with_history
        (Messages.put se.inbound.env.kv se.inbound.env.codec (record m { status = some status })
          (history c))
        c)

  unfoldable pub mark_failed : Text → Text → Client S → Client S
  unfolding Messages.get put_status
  mark_failed peer id c =
      let (row, ms) = Messages.get se.inbound.env.kv se.inbound.env.codec id (history c) in
      elim row [ none ↦ with_history ms c | some m ↦ put_status failed peer m (with_history ms c) ]

  -- `sendText`: the mark, the own row, the wire, the siblings, the typing indicator. An error of
  -- the wire turns the row into a failed one and ends the call.
  unfoldable pub send_text :
      Text
      → Text
      → Option Text
      → ℕ
      → SendTimes
      → TypingManager
      → Sender S K
      → Outcome × (Sender S K × TypingManager)
  unfolding begin_anew keep_row send_content mark_failed echo_to_self clear_on_send
  send_text peer s reply_to now t typing x =
      let (id, x1) = draw se x in
      let event : SelfEchoableEvent = new_text id (at_ms now) s reply_to in
      let x2 : Sender S K =
        as_self se (λ self. keep_row (own_row peer id s reply_to now self))
          (update_client se (begin_anew peer now) x1) in
      let (out, x3) = send_content se peer (echoable event) durable t x2 in
      let x4 : Sender S K = echo_to_self se peer event (at_ms now) t x3 in
      elim out [
        | shipped ↦ (done id, (x4, clear_on_send peer now typing))
        | other ↦ (not_sent other, (as_self se (λ self. mark_failed peer id) x3, typing))
      ]

  -- The text of the row goes out under the id and the time that it has.
  unfoldable pub send_again : StoredMessage → ℕ → SendTimes → Sender S K → Retry × Sender S K
  unfolding put_status send_content echo_to_self
  send_again m now t x =
      let event : SelfEchoableEvent = new_text m.id (at_ms m.sent_at) m.text m.reply_to in
      let x1 : Sender S K = update_client se (put_status pending m.peer_user_id m) x in
      let (out, x2) = send_content se m.peer_user_id (echoable event) durable t x1 in
      let x3 : Sender S K = echo_to_self se m.peer_user_id event (at_ms now) t x2 in
      elim out [ shipped ↦ (retried, x3) | other ↦ (retry_not_sent other, x2) ]

  -- `retrySend`
  unfoldable pub retry_send : Text → ℕ → SendTimes → Sender S K → Retry × Sender S K
  unfolding Messages.get send_again
  retry_send id now t x = elim x.receiver.client.self_user_id [
    | none ↦ (not_connected, x)
    | some self ↦
        if is_empty self
        then (not_connected, x)
        else let (row, x1) = lookup_row se id x in
          elim row [
            | none ↦ (unknown_message, x1)
            | some m ↦
                if not (m.sender_user_id == self)
                then (foreign_message, x1)
                else if is_some m.deleted_at
                then (deleted_message, x1)
                else if not (has_failed m.status)
                then (not_failed, x1)
                else send_again m now t x1
          ]
  ]

  -- `sendAppEvent`; a missing `ephemeral` is false.
  unfoldable pub send_app_event :
      Text → Text → Json → Bool → ℕ → SendTimes → Sender S K → Outcome × Sender S K
  unfolding send_content
  send_app_event peer ns payload ephemeral now t x =
      let (id, x1) = draw se x in
      let (out, x2) =
        send_content se peer (new_app id (at_ms now) ns payload)
          (record { ephemeral = ephemeral; notify_push = false }) t x1 in
      elim out [ shipped ↦ (done id, x2) | other ↦ (not_sent other, x2) ]
