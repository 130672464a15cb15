-- ===== src/Content/Factories.antt =====
-- The factories of the send paths: src/content/protocol.ts, `newText` to `newSelfEcho`. The new id
-- of `generateUUID()` and the time of `Date.now()` are arguments.
use secure_chat_client.Prelude.{◌≡◌, refl, true, false, Option, List, Text, is_empty, is_some}
use secure_chat_client.Content.{
  Number, Json, JsonText, BaseEvent, TypingMark, SelfEchoableEvent, text, edit, delete, read,
  chat_delete_self, chat_delete_all, ContentEvent, echoable, received, typing, self_echo, app,
  encode_event,
}

module _ (id : Text) (now : Number) where
  abbrev pub new_base : BaseEvent
  new_base = record { v = 1; id = id; client_sent_at = now }

  abbrev pub new_text : Text → Option Text → SelfEchoableEvent
  new_text s reply_to = text new_base s reply_to

  abbrev pub new_edit : Text → Text → SelfEchoableEvent
  new_edit target_id s = edit new_base target_id s

  abbrev pub new_delete : Text → SelfEchoableEvent
  new_delete target_id = delete new_base target_id

  abbrev pub new_read : Text → SelfEchoableEvent
  new_read up_to_id = read new_base up_to_id

  abbrev pub new_received : List Text → ContentEvent
  new_received ids = received new_base ids

  abbrev pub new_typing : TypingMark → ContentEvent
  new_typing state = typing new_base state

  abbrev pub new_chat_delete_self : Text → SelfEchoableEvent
  new_chat_delete_self peer = chat_delete_self new_base peer

  abbrev pub new_chat_delete_all : SelfEchoableEvent
  new_chat_delete_all = chat_delete_all new_base

  abbrev pub new_app : Text → Json → ContentEvent
  new_app ns payload = app new_base ns payload

  abbrev pub new_self_echo : Text → SelfEchoableEvent → ContentEvent
  new_self_echo original_peer original = self_echo new_base original_peer original

-- The event of a factory, by the factory and its arguments.
data Composed (id : Text) (now : Number) : ContentEvent → Type 0 where
  by_text : (s : Text) (r : Option Text) → Composed id now (echoable (new_text id now s r))
  by_edit : (k s : Text) → Composed id now (echoable (new_edit id now k s))
  by_delete : (k : Text) → Composed id now (echoable (new_delete id now k))
  by_read : (k : Text) → Composed id now (echoable (new_read id now k))
  by_received : (l : List Text) → Composed id now (new_received id now l)
  by_typing : (m : TypingMark) → Composed id now (new_typing id now m)
  by_chat_delete_self : (p : Text) → Composed id now (echoable (new_chat_delete_self id now p))
  by_chat_delete_all : Composed id now (echoable (new_chat_delete_all id now))
  by_app : (ns : Text) (p : Json) → Composed id now (new_app id now ns p)
  by_self_echo : (p : Text) (e : SelfEchoableEvent) → Composed id now (new_self_echo id now p e)

-- `encodeEvent` never throws on the event of a factory that was given an id that is not empty.
encode_event-Composed :
    (json : JsonText) (id : Text) (now : Number) (e : ContentEvent)
    → is_empty id ≡ false
    → Composed id now e
    → is_some (encode_event json e) ≡ true
unfolding encode_event
encode_event-Composed json id now _ h (by_text s r) = rw h refl
encode_event-Composed json id now _ h (by_edit k s) = rw h refl
encode_event-Composed json id now _ h (by_delete k) = rw h refl
encode_event-Composed json id now _ h (by_read k) = rw h refl
encode_event-Composed json id now _ h (by_received l) = rw h refl
encode_event-Composed json id now _ h (by_typing m) = rw h refl
encode_event-Composed json id now _ h (by_chat_delete_self p) = rw h refl
encode_event-Composed json id now _ h by_chat_delete_all = rw h refl
encode_event-Composed json id now _ h (by_app ns p) = rw h refl
encode_event-Composed json id now _ h (by_self_echo p e) = rw h refl
