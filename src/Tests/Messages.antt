-- ===== src/Tests/Messages.antt =====
-- A thread of two messages: src/message_store.ts.
use secure_chat_client.Prelude.JsMap
use secure_chat_client.Prelude.{◌≡◌, ◌↔◌, true, none, some, [], lit, ◌==◌, if◌then◌else◌}
use secure_chat_client.Store.Memory.{MemoryKvStore, memory_kv, memory-IsLawful}
use secure_chat_client.Messages.{
  StoredMessage, MessageStore, Edit, Deletion, put, apply_edit, apply_delete, may_edit,
  list_for_peer, delete_for_peer,
}
use secure_chat_client.Messages.Rows.{stored, IsKeyed, put-IsKeyed}
use secure_chat_client.Messages.Edits.{
  IsChanged, MayEdit, apply_edit-IsChanged, apply_delete-IsChanged,
}
use secure_chat_client.Messages.Threads.{
  belongs, IsThread, list_for_peer-IsThread, delete_for_peer-stored,
}
use secure_chat_client.Tests.Samples.{codec, codec-IsFaithful}

abbrev pub empty_store : MessageStore MemoryKvStore
empty_store = record { cache = []; store = [] }

empty-IsKeyed : IsKeyed memory_kv codec empty_store
unfolding JsMap.lookup
empty-IsKeyed = record { cached = λ id m e. cc; keyed = λ id m e. cc }

abbrev pub question : StoredMessage
question = record {
  id = lit "m1";
  peer_user_id = lit "bob";
  sender_user_id = lit "bob";
  text = lit "when?";
  sent_at = 1000;
  edited_at = none;
  deleted_at = none;
  reply_to = none;
  status = none;
}

abbrev pub answer : StoredMessage
answer = record question {
  id = lit "m2";
  sender_user_id = lit "ann";
  text = lit "now";
  sent_at = 2000;
  reply_to = some (lit "m1");
}

abbrev pub thread : MessageStore MemoryKvStore
thread = put memory_kv codec answer (put memory_kv codec question empty_store)

pub thread-IsKeyed : IsKeyed memory_kv codec thread
thread-IsKeyed =
    put-IsKeyed memory_kv JsMap.lookup memory-IsLawful codec codec-IsFaithful answer
      (put memory_kv codec question empty_store)
      (put-IsKeyed memory_kv JsMap.lookup memory-IsLawful codec codec-IsFaithful question
        empty_store empty-IsKeyed)

abbrev correction : Edit
correction = record {
  target_id = lit "m1";
  editor_user_id = lit "bob";
  new_text = lit "where?";
  edited_at = 3000;
  original_sent_at = none;
}

abbrev removal : Deletion
removal = record { target_id = lit "m1"; deleter_user_id = lit "bob"; deleted_at = 4000 }

apply_edit-IsChanged_example :
    IsChanged memory_kv JsMap.lookup memory-IsLawful codec codec-IsFaithful
      (lit "m1")
      (may_edit correction)
      (λ m. record m { text = lit "where?"; edited_at = some 3000 })
      thread
      (apply_edit memory_kv codec correction thread)
    × ((m : StoredMessage) → (may_edit correction m ≡ true) ↔ MayEdit correction m)
apply_edit-IsChanged_example =
    apply_edit-IsChanged memory_kv JsMap.lookup memory-IsLawful codec codec-IsFaithful correction
      thread thread-IsKeyed

apply_delete-IsChanged_example :
    IsChanged memory_kv JsMap.lookup memory-IsLawful codec codec-IsFaithful
      (lit "m1")
      (λ m. m.sender_user_id == lit "bob")
      (λ m. record m { text = []; deleted_at = some 4000 })
      thread
      (apply_delete memory_kv codec removal thread)
apply_delete-IsChanged_example =
    apply_delete-IsChanged memory_kv JsMap.lookup memory-IsLawful codec codec-IsFaithful removal
      thread thread-IsKeyed

list_for_peer-IsThread_example :
    IsThread memory_kv codec
      (lit "bob")
      (record { limit = none; before_sent_at = some 1500 })
      thread
      (list_for_peer memory_kv codec
        (lit "bob")
        (record { limit = none; before_sent_at = some 1500 })
        thread)
list_for_peer-IsThread_example =
    list_for_peer-IsThread memory_kv JsMap.lookup memory-IsLawful codec (lit "bob") (some 1500)
      thread thread-IsKeyed

delete_for_peer-stored_example :
    stored memory_kv codec (lit "m1") (delete_for_peer memory_kv codec (lit "bob") thread).store ≡ (
      if belongs (lit "bob") none (stored memory_kv codec (lit "m1") thread.store)
      then none
      else stored memory_kv codec (lit "m1") thread.store)
delete_for_peer-stored_example =
    delete_for_peer-stored memory_kv JsMap.lookup memory-IsLawful codec codec-IsFaithful (lit "bob")
      thread (lit "m1") thread-IsKeyed
