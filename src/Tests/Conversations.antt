-- ===== src/Tests/Conversations.antt =====
-- A thread with two messages, one of them read: src/conversations.ts.
use secure_chat_client.Prelude.JsMap
use secure_chat_client.Prelude.{
  map, ◌≡◌, ◌≢◌, refl, arith, false, Option, none, some, [], ◌∷◌, Text, lit, ◌==◌,
}
use secure_chat_client.Store.Memory.{MemoryKvStore, memory_kv, memory-IsLawful}
use secure_chat_client.Conversations.{
  RowCodec, load, ConversationIndex, MessageStored, new_index, on_message_stored, list,
}
use secure_chat_client.Conversations.Watermarks.{IsAdvanced, on_message_stored-IsAdvanced}
use secure_chat_client.Conversations.Convergence.{store_row, store_row_comm}
use secure_chat_client.Conversations.Listing.{shown, with_message, list_lem}
use secure_chat_client.Prelude.Sort.{sort_desc, Descending}
use secure_chat_client.Tests.Messages.{thread, thread-IsKeyed}
use secure_chat_client.Tests.Samples.{codec}

abbrev pub rows : RowCodec
rows = record {
  stringify = λ r. r.last_message_at ∷ r.last_read_from_peer_at ∷ [];
  parse = λ s. none;
}

abbrev self : Option Text
self = some (lit "ann")

abbrev incoming : MessageStored
incoming = record {
  peer_user_id = lit "bob";
  sender_user_id = lit "bob";
  message_id = lit "m1";
  sent_at = 1000;
}

abbrev outgoing : MessageStored
outgoing = record incoming { sender_user_id = lit "ann"; message_id = lit "m22"; sent_at = 2000 }

abbrev start : ConversationIndex MemoryKvStore
start = new_index memory_kv rows []

abbrev one : ConversationIndex MemoryKvStore
one = (on_message_stored memory_kv rows self incoming start).1

on_message_stored-IsAdvanced_example :
    IsAdvanced memory_kv rows self outgoing one
      (on_message_stored memory_kv rows self outgoing one).1
on_message_stored-IsAdvanced_example = on_message_stored-IsAdvanced memory_kv rows self outgoing one

distinct_ids : (incoming.message_id == outgoing.message_id) ≡ false
unfolding ◌==◌
distinct_ids = refl

distinct_times : incoming.sent_at ≢ outgoing.sent_at
distinct_times e = absurd (omega arith)

store_row_comm_example :
    store_row self (store_row self none incoming) outgoing
    ≡ store_row self (store_row self none outgoing) incoming
store_row_comm_example =
    store_row_comm self none incoming outgoing refl distinct_ids distinct_times refl refl

list_lem_example :
    ((list memory_kv codec rows self one thread).0
      ≡ sort_desc
          (λ x. x.last_message_at)
          (map
            (shown memory_kv codec self thread.store)
            (with_message (JsMap.values (load memory_kv rows one).cache))))
    × Descending (λ x. x.last_message_at) (list memory_kv codec rows self one thread).0
    × ((list memory_kv codec rows self one thread).1.1.store ≡ thread.store)
list_lem_example =
    list_lem memory_kv JsMap.lookup memory-IsLawful codec rows self one thread thread-IsKeyed
