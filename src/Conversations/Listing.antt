-- ===== src/Conversations/Listing.antt =====
-- The list of conversations without its caches: src/conversations.ts, `list`.
use secure_chat_client.Prelude.JsMap
use secure_chat_client.Prelude.Sort.{Descending, sort_by, sort_desc, sort_desc-Descending}
use secure_chat_client.Prelude.{
  ℕ, ◌≡◌, ◌||◌, ◌==◌, is_some, leb, length, arith, refl, ap, ◌∙◌, Option, none, some, List, [], ◌∷◌,
  map, Text, is_empty, if◌then◌else◌, inl, inr, Bool-cases, Option-cases, drop,
}
use secure_chat_client.Conversations.{
  RowCodec, load, ConvIndexRow, Snapshot, Conversation, ConversationIndex, count_unread,
  snapshot_of, list_row, list_rows, list, unread_of,
}
use secure_chat_client.Messages.{
  StoredMessage, Codec, MessageStore, whole, messages_prefix, list_for_peer, last_page, collect,
}
use secure_chat_client.Messages
use secure_chat_client.Messages.Rows.{stored, IsKeyed, IsFetched, get-IsFetched}
use secure_chat_client.Messages.Collect.{rows_of, collect-IsCollected}
use secure_chat_client.Messages.Threads.{IsThread, list_for_peer-IsThread, all_start}
use secure_chat_client.Store.{Stored, KvOps, IsLawful}

-- The messages that the user has not read: from somebody else, not deleted, and newer than the mark.
unfoldable pub unread_messages : Text → ℕ → List StoredMessage → List StoredMessage
unread_messages self mark [] = []
unread_messages self mark (m ∷ ms) =
    let rest = unread_messages self mark ms in
    if (m.sender_user_id == self) || (is_some m.deleted_at || leb m.sent_at mark)
    then rest
    else m ∷ rest

count_unread-length :
    (self : Text) (mark : ℕ) (ms : List StoredMessage)
    → count_unread self mark ms ≡ length (unread_messages self mark ms)
unfolding count_unread unread_messages
count_unread-length self mark [] = refl
count_unread-length self mark (m ∷ ms) = ground (arith, count_unread-length self mark ms)

-- A message is shown without its time and its answer.
abbrev pub shown_message : Option StoredMessage → Option Snapshot
shown_message none = none
shown_message (some m) = some (record {
  id = m.id;
  sender_user_id = m.sender_user_id;
  text = m.text;
  edited_at = m.edited_at;
  deleted_at = m.deleted_at;
  status = m.status;
})

snapshot_of-shown : (row : Option StoredMessage) → snapshot_of row ≡ shown_message row
snapshot_of-shown none = refl
snapshot_of-shown (some m) = refl

module _ {S : Type 0} (kv : KvOps S) (codec : Codec) where
  -- The messages of the peer under the keys.
  unfoldable pub from_peer : Text → List Text → S → List StoredMessage
  from_peer peer [] s = []
  from_peer peer (key ∷ keys) s =
      let rest = from_peer peer keys s in
      elim (stored kv codec (drop (length messages_prefix) key) s) [
        | none ↦ rest
        | some m ↦ if m.peer_user_id == peer then m ∷ rest else rest
      ]

  rows_of-from_peer :
      (peer : Text) (keys : List Text) (s : S)
      → rows_of kv codec peer whole keys s ≡ from_peer peer keys s
  unfolding rows_of from_peer
  rows_of-from_peer peer [] s = refl
  rows_of-from_peer peer (key ∷ keys) s =
      let rest : rows_of kv codec peer whole keys s ≡ from_peer peer keys s =
        rows_of-from_peer peer keys s in
      elim (Option-cases (stored kv codec (drop (length messages_prefix) key) s)) [
        | inl gone ↦ rw (from_peer, gone) rest
        | inr (m, there) ↦ elim (Bool-cases (m.peer_user_id == peer)) [
          | inl named ↦ rw (from_peer, there, named) (ap (λ l. m ∷ l) rest)
          | inr other ↦ rw (from_peer, there, other) rest
        ]
      ]

  -- The thread of a peer, read from the storage.
  abbrev pub thread : Text → S → List StoredMessage
  thread peer s = sort_by (λ m. m.sent_at) (from_peer peer (kv.list_keys messages_prefix s) s)

  abbrev pub unread : Option Text → ConvIndexRow → S → ℕ
  unread none r s = 0
  unread (some self) r s =
      if is_empty self
      then 0
      else length (unread_messages self r.last_read_from_peer_at (thread r.peer_user_id s))

  -- What the list shows of a row, read from the storage.
  abbrev pub shown : Option Text → S → ConvIndexRow → Conversation
  shown self s r = record {
    peer_user_id = r.peer_user_id;
    last_message_at = r.last_message_at;
    last_message = shown_message (stored kv codec r.last_message_id s);
    unread_count = unread self r s;
  }

-- The rows that have a message.
unfoldable pub with_message : List ConvIndexRow → List ConvIndexRow
with_message [] = []
with_message (r ∷ rs) =
    let rest = with_message rs in if is_empty r.last_message_id then rest else r ∷ rest

module _ {S : Type 0} (kv : KvOps S) (at : Text → S → Option Stored) (l : IsLawful kv at)
    (codec : Codec) where
  list_for_peer-thread :
      (peer : Text) (ms : MessageStore S)
      → IsKeyed kv codec ms
      → (list_for_peer kv codec peer whole ms).0 ≡ thread kv codec peer ms.store
  unfolding list_for_peer last_page
  list_for_peer-thread peer ms h =
      ap (sort_by (λ m. m.sent_at))
        (collect-IsCollected kv codec peer whole (kv.list_keys messages_prefix ms.store) ms
          (all_start kv at l codec ms.store) h).out
      ∙ ap (sort_by (λ m. m.sent_at))
          (rows_of-from_peer kv codec peer (kv.list_keys messages_prefix ms.store) ms.store)

  -- The value, and a store that shows the same rows.
  record Reads {A : Type 0} (ms : MessageStore S) (value : A) (r : A × MessageStore S)
      : Type 0 where
    result : r.0 ≡ value
    same_store : r.1.store ≡ ms.store
    still_keyed : IsKeyed kv codec r.1

  unread_of-Reads :
      (self : Option Text) (r : ConvIndexRow) (ms : MessageStore S)
      → IsKeyed kv codec ms
      → Reads ms (unread kv codec self r ms.store) (unread_of kv codec self r ms)
  unfolding unread_of
  unread_of-Reads none r ms h = record { result = refl; same_store = refl; still_keyed = h }
  unread_of-Reads (some self) r ms h =
      let t : IsThread kv codec r.peer_user_id whole ms
          (list_for_peer kv codec r.peer_user_id whole ms) =
        list_for_peer-IsThread kv at l codec r.peer_user_id none ms h in
      elim (Bool-cases (is_empty self)) [
        | inl nobody ↦
            rw (nobody, unread_of) (record { result = refl; same_store = refl; still_keyed = h })
        | inr named ↦
            rw (named, unread_of)
              (record {
                result =
                    ap (count_unread self r.last_read_from_peer_at)
                      (list_for_peer-thread r.peer_user_id ms h)
                    ∙ count_unread-length self r.last_read_from_peer_at
                        (thread kv codec r.peer_user_id ms.store);
                same_store = t.same_store;
                still_keyed = t.still_keyed;
              })
      ]

  list_row-Reads :
      (self : Option Text) (r : ConvIndexRow) (ms : MessageStore S)
      → IsKeyed kv codec ms
      → Reads ms (shown kv codec self ms.store r) (list_row kv codec self r ms)
  unfolding list_row
  list_row-Reads self r ms h =
      let g : IsFetched kv codec r.last_message_id ms (Messages.get kv codec r.last_message_id ms) =
        get-IsFetched kv codec r.last_message_id ms h in
      let ms' : MessageStore S = (Messages.get kv codec r.last_message_id ms).1 in
      let u : Reads ms' (unread kv codec self r ms'.store) (unread_of kv codec self r ms') =
        unread_of-Reads self r ms' g.still_keyed in
      record {
        result =
            rw
              (
                g.row,
                u.result,
                g.same_store,
                snapshot_of-shown (stored kv codec r.last_message_id ms.store),
              )
              refl;
        same_store = u.same_store ∙ g.same_store;
        still_keyed = u.still_keyed;
      }

  list_rows-Reads :
      (self : Option Text) (rs : List ConvIndexRow) (ms : MessageStore S)
      → IsKeyed kv codec ms
      → Reads ms
          (map (shown kv codec self ms.store) (with_message rs))
          (list_rows kv codec self rs ms)
  unfolding list_rows with_message
  list_rows-Reads self [] ms h = record { result = refl; same_store = refl; still_keyed = h }
  list_rows-Reads self (r ∷ rs) ms h = elim (Bool-cases (is_empty r.last_message_id)) [
    | inl blank ↦ rw (blank, list_rows, with_message) (list_rows-Reads self rs ms h)
    | inr filled ↦
        let first : Reads ms (shown kv codec self ms.store r) (list_row kv codec self r ms) =
          list_row-Reads self r ms h in
        let ms' : MessageStore S = (list_row kv codec self r ms).1 in
        let rest : Reads ms' (map (shown kv codec self ms'.store) (with_message rs))
            (list_rows kv codec self rs ms') =
          list_rows-Reads self rs ms' first.still_keyed in
        rw (filled, list_rows, with_message)
          (record {
            result = rw (first.result, rest.result, first.same_store) refl;
            same_store = rest.same_store ∙ first.same_store;
            still_keyed = rest.still_keyed;
          })
  ]

  -- Over a lawful store whose rows are keyed by their ids, with a cache of messages that holds
  -- nothing else than the store: `list` gives, for each row that has a message of the index, which
  -- is loaded if it was not, and for no other, the latest message as it is stored and the number of the stored messages of
  -- the peer that are from somebody else than the user, not deleted, and newer than the read mark
  -- of the row (zero for an unknown user), in descending order of the latest activity; and it
  -- changes nothing that is stored.
  pub list_lem :
      (rows : RowCodec) (self : Option Text) (c : ConversationIndex S) (ms : MessageStore S)
      → IsKeyed kv codec ms
      → ((list kv codec rows self c ms).0
          ≡ sort_desc
              (λ x. x.last_message_at)
              (map
                (shown kv codec self ms.store)
                (with_message (JsMap.values (load kv rows c).cache))))
        × Descending (λ x. x.last_message_at) (list kv codec rows self c ms).0
        × ((list kv codec rows self c ms).1.1.store ≡ ms.store)
  unfolding list load
  list_lem rows self c ms h =
      let r : Reads ms
          (map (shown kv codec self ms.store) (with_message (JsMap.values (load kv rows c).cache)))
          (list_rows kv codec self (JsMap.values (load kv rows c).cache) ms) =
        list_rows-Reads self (JsMap.values (load kv rows c).cache) ms h in
      (
        ap (sort_desc (λ x. x.last_message_at)) r.result,
        sort_desc-Descending (λ x. x.last_message_at)
            (list_rows kv codec self (JsMap.values (load kv rows c).cache) ms).0,
        r.same_store,
      )

  pub list-IsKeyed :
      (rows : RowCodec) (self : Option Text) (c : ConversationIndex S) (ms : MessageStore S)
      → IsKeyed kv codec ms
      → IsKeyed kv codec (list kv codec rows self c ms).1.1
  unfolding list load
  list-IsKeyed rows self c ms h =
      (list_rows-Reads self (JsMap.values (load kv rows c).cache) ms h).still_keyed
