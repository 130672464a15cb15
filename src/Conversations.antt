-- ===== src/Conversations.antt =====
-- The list of conversations: src/conversations.ts, class `ConversationIndex`.
-- The calls are awaited one after the other. `JSON.stringify` and `JSON.parse` of a row are the
-- record `RowCodec` (`parse` is `none` for malformed text or a row whose `peerUserId` is no string).
pub mod Watermarks
pub mod Convergence
pub mod Unread
pub mod Listing
use secure_chat_client.Prelude.JsMap
use secure_chat_client.Prelude.JsMap.{JsMap}
use secure_chat_client.Prelude.Sort.{sort_desc}
use secure_chat_client.Prelude.{
  ℕ, suc, ◌+◌, Bool, true, false, not, ◌&&◌, ◌||◌, Option, none, some, List, [], ◌∷◌, ◌++◌, Text,
  lit, ◌==◌, is_empty, is_some, eqb, ltb, leb, length, if◌then◌else◌,
}
use secure_chat_client.Messages.{StoredMessage, Codec, MessageStore, whole}
use secure_chat_client.Messages
use secure_chat_client.Status.{MessageStatus}
use secure_chat_client.Store.{KvOps}

pub record ConvIndexRow : Type 0 where
  pub peer_user_id : Text
  pub last_message_at : ℕ
  pub last_message_id : Text
  pub last_read_from_peer_at : ℕ

pub record RowCodec : Type 0 where
  pub stringify : ConvIndexRow → Text
  pub parse : Text → Option ConvIndexRow

pub record Snapshot : Type 0 where
  pub id : Text
  pub sender_user_id : Text
  pub text : Text
  pub edited_at : Option ℕ
  pub deleted_at : Option ℕ
  pub status : Option MessageStatus

pub record Conversation : Type 0 where
  pub peer_user_id : Text
  pub last_message_at : ℕ
  pub last_message : Option Snapshot
  pub unread_count : ℕ

pub record ConversationIndex (S : Type 0) : Type 0 where
  pub cache : JsMap ConvIndexRow
  pub loaded : Bool
  pub store : S

-- The argument of `onMessageStored`.
pub record MessageStored : Type 0 where
  pub peer_user_id : Text
  pub sender_user_id : Text
  pub message_id : Text
  pub sent_at : ℕ

abbrev pub key_prefix : Text
key_prefix = lit "convindex/"

abbrev pub kv_key : Text → Text
kv_key peer = key_prefix ++ peer

abbrev pub is_self : Option Text → Text → Bool
is_self none sender = false
is_self (some self) sender = sender == self

abbrev pub max : ℕ → ℕ → ℕ
max a b = if leb a b then b else a

abbrev pub first_row : Bool → MessageStored → ConvIndexRow
first_row self_authored m = record {
  peer_user_id = m.peer_user_id;
  last_message_at = m.sent_at;
  last_message_id = m.message_id;
  last_read_from_peer_at = if self_authored then m.sent_at else 0;
}

abbrev pub late_row : Bool → ConvIndexRow → MessageStored → Option ConvIndexRow
late_row self_authored r m =
    if self_authored && ltb r.last_read_from_peer_at m.sent_at
    then some (record r { last_read_from_peer_at = m.sent_at })
    else none

abbrev pub newer_row : Bool → ConvIndexRow → MessageStored → ConvIndexRow
newer_row self_authored r m = record r {
  last_message_at = m.sent_at;
  last_message_id = m.message_id;
  last_read_from_peer_at =
      if self_authored then max r.last_read_from_peer_at m.sent_at else r.last_read_from_peer_at;
}

abbrev pub same_row : ConvIndexRow → ConvIndexRow → Bool
same_row r r' =
    eqb r.last_message_at r'.last_message_at
    && (r.last_message_id == r'.last_message_id)
    && eqb r.last_read_from_peer_at r'.last_read_from_peer_at

-- The row that `onMessageStored` writes; `none` where it returns false.
unfoldable pub next_row : Option Text → Option ConvIndexRow → MessageStored → Option ConvIndexRow
next_row self none m = some (first_row (is_self self m.sender_user_id) m)
next_row self (some r) m =
    let self_authored = is_self self m.sender_user_id in
    if ltb m.sent_at r.last_message_at && not (m.message_id == r.last_message_id)
    then late_row self_authored r m
    else (let next : ConvIndexRow = newer_row self_authored r m in
        if same_row r next then none else some next)

module _ {S : Type 0} (kv : KvOps S) (rows : RowCodec) where
  abbrev pub new_index : S → ConversationIndex S
  new_index s = record { cache = []; loaded = false; store = s }

  abbrev pub load_row : Option Text → JsMap ConvIndexRow → JsMap ConvIndexRow
  load_row none m = m
  load_row (some raw) m =
      if is_empty raw
      then m
      else (elim (rows.parse raw) [ none ↦ m | some r ↦ JsMap.insert r.peer_user_id r m ])

  unfoldable pub load_rows : List Text → S → JsMap ConvIndexRow → JsMap ConvIndexRow
  unfolding JsMap.insert
  load_rows [] s m = m
  load_rows (k ∷ ks) s m = load_rows ks s (load_row (kv.get_string k s) m)

  unfoldable pub load : ConversationIndex S → ConversationIndex S
  unfolding load_rows
  load c = if c.loaded then c else record c {
    cache = load_rows (kv.list_keys key_prefix c.store) c.store c.cache;
    loaded = true;
  }

  unfoldable pub reload : ConversationIndex S → ConversationIndex S
  unfolding load
  reload c = load (record c { cache = []; loaded = false })

  -- `cache.set` and the write of the row.
  abbrev pub write_row : Text → ConvIndexRow → ConversationIndex S → ConversationIndex S
  write_row peer r c = record c {
    cache = JsMap.insert peer r c.cache;
    store = kv.set_string (kv_key peer) (rows.stringify r) c.store;
  }

  unfoldable pub on_message_stored :
      Option Text → MessageStored → ConversationIndex S → Bool × ConversationIndex S
  unfolding next_row JsMap.lookup
  on_message_stored self m c = elim (next_row self (JsMap.lookup m.peer_user_id c.cache) m) [
    | none ↦ (false, c)
    | some r ↦ (true, write_row m.peer_user_id r c)
  ]

  abbrev pub placeholder : Text → ℕ → ConvIndexRow
  placeholder peer up_to = record {
    peer_user_id = peer;
    last_message_at = 0;
    last_message_id = [];
    last_read_from_peer_at = up_to;
  }

  unfoldable pub mark_read_up_to : Text → ℕ → ConversationIndex S → Bool × ConversationIndex S
  unfolding JsMap.lookup
  mark_read_up_to peer up_to c = elim (JsMap.lookup peer c.cache) [
    | none ↦ (true, write_row peer (placeholder peer up_to) c)
    | some r ↦
        if leb up_to r.last_read_from_peer_at
        then (false, c)
        else (true, write_row peer (record r { last_read_from_peer_at = up_to }) c)
  ]

  abbrev pub peers : ConversationIndex S → List Text
  peers c = JsMap.keys c.cache

  unfoldable pub delete : Text → ConversationIndex S → ConversationIndex S
  unfolding JsMap.erase
  delete peer c = record c {
    cache = JsMap.erase peer c.cache;
    store = kv.delete (kv_key peer) c.store;
  }

-- The message counts as unread above the watermark.
abbrev pub is_unread : Text → ℕ → StoredMessage → Bool
is_unread self watermark m =
    not (m.sender_user_id == self) && not (is_some m.deleted_at) && ltb watermark m.sent_at

unfoldable pub count_unread : Text → ℕ → List StoredMessage → ℕ
count_unread self watermark [] = 0
count_unread self watermark (m ∷ ms) =
    let rest = count_unread self watermark ms in
    if is_unread self watermark m then suc rest else rest

abbrev pub snapshot : StoredMessage → Snapshot
snapshot m = record {
  id = m.id;
  sender_user_id = m.sender_user_id;
  text = m.text;
  edited_at = m.edited_at;
  deleted_at = m.deleted_at;
  status = m.status;
}

abbrev pub snapshot_of : Option StoredMessage → Option Snapshot
snapshot_of none = none
snapshot_of (some m) = some (snapshot m)

module _ {S : Type 0} (kv : KvOps S) (codec : Codec) where
  -- The unread count of a row; the empty user id is falsy.
  unfoldable pub unread_of : Option Text → ConvIndexRow → MessageStore S → ℕ × MessageStore S
  unfolding count_unread
  unread_of none r ms = (0, ms)
  unread_of (some self) r ms =
      if is_empty self
      then (0, ms)
      else (let (msgs, ms') = Messages.list_for_peer kv codec r.peer_user_id whole ms in
          (count_unread self r.last_read_from_peer_at msgs, ms'))

  unfoldable pub list_row :
      Option Text → ConvIndexRow → MessageStore S → Conversation × MessageStore S
  unfolding unread_of
  list_row self r ms =
      let (last, ms') = Messages.get kv codec r.last_message_id ms in
      let (unread, ms'') = unread_of self r ms' in
      (
        record {
          peer_user_id = r.peer_user_id;
          last_message_at = r.last_message_at;
          last_message = snapshot_of last;
          unread_count = unread;
        },
        ms'',
      )

  -- The loop of `list`: a row with no message yet is passed over.
  unfoldable pub list_rows :
      Option Text → List ConvIndexRow → MessageStore S → List Conversation × MessageStore S
  unfolding list_row
  list_rows self [] ms = ([], ms)
  list_rows self (r ∷ rs) ms =
      let skipped : List Conversation × MessageStore S = list_rows self rs ms in
      let (conversation, ms') = list_row self r ms in
      let (out, ms'') = list_rows self rs ms' in
      if is_empty r.last_message_id then skipped else (conversation ∷ out, ms'')

  -- `list`, with the index, which is loaded if it was not.
  unfoldable pub list :
      RowCodec
      → Option Text
      → ConversationIndex S
      → MessageStore S
      → List Conversation × (ConversationIndex S × MessageStore S)
  unfolding load list_rows sort_desc
  list rows self c ms =
      let c' : ConversationIndex S = load kv rows c in
      let (out, ms') = list_rows self (JsMap.values c'.cache) ms in
      (sort_desc (λ x. x.last_message_at) out, (c', ms'))

  unfoldable pub total : List Conversation → ℕ
  total [] = 0
  total (c ∷ cs) = c.unread_count + total cs

  unfoldable pub total_unread : RowCodec → Option Text → ConversationIndex S → MessageStore S → ℕ
  unfolding list total
  total_unread rows self c ms = total (list rows self c ms).0
