-- ===== src/Messages.antt =====
-- The local history of messages: src/message_store.ts, class `MessageStore`.
-- `JSON.stringify` and `JSON.parse` of a message, `String` and `Number` of a time are the record
-- `Codec`. Times are whole milliseconds; the calls are awaited one after the other.
pub mod Rows
pub mod Edits
pub mod Collect
pub mod Threads
use secure_chat_client.Prelude.JsMap
use secure_chat_client.Prelude.JsMap.{JsMap}
use secure_chat_client.Prelude.Sort.{sort_by}
use secure_chat_client.Prelude.{
  ℕ, ◌+◌, ◌-◌, ◌*◌, ◌≡◌, Bool, true, false, ◌&&◌, not, Option, none, some, List, [], ◌∷◌, ◌++◌,
  Text, ◌==◌, lit, is_empty, is_some, eqb, ltb, leb, length, drop, if◌then◌else◌,
}
use secure_chat_client.Status.{MessageStatus}
use secure_chat_client.Store.{KvOps}

abbrev pub edit_window_ms : ℕ
edit_window_ms = 24 * 60 * 60 * 1000

pub record StoredMessage : Type 0 where
  pub id : Text
  pub peer_user_id : Text
  pub sender_user_id : Text
  pub text : Text
  pub sent_at : ℕ
  pub edited_at : Option ℕ
  pub deleted_at : Option ℕ
  pub reply_to : Option Text
  pub status : Option MessageStatus

pub record Codec : Type 0 where
  pub stringify : StoredMessage → Text
  pub parse : Text → Option StoredMessage
  pub print_number : ℕ → Text
  pub parse_number : Text → Option ℕ

-- What JSON guarantees: a printed value parses back, and the empty text is no JSON.
pub record IsFaithful (codec : Codec) : Type 0 where
  pub parse-stringify : (m : StoredMessage) → codec.parse (codec.stringify m) ≡ some m
  pub parse-nil : codec.parse [] ≡ none
  pub parse_number-print : (n : ℕ) → codec.parse_number (codec.print_number n) ≡ some n

pub record MessageStore (S : Type 0) : Type 0 where
  pub cache : JsMap StoredMessage
  pub store : S

abbrev pub messages_prefix : Text
messages_prefix = lit "messages/"

abbrev pub kv_key : Text → Text
kv_key id = messages_prefix ++ id

abbrev pub watermark_key : Text → Text
watermark_key peer = lit "chatDeleteWatermark/" ++ peer

-- The options of `listForPeer`.
pub record Page : Type 0 where
  pub limit : Option ℕ
  pub before_sent_at : Option ℕ

abbrev pub whole : Page
whole = record { limit = none; before_sent_at = none }

pub record Edit : Type 0 where
  pub target_id : Text
  pub editor_user_id : Text
  pub new_text : Text
  pub edited_at : ℕ
  pub original_sent_at : Option ℕ

pub record Deletion : Type 0 where
  pub target_id : Text
  pub deleter_user_id : Text
  pub deleted_at : ℕ

-- `msg.sentAt >= opts.beforeSentAt` passes over the message.
abbrev pub is_before : ℕ → Option ℕ → Bool
is_before sent_at none = true
is_before sent_at (some limit) = ltb sent_at limit

abbrev pub in_page : Text → Page → StoredMessage → Bool
in_page peer page m = (m.peer_user_id == peer) && is_before m.sent_at page.before_sent_at

-- `out.length > limit ? out.slice(-limit) : out`; `slice(-0)` is the whole list.
unfoldable pub last_page : Option ℕ → List StoredMessage → List StoredMessage
last_page none out = out
last_page (some limit) out =
    if ltb limit (length out)
    then (if eqb limit 0 then out else drop (length out - limit) out)
    else out

abbrev pub keep_if : Bool → Option StoredMessage → List StoredMessage → List StoredMessage
keep_if wanted none out = out
keep_if false (some m) out = out
keep_if true (some m) out = m ∷ out

abbrev pub wanted : Text → Page → Option StoredMessage → Bool
wanted peer page none = false
wanted peer page (some m) = in_page peer page m

abbrev pub base_sent_at : Edit → StoredMessage → ℕ
base_sent_at e target = elim e.original_sent_at [ none ↦ target.sent_at | some at ↦ at ]

-- The guards of `applyEdit` on the message that is there.
abbrev pub may_edit : Edit → StoredMessage → Bool
may_edit e target =
    not (is_some target.deleted_at)
    && (target.sender_user_id == e.editor_user_id)
    && not (ltb (base_sent_at e target + edit_window_ms) e.edited_at)

abbrev pub edited : Edit → StoredMessage → StoredMessage
edited e target = record target { text = e.new_text; edited_at = some e.edited_at }

abbrev pub deleted : Deletion → StoredMessage → StoredMessage
deleted d target = record target { text = []; deleted_at = some d.deleted_at }

abbrev pub remember : {S : Type 0} → Option StoredMessage → MessageStore S → MessageStore S
remember none ms = ms
remember (some m) ms = record ms { cache = JsMap.insert m.id m ms.cache }

module _ {S : Type 0} (kv : KvOps S) (codec : Codec) where
  unfoldable pub put : StoredMessage → MessageStore S → MessageStore S
  unfolding JsMap.insert
  put msg ms = record {
    cache = JsMap.insert msg.id msg ms.cache;
    store = kv.set_string (kv_key msg.id) (codec.stringify msg) ms.store;
  }

  -- A row of the storage: `null` for a missing, an empty or a malformed one.
  abbrev pub read_row : Option Text → Option StoredMessage
  read_row none = none
  read_row (some raw) = if is_empty raw then none else codec.parse raw

  -- The message of the id and the key under which it is stored, through the cache.
  unfoldable pub fetch : Text → Text → MessageStore S → Option StoredMessage × MessageStore S
  unfolding JsMap.lookup JsMap.insert
  fetch id key ms = elim (JsMap.lookup id ms.cache) [
    | some m ↦ (some m, ms)
    | none ↦
        let row : Option StoredMessage = read_row (kv.get_string key ms.store) in
        (row, remember row ms)
  ]

  unfoldable pub get : Text → MessageStore S → Option StoredMessage × MessageStore S
  unfolding fetch
  get id ms = fetch id (kv_key id) ms

  -- The loop of `listForPeer` over the keys.
  unfoldable pub collect :
      Text → Page → List Text → MessageStore S → List StoredMessage × MessageStore S
  unfolding fetch
  collect peer page [] ms = ([], ms)
  collect peer page (key ∷ keys) ms =
      let (row, ms') = fetch (drop (length messages_prefix) key) key ms in
      let (out, ms'') = collect peer page keys ms' in (keep_if (wanted peer page row) row out, ms'')

  unfoldable pub list_for_peer : Text → Page → MessageStore S → List StoredMessage × MessageStore S
  unfolding collect sort_by last_page
  list_for_peer peer page ms =
      let (out, ms') = collect peer page (kv.list_keys messages_prefix ms.store) ms in
      (last_page page.limit (sort_by (λ m. m.sent_at) out), ms')

  unfoldable pub apply_edit : Edit → MessageStore S → Option StoredMessage × MessageStore S
  unfolding get put
  apply_edit e ms =
      let (row, ms') = get e.target_id ms in
      elim row [
        | none ↦ (none, ms')
        | some target ↦
            if may_edit e target
            then (some (edited e target), put (edited e target) ms')
            else (none, ms')
      ]

  unfoldable pub apply_delete : Deletion → MessageStore S → Option StoredMessage × MessageStore S
  unfolding get put
  apply_delete d ms =
      let (row, ms') = get d.target_id ms in
      elim row [
        | none ↦ (none, ms')
        | some target ↦
            if target.sender_user_id == d.deleter_user_id
            then (some (deleted d target), put (deleted d target) ms')
            else (none, ms')
      ]

  unfoldable pub drop_messages : List StoredMessage → MessageStore S → MessageStore S
  unfolding JsMap.erase
  drop_messages [] ms = ms
  drop_messages (m ∷ rest) ms =
      drop_messages rest
        (record { cache = JsMap.erase m.id ms.cache; store = kv.delete (kv_key m.id) ms.store })

  unfoldable pub delete_for_peer : Text → MessageStore S → MessageStore S
  unfolding list_for_peer drop_messages
  delete_for_peer peer ms = let (msgs, ms') = list_for_peer peer whole ms in drop_messages msgs ms'

  unfoldable pub get_delete_watermark : Text → MessageStore S → ℕ
  get_delete_watermark peer ms = elim (kv.get_string (watermark_key peer) ms.store) [
    | none ↦ 0
    | some raw ↦
        if is_empty raw then 0 else (elim (codec.parse_number raw) [ none ↦ 0 | some n ↦ n ])
  ]

  unfoldable pub set_delete_watermark : Text → ℕ → MessageStore S → MessageStore S
  set_delete_watermark peer ms_epoch ms = record ms {
    store = kv.set_string (watermark_key peer) (codec.print_number ms_epoch) ms.store;
  }
