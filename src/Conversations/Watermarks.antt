-- ===== src/Conversations/Watermarks.antt =====
-- The read watermark and the latest activity of a conversation: src/conversations.ts.
use secure_chat_client.Prelude.JsMap
use secure_chat_client.Prelude.{
  ℕ, ◌≤◌, ◌≡◌, Bool, false, not, ◌||◌, Option, none, some, Text, ◌==◌, eq_iff, eq_refl, ltb, leb,
  if◌then◌else◌, arith, inl, inr, Bool-cases, Option-cases,
}
use secure_chat_client.Store.{KvOps}
use secure_chat_client.Conversations.{
  ConvIndexRow, RowCodec, ConversationIndex, MessageStored, is_self, next_row, on_message_stored,
  mark_read_up_to, same_row, max, placeholder,
}

-- The row after the call.
abbrev pub after : Option ConvIndexRow → Option ConvIndexRow → Option ConvIndexRow
after old none = old
after old (some r) = some r

-- The read watermark of a thread; 0 without a row.
abbrev pub watermark : Option ConvIndexRow → ℕ
watermark none = 0
watermark (some r) = r.last_read_from_peer_at

abbrev pub activity : Option ConvIndexRow → ℕ
activity none = 0
activity (some r) = r.last_message_at

abbrev pub is_last : MessageStored → Option ConvIndexRow → Bool
is_last m none = false
is_last m (some r) = m.message_id == r.last_message_id

next_row_bounds :
    (self : Option Text) (old : Option ConvIndexRow) (m : MessageStored)
    → (watermark old ≤ watermark (after old (next_row self old m)))
      × ((if is_self self m.sender_user_id then m.sent_at else 0)
          ≤ watermark (after old (next_row self old m)))
      × ((if is_last m old then m.sent_at else activity old)
          ≤ activity (after old (next_row self old m)))
      × (m.sent_at ≤ activity (after old (next_row self old m)))
unfolding next_row
next_row_bounds self none m = ground arith
next_row_bounds self (some r) m = ground (arith, eq_iff m.message_id r.last_message_id)

-- The row that is written is never the row that was there.
next_row-ne :
    (self : Option Text) (r r' : ConvIndexRow) (m : MessageStored)
    → next_row self (some r) m ≡ some r'
    → same_row r r' ≡ false
unfolding next_row
next_row-ne self r r' m h = ground (
  arith,
  eq_iff r.last_message_id r'.last_message_id,
  eq_iff r.last_message_id m.message_id,
  eq_refl r.last_message_id,
)

next_row_again :
    (self : Option Text) (old : Option ConvIndexRow) (m : MessageStored)
    → next_row self (after old (next_row self old m)) m ≡ none
unfolding next_row
next_row_again self none m = ground (arith, eq_refl m.message_id)
next_row_again self (some r) m =
    ground (arith, eq_iff m.message_id r.last_message_id, eq_refl m.message_id)

own_mark :
    {self : Option Text} (m : MessageStored) {n : ℕ}
    → self ≡ some m.sender_user_id
    → (if is_self self m.sender_user_id then m.sent_at else 0) ≤ n
    → m.sent_at ≤ n
own_mark m mine h = ground (arith, mine, h, eq_refl m.sender_user_id)

module _ {S : Type 0} (kv : KvOps S) (rows : RowCodec) (self : Option Text) where
  -- The row of a peer.
  abbrev pub row_of : Text → ConversationIndex S → Option ConvIndexRow
  row_of peer c = JsMap.lookup peer c.cache

  stored_none :
      (m : MessageStored) (c : ConversationIndex S)
      → next_row self (row_of m.peer_user_id c) m ≡ none
      → on_message_stored kv rows self m c ≡ (false, c)
  unfolding on_message_stored
  stored_none m c h = rw (h, on_message_stored)

  -- The row of every peer after the call.
  row_of-on_message_stored :
      (m : MessageStored) (c : ConversationIndex S) (q : Text)
      → row_of q (on_message_stored kv rows self m c).1 ≡ (
          if m.peer_user_id == q
          then after (row_of m.peer_user_id c) (next_row self (row_of m.peer_user_id c) m)
          else row_of q c)
  unfolding on_message_stored
  row_of-on_message_stored m c q = elim (Option-cases (next_row self (row_of m.peer_user_id c) m)) [
    | inl kept ↦ rw (kept, on_message_stored) (ground (arith, eq_iff m.peer_user_id q))
    | inr (r, next) ↦ rw (next, on_message_stored) (JsMap.lookup-insert m.peer_user_id q r c.cache)
  ]

  pub record IsAdvanced (m : MessageStored) (c c' : ConversationIndex S) : Type 0 where
    pub others : (q : Text) → (m.peer_user_id == q) ≡ false → row_of q c' ≡ row_of q c
    pub watermark_kept : watermark (row_of m.peer_user_id c) ≤ watermark (row_of m.peer_user_id c')
    pub own_read : self ≡ some m.sender_user_id → m.sent_at ≤ watermark (row_of m.peer_user_id c')
    pub no_rewind :
        (if is_last m (row_of m.peer_user_id c)
          then m.sent_at
          else activity (row_of m.peer_user_id c))
        ≤ activity (row_of m.peer_user_id c')
    pub covers : m.sent_at ≤ activity (row_of m.peer_user_id c')

  -- Storing a message of a peer changes the row of no other peer; the read watermark of the thread
  -- never falls, and covers a message that the user wrote; the latest activity is at least that of
  -- the message, and never falls, unless the message is the latest one, stored again.
  pub on_message_stored-IsAdvanced :
      (m : MessageStored) (c : ConversationIndex S)
      → IsAdvanced m c (on_message_stored kv rows self m c).1
  on_message_stored-IsAdvanced m c =
      let (kept, own, rewind, covered) = next_row_bounds self (row_of m.peer_user_id c) m in
      let own_row : row_of m.peer_user_id (on_message_stored kv rows self m c).1
          ≡ after (row_of m.peer_user_id c) (next_row self (row_of m.peer_user_id c) m) =
        rw (row_of-on_message_stored m c m.peer_user_id, eq_refl m.peer_user_id) in
      record {
        others = λ q h. rw (row_of-on_message_stored m c q, h);
        watermark_kept = rw own_row kept;
        own_read = λ mine. rw own_row (own_mark m mine own);
        no_rewind = rw own_row rewind;
        covers = rw own_row covered;
      }

  -- The same message stored once more changes nothing, and is reported as no change.
  pub on_message_stored_again :
      (m : MessageStored) (c : ConversationIndex S)
      → on_message_stored kv rows self m (on_message_stored kv rows self m c).1
        ≡ (false, (on_message_stored kv rows self m c).1)
  on_message_stored_again m c = stored_none m (on_message_stored kv rows self m c).1 (
      rw (row_of-on_message_stored m c m.peer_user_id, eq_refl m.peer_user_id)
        (next_row_again self (row_of m.peer_user_id c) m))

  -- Marking a thread as read up to a time raises its watermark to that time if it was below, leaves
  -- its latest activity and the rows of the other peers, and is reported as a change exactly when
  -- the peer had no row or the watermark was below.
  pub mark_read_up_to_lem :
      (peer : Text) (up_to : ℕ) (c : ConversationIndex S) (q : Text)
      → (watermark (row_of q (mark_read_up_to kv rows peer up_to c).1)
          ≡ (if peer == q then max (watermark (row_of peer c)) up_to else watermark (row_of q c)))
        × (activity (row_of q (mark_read_up_to kv rows peer up_to c).1) ≡ activity (row_of q c))
        × ((mark_read_up_to kv rows peer up_to c).0
            ≡ (not (JsMap.has peer c.cache) || ltb (watermark (row_of peer c)) up_to))
  unfolding mark_read_up_to
  mark_read_up_to_lem peer up_to c q = elim (Option-cases (row_of peer c)) [
    | inl absent ↦
        let r : ConvIndexRow = placeholder kv rows peer up_to in
        rw (absent, mark_read_up_to, JsMap.lookup-insert peer q r c.cache)
          (ground (arith, eq_iff peer q))
    | inr (r, found) ↦
        let r' : ConvIndexRow = record r { last_read_from_peer_at = up_to } in
        elim (Bool-cases (leb up_to r.last_read_from_peer_at)) [
          | inl low ↦ rw (found, mark_read_up_to, low) (ground (arith, eq_iff peer q))
          | inr high ↦
              rw (found, mark_read_up_to, high, JsMap.lookup-insert peer q r' c.cache)
                (ground (arith, eq_iff peer q))
        ]
  ]
