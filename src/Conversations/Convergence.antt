-- ===== src/Conversations/Convergence.antt =====
-- Messages that arrive out of order: src/conversations.ts, `onMessageStored`.
use secure_chat_client.Prelude.{
  ◌≡◌, ◌≢◌, sym, ap, ◌∙◌, [], Bool, false, Option, none, some, Text, ◌==◌, eq_iff, ltb,
  if◌then◌else◌, arith,
}
use secure_chat_client.Conversations.{ConvIndexRow, MessageStored, is_self, max, next_row}
use secure_chat_client.Conversations.Watermarks.{after, is_last}

-- The row of a thread after one message.
abbrev pub store_row : Option Text → Option ConvIndexRow → MessageStored → Option ConvIndexRow
store_row self old m = after old (next_row self old m)

-- What a message makes of a row, in one formula.
merged : Bool → ConvIndexRow → MessageStored → ConvIndexRow
merged self_authored r m = record {
  peer_user_id = r.peer_user_id;
  last_message_at = max r.last_message_at m.sent_at;
  last_message_id = if ltb m.sent_at r.last_message_at then r.last_message_id else m.message_id;
  last_read_from_peer_at =
      if self_authored then max r.last_read_from_peer_at m.sent_at else r.last_read_from_peer_at;
}

blank : Text → ConvIndexRow
blank peer = record {
  peer_user_id = peer;
  last_message_at = 0;
  last_message_id = [];
  last_read_from_peer_at = 0;
}

store_row-merged :
    (self : Option Text) (r : ConvIndexRow) (m : MessageStored)
    → is_last m (some r) ≡ false
    → store_row self (some r) m ≡ some (merged (is_self self m.sender_user_id) r m)
unfolding next_row merged
store_row-merged self r m last =
    ground (arith, eq_iff m.message_id r.last_message_id, eq_iff r.last_message_id m.message_id)

store_row-blank :
    (self : Option Text) (m : MessageStored)
    → store_row self none m ≡ some (merged (is_self self m.sender_user_id) (blank m.peer_user_id) m)
unfolding next_row merged blank
store_row-blank self m = ground arith

merged_comm :
    (a b : Bool) (r : ConvIndexRow) (m n : MessageStored)
    → m.sent_at ≢ n.sent_at
    → merged b (merged a r m) n ≡ merged a (merged b r n) m
unfolding merged
merged_comm a b r m n later = ground arith

eq_sym_false : (s t : Text) → (s == t) ≡ false → (t == s) ≡ false
eq_sym_false s t h = ground (arith, eq_iff s t, eq_iff t s)

-- The other message is not the latest one after this one.
merged_not_last :
    (a : Bool) (r : ConvIndexRow) (m n : MessageStored)
    → (n.message_id == m.message_id) ≡ false
    → is_last n (some r) ≡ false
    → is_last n (some (merged a r m)) ≡ false
unfolding merged
merged_not_last a r m n apart last = ground arith

blank_not_last :
    (a : Bool) (peer : Text) (m n : MessageStored)
    → (n.message_id == m.message_id) ≡ false
    → is_last n (some (merged a (blank peer) m)) ≡ false
unfolding merged blank
blank_not_last a peer m n apart = ground arith

-- Two messages of one thread that were sent at different times give the same row in either order
-- of arrival, as long as their ids differ and neither is the latest message of the thread.
pub store_row_comm :
    (self : Option Text) (old : Option ConvIndexRow) (m n : MessageStored)
    → m.peer_user_id ≡ n.peer_user_id
    → (m.message_id == n.message_id) ≡ false
    → m.sent_at ≢ n.sent_at
    → is_last m old ≡ false
    → is_last n old ≡ false
    → store_row self (store_row self old m) n ≡ store_row self (store_row self old n) m
store_row_comm self none m n same apart later lm ln =
    let a : Bool = is_self self m.sender_user_id in
    let b : Bool = is_self self n.sender_user_id in
    let r : ConvIndexRow = blank m.peer_user_id in
    let other : store_row self none n ≡ some (merged b r n) =
      store_row-blank self n ∙ ap (λ p. some (merged b (blank p) n)) (sym same) in
    rw (store_row-blank self m, other)
      (store_row-merged self (merged a r m) n
          (blank_not_last a m.peer_user_id m n (eq_sym_false _ _ apart))
        ∙ ap some (merged_comm a b r m n later)
        ∙ sym (store_row-merged self (merged b r n) m (blank_not_last b m.peer_user_id n m apart)))
store_row_comm self (some r) m n same apart later lm ln =
    let a : Bool = is_self self m.sender_user_id in
    let b : Bool = is_self self n.sender_user_id in
    rw (store_row-merged self r m lm, store_row-merged self r n ln)
      (store_row-merged self (merged a r m) n (merged_not_last a r m n (eq_sym_false _ _ apart) ln)
        ∙ ap some (merged_comm a b r m n later)
        ∙ sym (store_row-merged self (merged b r n) m (merged_not_last b r n m apart lm)))
