-- ===== src/Client/Effects.antt =====
-- What the shared steps of the handlers leave of the stored messages: src/index.ts.
use mathlib.Core.Path.{subst}
use secure_chat_client.Prelude.JsMap
use secure_chat_client.Prelude.{
  ℕ, ◌≡◌, refl, sym, ap, ◌∙◌, Bool, true, false, Option, none, some, List, [], ◌∷◌, ◌++◌, Text, lit,
  ◌==◌, eq_iff, leb, if◌then◌else◌, arith, inl, inr, Bool-cases, Option-cases,
}
use secure_chat_client.Client.{
  Env, Client, history, with_history, index, with_index, queue_received_ack,
  emit_conversations_changed, bump_conversation, bump_read_watermark, set_last_read_sent,
  get_last_read_sent, last_read_sent_key, on_status, notify_status, is_own, on_statuses, tracked,
  flush_received_batch,
}
use secure_chat_client.Client.Kept.{
  Foreign, row, IsSound, Kept, Kept-of_row, Kept-of_same, Kept-trans, IsSound-of_rows,
  stored-set-Foreign,
}
use secure_chat_client.Conversations.{
  ConvIndexRow, ConversationIndex, MessageStored, write_row, on_message_stored, mark_read_up_to,
  next_row,
}
use secure_chat_client.Conversations
use secure_chat_client.Conversations.Listing.{list_lem, list-IsKeyed}
use secure_chat_client.Messages.{StoredMessage, IsFaithful, put, get}
use secure_chat_client.Messages.Rows.{stored, IsFetched, get-IsFetched, put-IsKeyed, stored-set}
use secure_chat_client.Status.{MessageStatus, StatusEvent, StatusTracker}
use secure_chat_client.Store.{Stored, IsLawful}

pub convindex-Foreign : (peer : Text) → Foreign (Conversations.kv_key peer)
unfolding ◌==◌
convindex-Foreign peer j = refl

last_read_sent-Foreign : (peer : Text) → Foreign (lit "lastReadSent/" ++ peer)
unfolding ◌==◌
last_read_sent-Foreign peer j = refl

pub queue_received_ack-same :
    {S : Type 0} (peer device id : Text) (c : Client S)
    → ((queue_received_ack peer device id c).store ≡ c.store)
      × ((queue_received_ack peer device id c).messages ≡ c.messages)
unfolding queue_received_ack flush_received_batch
queue_received_ack-same peer device id c = ground arith

module _ {S : Type 0} (env : Env S) (at : Text → S → Option Stored) (l : IsLawful env.kv at)
    (f : IsFaithful env.codec) where
  pub queue_received_ack-Kept :
      (j peer device id : Text) (c : Client S)
      → IsSound env c
      → Kept env j c (queue_received_ack peer device id c)
  queue_received_ack-Kept j peer device id c h =
      let (s, m) = queue_received_ack-same peer device id c in
      Kept-of_same env j c (queue_received_ack peer device id c) s m h

  pub emit_conversations_changed-Kept :
      (j : Text) (changed : List Text) (c : Client S)
      → IsSound env c
      → Kept env j c (emit_conversations_changed env changed c)
  unfolding emit_conversations_changed
  emit_conversations_changed-Kept j changed c h =
      let e = (list_lem env.kv at l env.codec env.rows c.self_user_id (index c) (history c) h).2 in
      Kept-of_row env j c (emit_conversations_changed env changed c)
        (list-IsKeyed env.kv at l env.codec env.rows c.self_user_id (index c) (history c) h)
        (ap (stored env.kv env.codec j) e)

  -- A write of the index leaves the rows of the messages.
  write_row-Kept :
      (j peer : Text) (r : ConvIndexRow) (c : Client S)
      → IsSound env c
      → Kept env j c (with_index (write_row env.kv env.rows peer r (index c)) c)
  write_row-Kept j peer r c h =
      let same : (i : Text)
          → row env i (with_index (write_row env.kv env.rows peer r (index c)) c) ≡ row env i c =
        λ i.
          stored-set-Foreign env at l (Conversations.kv_key peer) (env.rows.stringify r) i c.store
            (convindex-Foreign peer) in
      let c' : Client S = with_index (write_row env.kv env.rows peer r (index c)) c in
      Kept-of_row env j c c' (IsSound-of_rows env c c' refl same h) (same j)

  on_message_stored-Kept :
      (j : Text) (m : MessageStored) (c : Client S)
      → IsSound env c
      → Kept env j c (with_index (on_message_stored env.kv env.rows c.self_user_id m (index c)).1 c)
  unfolding on_message_stored
  on_message_stored-Kept j m c h =
      elim (Option-cases
        (next_row c.self_user_id (JsMap.lookup m.peer_user_id c.conversations) m)) [
          | inl idle ↦ rw (idle, on_message_stored) (Kept-of_same env j c c refl refl h)
          | inr (r, news) ↦ rw (news, on_message_stored) (write_row-Kept j m.peer_user_id r c h)
        ]

  mark_read_up_to-Kept :
      (j peer : Text) (up_to : ℕ) (c : Client S)
      → IsSound env c
      → Kept env j c (with_index (mark_read_up_to env.kv env.rows peer up_to (index c)).1 c)
  unfolding mark_read_up_to
  mark_read_up_to-Kept j peer up_to c h = elim (Option-cases (JsMap.lookup peer c.conversations)) [
    | inl unknown ↦ rw (unknown, mark_read_up_to) (write_row-Kept j peer _ c h)
    | inr (r, known) ↦ elim (Bool-cases (leb up_to r.last_read_from_peer_at)) [
      | inl old ↦ rw (known, mark_read_up_to, old) (Kept-of_same env j c c refl refl h)
      | inr new ↦ rw (known, mark_read_up_to, new) (write_row-Kept j peer _ c h)
    ]
  ]

  -- The listeners hear of the change, if there is one.
  emit_if-Kept :
      (j peer : Text) (changed : Bool) (c : Client S)
      → IsSound env c
      → Kept env j c (if changed then emit_conversations_changed env (peer ∷ []) c else c)
  emit_if-Kept j peer true c h = emit_conversations_changed-Kept j (peer ∷ []) c h
  emit_if-Kept j peer false c h = Kept-of_same env j c c refl refl h

  pub bump_conversation-Kept :
      (j : Text) (m : MessageStored) (c : Client S)
      → IsSound env c
      → Kept env j c (bump_conversation env m c)
  unfolding bump_conversation
  bump_conversation-Kept j m c h =
      let (changed, i) = on_message_stored env.kv env.rows c.self_user_id m (index c) in
      let c' : Client S = with_index i c in
      let p : Kept env j c c' = on_message_stored-Kept j m c h in
      Kept-trans env j c c' (bump_conversation env m c) p
        (emit_if-Kept j m.peer_user_id changed c' p.sound)

  -- A read of one row through the cache.
  pub get-Kept :
      (j id : Text) (c : Client S)
      → IsSound env c
      → Kept env j c (with_history (get env.kv env.codec id (history c)).1 c)
  get-Kept j id c h =
      let g : IsFetched env.kv env.codec id (history c) (get env.kv env.codec id (history c)) =
        get-IsFetched env.kv env.codec id (history c) h in
      Kept-of_row env j c (with_history (get env.kv env.codec id (history c)).1 c) g.still_keyed
        (ap (stored env.kv env.codec j) g.same_store)

  pub bump_read_watermark-Kept :
      (j peer id : Text) (c : Client S)
      → IsSound env c
      → Kept env j c (bump_read_watermark env peer id c)
  unfolding bump_read_watermark
  bump_read_watermark-Kept j peer id c h =
      let c1 : Client S = with_history (get env.kv env.codec id (history c)).1 c in
      let p : Kept env j c c1 = get-Kept j id c h in
      elim (Option-cases (get env.kv env.codec id (history c)).0) [
        | inl gone ↦ rw (bump_read_watermark, gone) p
        | inr (m, there) ↦
            let (changed, i) = mark_read_up_to env.kv env.rows peer m.sent_at (index c1) in
            let c2 : Client S = with_index i c1 in
            let q : Kept env j c1 c2 = mark_read_up_to-Kept j peer m.sent_at c1 p.sound in
            rw (bump_read_watermark, there)
              (Kept-trans env j c c1 _ p
                (Kept-trans env j c1 c2 _ q (emit_if-Kept j peer changed c2 q.sound)))
      ]

  pub set_last_read_sent-Kept :
      (j peer : Text) (sent_at : ℕ) (c : Client S)
      → IsSound env c
      → Kept env j c (set_last_read_sent env peer sent_at c)
  unfolding set_last_read_sent
  set_last_read_sent-Kept j peer sent_at c h =
      let known : Bool = elim (get_last_read_sent env peer c) [
        | none ↦ false
        | some n ↦ leb sent_at n
      ] in
      let c' : Client S = record c {
        store =
            env.kv.set_string (last_read_sent_key env peer) (env.numerals.print sent_at) c.store;
      } in
      let same : (i : Text) → row env i c' ≡ row env i c = λ i.
        stored-set-Foreign env at l (last_read_sent_key env peer) (env.numerals.print sent_at) i
          c.store (last_read_sent-Foreign peer) in
      elim (Bool-cases known) [
        | inl old ↦ rw (set_last_read_sent, old) (Kept-of_same env j c c refl refl h)
        | inr new ↦
            rw (set_last_read_sent, new)
              (Kept-of_row env j c c' (IsSound-of_rows env c c' refl same h) (same j))
      ]

  -- A row written back with another status.
  restatus-Kept :
      (j : Text) (m : StoredMessage) (s : Option MessageStatus) (c : Client S)
      → row env m.id c ≡ some m
      → IsSound env c
      → Kept env j c (with_history (put env.kv env.codec (record m { status = s }) (history c)) c)
  unfolding put
  restatus-Kept j m s c there h = record {
    sound = put-IsKeyed env.kv at l env.codec f (record m { status = s }) (history c) h;
    kept = λ m' found. elim (Bool-cases (m.id == j)) [
      | inl same ↦
          let here : row env j c ≡ some m =
            subst (λ k. row env k c ≡ some m) ((eq_iff m.id j).0 same) there in
          let one : m ≡ m' = ground (arith) in
          (
            s,
            rw
                (
                  stored-set env.kv at l env.codec f m.id j (record m { status = s }) c.store,
                  same,
                  sym one,
                )
                refl,
          )
      | inr other ↦ (
        m'.status,
        rw (stored-set env.kv at l env.codec f m.id j (record m { status = s }) c.store, other)
            found,
      )
    ];
  }

  notify_status-Kept :
      (j : Text) (e : StatusEvent) (c : Client S)
      → IsSound env c
      → Kept env j c (notify_status env e c)
  unfolding notify_status
  notify_status-Kept j e c h =
      Kept-of_same env j c (notify_status env e c) (ground arith) (ground arith) h

  on_status-Kept :
      (j : Text) (e : StatusEvent) (c : Client S) → IsSound env c → Kept env j c (on_status env e c)
  unfolding on_status
  on_status-Kept j e c h =
      let c1 : Client S = notify_status env e c in
      let n : Kept env j c c1 = notify_status-Kept j e c h in
      let c2 : Client S = with_history (get env.kv env.codec e.message_id (history c1)).1 c1 in
      let p : Kept env j c1 c2 = get-Kept j e.message_id c1 n.sound in
      let g : IsFetched env.kv env.codec e.message_id (history c1)
          (get env.kv env.codec e.message_id (history c1)) =
        get-IsFetched env.kv env.codec e.message_id (history c1) n.sound in
      let q : Kept env j c c2 = Kept-trans env j c c1 c2 n p in
      elim (Option-cases (get env.kv env.codec e.message_id (history c1)).0) [
        | inl gone ↦ rw (on_status, gone) q
        | inr (m, there) ↦ elim (Bool-cases (is_own env m c2)) [
          | inr other ↦ rw (on_status, there, other) q
          | inl own ↦
              let found : row env e.message_id c1 ≡ some m = sym g.row ∙ there in
              let here : row env m.id c2 ≡ some m =
                ap (stored env.kv env.codec m.id) g.same_store
                ∙ subst (λ k. row env k c1 ≡ some m) (sym (n.sound.keyed e.message_id m found))
                    found in
              rw (on_status, there, own)
                (Kept-trans env j c c2 _ q (restatus-Kept j m (some e.status) c2 here q.sound))
        ]
      ]

  on_statuses-Kept :
      (j : Text) (es : List StatusEvent) (c : Client S)
      → IsSound env c
      → Kept env j c (on_statuses env es c)
  unfolding on_statuses
  on_statuses-Kept j [] c h = Kept-of_same env j c c refl refl h
  on_statuses-Kept j (e ∷ es) c h =
      let p : Kept env j c (on_status env e c) = on_status-Kept j e c h in
      Kept-trans env j c (on_status env e c) (on_statuses env es (on_status env e c)) p
        (on_statuses-Kept j es (on_status env e c) p.sound)

  pub tracked-Kept :
      (j : Text) (g : StatusTracker → StatusTracker) (c : Client S)
      → IsSound env c
      → Kept env j c (tracked env g c)
  tracked-Kept j g c h =
      let t : StatusTracker = g (record c.status { emitted = [] }) in
      let c' : Client S = record c { status = record t { emitted = [] } } in
      let p : Kept env j c c' = Kept-of_same env j c c' refl refl h in
      Kept-trans env j c c' (tracked env g c) p (on_statuses-Kept j t.emitted c' p.sound)
