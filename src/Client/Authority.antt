-- ===== src/Client/Authority.antt =====
-- Whose messages an event can change: src/index.ts, `dispatchInboundEvent`.
use mathlib.Core.Path.{subst}
use secure_chat_client.Prelude.JsSet
use secure_chat_client.Prelude.{
  ℕ, ◌≡◌, ◌≢◌, refl, ◌∙◌, Bool, false, ◌&&◌, Option, none, some, [], ◌∷◌, Text, ◌==◌, eq_iff, leb,
  ltb, is_some, arith, inl, inr, Bool-cases, Option-cases,
}
use secure_chat_client.Content.{
  SelfEchoableEvent, text, edit, delete, read, chat_delete_self, chat_delete_all, ContentEvent,
  echoable, received, typing, self_echo, app,
}
use secure_chat_client.Client.{
  Env, Client, message_edited, message_deleted, read_receipt, deleted_by_peer, tracked, history,
  with_history, index, with_index, dispatch, millis,
}
use secure_chat_client.Client.Dispatch.{
  put_row, set_watermark, delete_watermark, store_text, edit_row, delete_row, wipe_thread,
  re_engage, new_row, edit_of, deletion_of, dispatch_echoable, dispatch_event,
  dispatch_inbound_event, is_self, is_content, event_id,
}
use secure_chat_client.Client.Kept.{
  Foreign, row, IsSound, Kept, Kept-of_row, Kept-of_same, Kept-trans, IsSound-of_rows,
  stored-set-Foreign, stored-delete-Foreign,
}
use secure_chat_client.Client.Effects.{
  queue_received_ack-Kept, emit_conversations_changed-Kept, bump_conversation-Kept, tracked-Kept,
  convindex-Foreign,
}
use secure_chat_client.Conversations
use secure_chat_client.Messages.{
  StoredMessage, IsFaithful, MessageStore, Edit, Deletion, put, whole, apply_edit, apply_delete,
  may_edit, edited, deleted, delete_for_peer, watermark_key,
}
use secure_chat_client.Messages
use secure_chat_client.Messages.Rows.{put-IsKeyed, stored-set}
use secure_chat_client.Messages.Edits.{IsChanged, apply_edit-IsChanged, apply_delete-IsChanged}
use secure_chat_client.Messages.Threads.{delete_for_peer-stored, delete_for_peer-IsKeyed}
use secure_chat_client.Status.{on_read, on_received}
use secure_chat_client.Store.{Stored, IsLawful}

-- The event of `peer` has no hold on the message `m` of the id `j`.
abbrev pub Spares : Text → ContentEvent → Text → StoredMessage → Type 0
Spares peer (echoable (text b s r)) j m = b.id ≢ j
Spares peer (echoable (edit b k s)) j m = (m.sender_user_id == peer) ≡ false
Spares peer (echoable (delete b k)) j m = (m.sender_user_id == peer) ≡ false
Spares peer (echoable (chat_delete_all b)) j m = (m.peer_user_id == peer) ≡ false
Spares peer _ j m = Unit

watermark-Foreign : (peer : Text) → Foreign (watermark_key peer)
unfolding ◌==◌
watermark-Foreign peer j = refl

module _ {S : Type 0} (env : Env S) (at : Text → S → Option Stored) (l : IsLawful env.kv at)
    (f : IsFaithful env.codec) where
  set_watermark-Kept :
      (j peer : Text) (ms : ℕ) (c : Client S)
      → IsSound env c
      → Kept env j c (set_watermark env peer ms c)
  unfolding Messages.set_delete_watermark
  set_watermark-Kept j peer ms c h =
      let same : (i : Text) → row env i (set_watermark env peer ms c) ≡ row env i c = λ i.
        stored-set-Foreign env at l (watermark_key peer) (env.codec.print_number ms) i c.store
          (watermark-Foreign peer) in
      Kept-of_row env j c (set_watermark env peer ms c)
        (IsSound-of_rows env c (set_watermark env peer ms c) refl same h) (same j)

  re_engage-Kept :
      (j peer : Text) (at_ms : ℕ) (c : Client S)
      → IsSound env c
      → Kept env j c (re_engage env peer at_ms c)
  re_engage-Kept j peer at_ms c h =
      elim (Bool-cases
        (ltb 0 (delete_watermark env peer c) && ltb (delete_watermark env peer c) at_ms)) [
          | inl moves ↦ rw moves (set_watermark-Kept j peer at_ms c h)
          | inr stays ↦ rw stays (Kept-of_same env j c c refl refl h)
        ]

  -- A row of another id is written.
  put_row-Kept :
      (j : Text) (m : StoredMessage) (c : Client S)
      → m.id ≢ j
      → IsSound env c
      → Kept env j c (put_row env m c)
  unfolding put
  put_row-Kept j m c apart h =
      Kept-of_row env j c (put_row env m c) (put-IsKeyed env.kv at l env.codec f m (history c) h)
        (ground (arith, stored-set env.kv at l env.codec f m.id j m c.store, eq_iff m.id j, apart))

  store_text-Kept :
      (j device : Text) (m : StoredMessage) (c : Client S)
      → m.id ≢ j
      → IsSound env c
      → Kept env j c (store_text env device m c)
  unfolding store_text
  store_text-Kept j device m c apart h =
      let c1 : Client S = put_row env m c in
      let p : Kept env j c c1 = put_row-Kept j m c apart h in
      let q =
        bump_conversation-Kept env at l f j
          (record {
            peer_user_id = m.peer_user_id;
            sender_user_id = m.sender_user_id;
            message_id = m.id;
            sent_at = m.sent_at;
          })
          c1 p.sound in
      let r : Kept env j c _ = Kept-trans env j c c1 _ p q in
      Kept-trans env j c _ (store_text env device m c) r
        (Kept-of_same env j _ (store_text env device m c) refl refl r.sound)

  -- A change that another author asks for is none.
  changed-Kept :
      (j target : Text) (allowed : StoredMessage → Bool) (change : StoredMessage → StoredMessage)
      (m : StoredMessage) (c : Client S) (r : Option StoredMessage × MessageStore S)
      → row env j c ≡ some m
      → allowed m ≡ false
      → IsChanged env.kv at l env.codec f target allowed change (history c) r
      → Kept env j c (with_history r.1 c)
  changed-Kept j target allowed change m c r there barred g =
      let kept : row env j (with_history r.1 c) ≡ row env j c = elim (Option-cases r.0) [
        | inl refused ↦ g.rows j ∙ rw refused refl
        | inr (m', done) ↦ elim (Bool-cases (target == j)) [
          | inl same ↦
              let (m0, found, ok, _) = (g.result_iff m').0 done in
              let here : row env j c ≡ some m0 =
                subst (λ k. row env k c ≡ some m0) ((eq_iff target j).0 same) found in
              absurd (ground arith)
          | inr other ↦ g.rows j ∙ rw (done, other) refl
        ]
      ] in
      Kept-of_row env j c (with_history r.1 c) g.still_keyed kept

  edit_row-Kept :
      (j peer editor : Text) (e : Edit) (m : StoredMessage) (c : Client S)
      → row env j c ≡ some m
      → may_edit e m ≡ false
      → IsSound env c
      → Kept env j c (edit_row env peer editor e c)
  unfolding edit_row
  edit_row-Kept j peer editor e m c there barred h =
      let r : Option StoredMessage × MessageStore S = apply_edit env.kv env.codec e (history c) in
      let p : Kept env j c (with_history r.1 c) =
        changed-Kept j e.target_id (may_edit e) (edited e) m c r there barred
          (apply_edit-IsChanged env.kv at l env.codec f e (history c) h).0 in
      elim (Bool-cases (is_some r.0)) [
        | inl done ↦
            rw (edit_row, done)
              (Kept-trans env j c (with_history r.1 c) _ p (
                Kept-of_same env j (with_history r.1 c)
                  (dispatch (message_edited peer editor e.target_id e.new_text e.edited_at)
                    (with_history r.1 c))
                  refl refl p.sound))
        | inr refused ↦ rw (edit_row, refused) p
      ]

  delete_row-Kept :
      (j peer deleter : Text) (d : Deletion) (m : StoredMessage) (c : Client S)
      → row env j c ≡ some m
      → (m.sender_user_id == d.deleter_user_id) ≡ false
      → IsSound env c
      → Kept env j c (delete_row env peer deleter d c)
  unfolding delete_row
  delete_row-Kept j peer deleter d m c there barred h =
      let r : Option StoredMessage × MessageStore S = apply_delete env.kv env.codec d (history c) in
      let p : Kept env j c (with_history r.1 c) =
        changed-Kept j d.target_id (λ x. x.sender_user_id == d.deleter_user_id) (deleted d) m c r
          there barred (apply_delete-IsChanged env.kv at l env.codec f d (history c) h) in
      elim (Bool-cases (is_some r.0)) [
        | inl done ↦
            rw (delete_row, done)
              (Kept-trans env j c (with_history r.1 c) _ p (
                Kept-of_same env j (with_history r.1 c)
                  (dispatch (message_deleted peer deleter d.target_id d.deleted_at)
                    (with_history r.1 c))
                  refl refl p.sound))
        | inr refused ↦ rw (delete_row, refused) p
      ]

  -- The thread of another peer goes.
  wipe_thread-Kept :
      (j peer : Text) (at_ms : ℕ) (m : StoredMessage) (c : Client S)
      → row env j c ≡ some m
      → (m.peer_user_id == peer) ≡ false
      → IsSound env c
      → Kept env j c (wipe_thread env peer at_ms c)
  unfolding wipe_thread Conversations.delete
  wipe_thread-Kept j peer at_ms m c there apart h =
      let c1 : Client S = with_history (delete_for_peer env.kv env.codec peer (history c)) c in
      let gone : row env j c1 ≡ row env j c =
        delete_for_peer-stored env.kv at l env.codec f peer (history c) j h
        ∙ rw (there, apart) refl in
      let p : Kept env j c c1 =
        Kept-of_row env j c c1 (delete_for_peer-IsKeyed env.kv at l env.codec f peer (history c) h)
          gone in
      let c2 : Client S = with_index (Conversations.delete env.kv env.rows peer (index c1)) c1 in
      let same : (i : Text) → row env i c2 ≡ row env i c1 = λ i.
        stored-delete-Foreign env at l (Conversations.kv_key peer) i c1.store
          (convindex-Foreign peer) in
      let q : Kept env j c1 c2 =
        Kept-of_row env j c1 c2 (IsSound-of_rows env c1 c2 refl same p.sound) (same j) in
      let c3 : Client S = set_watermark env peer at_ms c2 in
      let r : Kept env j c2 c3 = set_watermark-Kept j peer at_ms c2 q.sound in
      Kept-trans env j c c1 _ p (
        Kept-trans env j c1 c2 _ q (
          Kept-trans env j c2 c3 _ r
            (emit_conversations_changed-Kept env at l f j (peer ∷ []) c3 r.sound)))

  dispatch_echoable-Kept :
      (j peer device : Text) (e : SelfEchoableEvent) (m : StoredMessage) (c : Client S)
      → row env j c ≡ some m
      → Spares peer (echoable e) j m
      → IsSound env c
      → Kept env j c (dispatch_echoable env peer device e c)
  unfolding dispatch_echoable
  dispatch_echoable-Kept j peer device (text b s r) m c there spared h =
      let c1 : Client S = re_engage env peer (millis b.client_sent_at) c in
      let p : Kept env j c c1 = re_engage-Kept j peer (millis b.client_sent_at) c h in
      let c2 : Client S = store_text env device (new_row b peer peer s r none) c1 in
      let q : Kept env j c1 c2 =
        store_text-Kept j device (new_row b peer peer s r none) c1 spared p.sound in
      Kept-trans env j c c1 _ p (
        Kept-trans env j c1 c2 _ q
          (queue_received_ack-Kept env at l f j peer device b.id c2 q.sound))
  dispatch_echoable-Kept j peer device (edit b k s) m c there spared h =
      let c1 : Client S = edit_row env peer peer (edit_of env b k peer s) c in
      let p : Kept env j c c1 =
        edit_row-Kept j peer peer (edit_of env b k peer s) m c there (ground arith) h in
      Kept-trans env j c c1 _ p (queue_received_ack-Kept env at l f j peer device b.id c1 p.sound)
  dispatch_echoable-Kept j peer device (delete b k) m c there spared h =
      let c1 : Client S = delete_row env peer peer (deletion_of env b k peer) c in
      let p : Kept env j c c1 =
        delete_row-Kept j peer peer (deletion_of env b k peer) m c there spared h in
      Kept-trans env j c c1 _ p (queue_received_ack-Kept env at l f j peer device b.id c1 p.sound)
  dispatch_echoable-Kept j peer device (read b k) m c there spared h =
      let c1 : Client S = tracked env (on_read peer k) c in
      let p : Kept env j c c1 = tracked-Kept env at l f j (on_read peer k) c h in
      Kept-trans env j c c1 _ p
        (Kept-of_same env j c1 (dispatch (read_receipt peer device k) c1) refl refl p.sound)
  dispatch_echoable-Kept j peer device (chat_delete_self b k) m c there spared h =
      Kept-of_same env j c c refl refl h
  dispatch_echoable-Kept j peer device (chat_delete_all b) m c there spared h =
      elim (Bool-cases (leb (millis b.client_sent_at) (delete_watermark env peer c))) [
        | inl stale ↦
            rw (dispatch_echoable, stale)
              (queue_received_ack-Kept env at l f j peer device b.id c h)
        | inr news ↦
            let c1 : Client S = wipe_thread env peer (millis b.client_sent_at) c in
            let p : Kept env j c c1 =
              wipe_thread-Kept j peer (millis b.client_sent_at) m c there spared h in
            let c2 : Client S = dispatch (deleted_by_peer peer) c1 in
            let q : Kept env j c1 c2 = Kept-of_same env j c1 c2 refl refl p.sound in
            rw (dispatch_echoable, news)
              (Kept-trans env j c c1 _ p (
                Kept-trans env j c1 c2 _ q
                  (queue_received_ack-Kept env at l f j peer device b.id c2 q.sound)))
      ]

  dispatch_event-Kept :
      (j peer device : Text) (e : ContentEvent) (now done : ℕ) (m : StoredMessage) (c : Client S)
      → row env j c ≡ some m
      → is_self env peer c ≡ false
      → Spares peer e j m
      → IsSound env c
      → Kept env j c (dispatch_event env peer device e now done c)
  unfolding dispatch_event
  dispatch_event-Kept j peer device (echoable e) now done m c there other spared h =
      dispatch_echoable-Kept j peer device e m c there spared h
  dispatch_event-Kept j peer device (received b ids) now done m c there other spared h =
      tracked-Kept env at l f j (on_received peer device ids) c h
  dispatch_event-Kept j peer device (typing b k) now done m c there other spared h =
      Kept-of_same env j c _ refl refl h
  dispatch_event-Kept j peer device (app b ns p) now done m c there other spared h =
      Kept-of_same env j c _ refl refl h
  dispatch_event-Kept j peer device (self_echo b p e) now done m c there other spared h =
      rw other (Kept-of_same env j c c refl refl h)

  -- Over a lawful store whose rows are keyed by their ids, an event of a peer that is not the user
  -- leaves every stored message as it was, but for its delivery status, unless it is a text with
  -- the id of the message, an edit or a deletion and the peer wrote the message, or a deletion of
  -- the whole thread in which the message stands; the rows stay keyed.
  pub dispatch_inbound_event-Kept :
      (j peer device : Text) (e : ContentEvent) (now done : ℕ) (m : StoredMessage) (c : Client S)
      → row env j c ≡ some m
      → is_self env peer c ≡ false
      → Spares peer e j m
      → IsSound env c
      → Kept env j c (dispatch_inbound_event env peer device e now done c)
  unfolding dispatch_inbound_event
  dispatch_inbound_event-Kept j peer device e now done m c there other spared h =
      elim (Bool-cases (JsSet.contains peer c.blocked_user_ids)) [
        | inr open_peer ↦
            rw (dispatch_inbound_event, open_peer)
              (dispatch_event-Kept j peer device e now done m c there other spared h)
        | inl blocked ↦ elim (Bool-cases (is_content e)) [
          | inl content ↦
              rw (dispatch_inbound_event, blocked, content)
                (queue_received_ack-Kept env at l f j peer device (event_id e) c h)
          | inr rest ↦
              rw (dispatch_inbound_event, blocked, rest) (Kept-of_same env j c c refl refl h)
        ]
      ]
