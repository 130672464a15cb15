-- ===== src/Messages/Edits.antt =====
-- Who may change a message, and what changes: src/message_store.ts, `applyEdit`, `applyDelete`.
use secure_chat_client.Prelude.{
  ◌+◌, ◌*◌, ◌≤◌, [], ◌≡◌, ◌↔◌, refl, sym, Bool, true, Option, none, some, Text, ◌==◌, eq_iff,
  if◌then◌else◌, arith, inl, inr, Bool-cases,
}
use secure_chat_client.Store.{Stored, KvOps, IsLawful}
use secure_chat_client.Messages.{
  StoredMessage, Codec, IsFaithful, MessageStore, Edit, Deletion, may_edit, edited, deleted, get,
  put, apply_edit, apply_delete,
}
use secure_chat_client.Messages.Rows.{
  stored, IsKeyed, IsFetched, get-IsFetched, stored-set, put-IsKeyed,
}

-- The rule for an edit: the message is there and not deleted, the editor wrote it, and the edit
-- comes at most 24 h after the message was sent.
pub record MayEdit (e : Edit) (m : StoredMessage) : Type 0 where
  pub alive : m.deleted_at ≡ none
  pub own : m.sender_user_id ≡ e.editor_user_id
  pub in_time :
      e.edited_at
      ≤ (elim e.original_sent_at [ none ↦ m.sent_at | some at ↦ at ]) + 24 * 60 * 60 * 1000

may_edit_iff : (e : Edit) (m : StoredMessage) → (may_edit e m ≡ true) ↔ MayEdit e m
may_edit_iff e m = (
  λ h. record {
    alive = ground arith;
    own = ground (arith, eq_iff m.sender_user_id e.editor_user_id);
    in_time = ground arith;
  },
  λ r. ground (arith, eq_iff m.sender_user_id e.editor_user_id, r.alive, r.own, r.in_time),
)

-- The row of the id `target` is replaced by the result, if there is one; no other row changes.
abbrev pub after_change :
    Text → Option StoredMessage → Text → Option StoredMessage → Option StoredMessage
after_change target none j row = row
after_change target (some m) j row = if target == j then some m else row

module _ {S : Type 0} (kv : KvOps S) (at : Text → S → Option Stored) (l : IsLawful kv at)
    (codec : Codec) (f : IsFaithful codec) where
  -- What a change of the message `target` to `change m` does, where `allowed` decides on it.
  pub record IsChanged (target : Text) (allowed : StoredMessage → Bool)
      (change : StoredMessage → StoredMessage) (ms : MessageStore S)
      (r : Option StoredMessage × MessageStore S) : Type 0 where
    pub result_iff :
        (m' : StoredMessage)
        → (r.0 ≡ some m') ↔ (
            (m : StoredMessage) × (stored kv codec target ms.store ≡ some m)
            × (allowed m ≡ true)
            × (m' ≡ change m))
    pub rows :
        (j : Text)
        → stored kv codec j r.1.store ≡ after_change target r.0 j (stored kv codec j ms.store)
    pub still_keyed : IsKeyed kv codec r.1

  change-IsChanged :
      (target : Text) (allowed : StoredMessage → Bool) (change : StoredMessage → StoredMessage)
      (ms ms' : MessageStore S) (row : Option StoredMessage)
      → ((m : StoredMessage) → (change m).id ≡ m.id)
      → IsKeyed kv codec ms
      → IsFetched kv codec target ms (row, ms')
      → IsChanged target allowed change ms (elim row [
        | none ↦ (none, ms')
        | some m ↦ if allowed m then (some (change m), put kv codec (change m) ms') else (none, ms')
      ])
  unfolding put
  change-IsChanged target allowed change ms ms' none same_id h g = record {
    result_iff = λ m'. (λ e. cc, λ (m, there, ok, e). cc (g.row));
    rows = λ j. rw g.same_store;
    still_keyed = g.still_keyed;
  }
  change-IsChanged target allowed change ms ms' (some m) same_id h g =
      elim (Bool-cases (allowed m)) [
        | inl ok ↦ rw ok (record {
          result_iff = λ m'. (λ e. (m, sym g.row, ok, cc), λ (m₀, there, ok₀, e). cc (g.row));
          rows = λ j. rw (
            stored-set kv at l codec f (change m).id j (change m) ms'.store,
            same_id m,
            h.keyed target m (sym g.row),
            g.same_store,
          );
          still_keyed = put-IsKeyed kv at l codec f (change m) ms' g.still_keyed;
        })
        | inr denied ↦ rw denied (record {
          result_iff = λ m'. (λ e. cc, λ (m₀, there, ok₀, e). cc (g.row));
          rows = λ j. rw g.same_store;
          still_keyed = g.still_keyed;
        })
      ]

  -- An edit of a store whose rows are keyed by their ids: the result is a message exactly when the
  -- target is there, is not deleted, was written by the editor, and the edit comes at most 24 h
  -- after it was sent, by the time that the edit names or else by the row; the result is then the
  -- target with the new text and the time of the edit and all else as it was, it replaces the
  -- target's row, and no other row changes. With no result no row changes.
  pub apply_edit-IsChanged :
      (e : Edit) (ms : MessageStore S)
      → IsKeyed kv codec ms
      → IsChanged e.target_id
          (may_edit e)
          (λ m. record m { text = e.new_text; edited_at = some e.edited_at })
          ms
          (apply_edit kv codec e ms)
        × ((m : StoredMessage) → (may_edit e m ≡ true) ↔ MayEdit e m)
  unfolding apply_edit
  apply_edit-IsChanged e ms h =
      let (row, ms') = get kv codec e.target_id ms in
      (
        change-IsChanged e.target_id (may_edit e) (edited e) ms ms' row (λ m. refl) h
            (get-IsFetched kv codec e.target_id ms h),
        may_edit_iff e,
      )

  -- A deletion of a store whose rows are keyed by their ids: the result is a message exactly when
  -- the target is there and was written by the deleter; the result is then the target with an empty
  -- text and the time of the deletion and all else as it was, it replaces the target's row, and no other row changes. With
  -- no result no row changes.
  pub apply_delete-IsChanged :
      (d : Deletion) (ms : MessageStore S)
      → IsKeyed kv codec ms
      → IsChanged d.target_id
          (λ m. m.sender_user_id == d.deleter_user_id)
          (λ m. record m { text = []; deleted_at = some d.deleted_at })
          ms
          (apply_delete kv codec d ms)
  unfolding apply_delete
  apply_delete-IsChanged d ms h =
      let (row, ms') = get kv codec d.target_id ms in
      change-IsChanged d.target_id (λ m. m.sender_user_id == d.deleter_user_id) (deleted d) ms ms'
        row (λ m. refl) h (get-IsFetched kv codec d.target_id ms h)
