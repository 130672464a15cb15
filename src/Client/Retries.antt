-- ===== src/Client/Retries.antt =====
-- Which messages are sent again: src/index.ts, `retrySend`.
use mathlib.Core.Path.{subst}
use secure_chat_client.Client.Calls.{lookup_row}
use secure_chat_client.Client.Guards.{IsUnsent, Sending-cases, lookup_row-IsUnsent}
use secure_chat_client.Client.Outgoing.{
  SendEnv, SendTimes, Sender, Sending, peer_unreachable, failed_to_send, update_client,
  send_content,
}
use secure_chat_client.Client.Texts.{
  Retry, retried, not_connected, unknown_message, foreign_message, deleted_message, not_failed,
  retry_not_sent, durable, has_failed, put_status, send_again, retry_send,
}
use secure_chat_client.Client.Calls.{at_ms}
use secure_chat_client.Content.{echoable}
use secure_chat_client.Content.Factories.{new_text}
use secure_chat_client.Messages.{StoredMessage}
use secure_chat_client.Status.{MessageStatus, pending, sent, delivered, delivered_all, read, failed}
use secure_chat_client.Prelude.{
  ℕ, ◌≡◌, ◌⊎◌, ◌∙◌, ap, eq_iff, arith, Option, [], ◌∷◌, refl, sym, true, false, none, some, Text,
  ◌==◌, is_empty, is_some, inl, inr, Bool-cases, Option-cases,
}

module _ {S K : Type 0} (se : SendEnv S K) where
  nameless : (self : Text) → is_empty self ≡ true → self ≡ []
  nameless [] h = refl
  nameless (x ∷ self) h = ground (arith, h)

  failed_of : (s : Option MessageStatus) → has_failed s ≡ true → s ≡ some failed
  failed_of none h = ground (arith, h)
  failed_of (some failed) h = refl
  failed_of (some pending) h = ground (arith, h)
  failed_of (some sent) h = ground (arith, h)
  failed_of (some delivered) h = ground (arith, h)
  failed_of (some delivered_all) h = ground (arith, h)
  failed_of (some read) h = ground (arith, h)

  -- The row of the id, which a user who is connected looks up.
  pub record Finds (id : Text) (s : Sender S K) (self : Text) (m : StoredMessage) : Type 0 where
    pub connected : s.receiver.client.self_user_id ≡ some self
    pub stored : (lookup_row se id s).0 ≡ some m

  -- The user wrote the message, did not delete it, and its sending failed.
  pub record IsRetryable (self : Text) (m : StoredMessage) : Type 0 where
    pub own : m.sender_user_id ≡ self
    pub kept : m.deleted_at ≡ none
    pub failed_status : m.status ≡ some failed

  abbrev pub Found : (Text → StoredMessage → Type 0) → Text → Sender S K → Type 0
  Found is_so id s = (self : Text) × ((m : StoredMessage) × (Finds id s self m × is_so self m))

  retryable :
      (m : StoredMessage) (self : Text)
      → (m.sender_user_id == self) ≡ true
      → is_some m.deleted_at ≡ false
      → has_failed m.status ≡ true
      → IsRetryable self m
  retryable m self own kept bad = record {
    own = (eq_iff m.sender_user_id self).0 own;
    kept = ground (arith, kept);
    failed_status = failed_of m.status bad;
  }

  -- An attempt is made for a message that can be retried only; a refusal has its reason and does
  -- not touch the wire.
  abbrev pub IsEntitled : Text → Sender S K → Retry → Sender S K → Type 0
  IsEntitled id s retried s' = Found IsRetryable id s
  IsEntitled id s (retry_not_sent out) s' = Found IsRetryable id s
  IsEntitled id s not_connected s' =
      ((s.receiver.client.self_user_id ≡ none) ⊎ (s.receiver.client.self_user_id ≡ some []))
      × IsUnsent s s'
  IsEntitled id s unknown_message s' = ((lookup_row se id s).0 ≡ none) × IsUnsent s s'
  IsEntitled id s foreign_message s' =
      Found (λ self m. ¬ (m.sender_user_id ≡ self)) id s × IsUnsent s s'
  IsEntitled id s deleted_message s' =
      Found (λ self m. ¬ (m.deleted_at ≡ none)) id s × IsUnsent s s'
  IsEntitled id s not_failed s' = Found (λ self m. ¬ (m.status ≡ some failed)) id s × IsUnsent s s'

  send_again-cases :
      (m : StoredMessage) (now : ℕ) (t : SendTimes) (s : Sender S K)
      → ((send_again se m now t s).0 ≡ retried)
        ⊎ ((out : Sending) × ((send_again se m now t s).0 ≡ retry_not_sent out))
  unfolding send_again
  send_again-cases m now t s =
      elim (Sending-cases
        (send_content se m.peer_user_id
          (echoable (new_text m.id (at_ms m.sent_at) m.text m.reply_to)) durable t
          (update_client se (put_status se pending m.peer_user_id m) s)).0) [
            | inl fine ↦ rw (send_again, fine) (inl refl)
            | inr (inl unreachable) ↦ rw (send_again, unreachable) (inr (peer_unreachable, refl))
            | inr (inr broken) ↦ rw (send_again, broken) (inr (failed_to_send, refl))
          ]

  IsEntitled-send_again :
      (id : Text) (m : StoredMessage) (now : ℕ) (t : SendTimes) (s s1 : Sender S K)
      → Found IsRetryable id s
      → IsEntitled id s (send_again se m now t s1).0 (send_again se m now t s1).1
  IsEntitled-send_again id m now t s s1 found =
      let r : Retry × Sender S K = send_again se m now t s1 in
      elim (send_again-cases m now t s1) [
        | inl fine ↦ subst (λ o. IsEntitled id s o r.1) (sym fine) found
        | inr (out, unsent) ↦ subst (λ o. IsEntitled id s o r.1) (sym unsent) found
      ]

  IsEntitled-result :
      (id : Text) (now : ℕ) (t : SendTimes) (s : Sender S K) (r : Retry × Sender S K)
      → retry_send se id now t s ≡ r
      → IsEntitled id s r.0 r.1
      → IsEntitled id s (retry_send se id now t s).0 (retry_send se id now t s).1
  IsEntitled-result id now t s r e = subst (λ r. IsEntitled id s r.0 r.1) (sym e)

  -- `retrySend` tries again exactly the messages that it should: an attempt is made only for a
  -- stored message of the connected user that was not deleted and whose status is failed. Every
  -- refusal has its own reason, which holds: no user is connected, the message is not stored, is of
  -- somebody else, is deleted, or did not fail; and a refusal sends
  -- nothing, queues nothing and draws no session.
  pub retry_send-IsEntitled :
      (id : Text) (now : ℕ) (t : SendTimes) (s : Sender S K)
      → IsEntitled id s (retry_send se id now t s).0 (retry_send se id now t s).1
  unfolding retry_send
  retry_send-IsEntitled id now t s =
      let same : IsUnsent s s = record {
        sent = refl;
        outbox = refl;
        shipments = refl;
        sessions = refl;
        drawn = refl;
      } in
      let s1 : Sender S K = (lookup_row se id s).1 in
      let looked : IsUnsent s s1 = lookup_row-IsUnsent se id s in
      elim (Option-cases s.receiver.client.self_user_id) [
        | inl gone ↦
            IsEntitled-result id now t s (not_connected, s) (simp (retry_send, gone) refl)
              (inl gone, same)
        | inr (self, here) ↦ elim (Bool-cases (is_empty self)) [
          | inl nobody ↦
              IsEntitled-result id now t s (not_connected, s) (simp (retry_send, here, nobody) refl)
                (inr (here ∙ ap some (nameless self nobody)), same)
          | inr somebody ↦ elim (Option-cases (lookup_row se id s).0) [
            | inl missing ↦
                IsEntitled-result id now t s (unknown_message, s1)
                  (simp (retry_send, here, somebody, missing) refl) (missing, looked)
            | inr (m, there) ↦
                let found : Finds id s self m = record { connected = here; stored = there } in
                elim (Bool-cases (m.sender_user_id == self)) [
                  | inr foreign ↦
                      IsEntitled-result id now t s (foreign_message, s1)
                        (simp (retry_send, here, somebody, there, foreign) refl)
                        (
                          (
                            self,
                            (
                              m,
                              (
                                found,
                                λ own. ground (arith, foreign, own, eq_iff m.sender_user_id self),
                              ),
                            ),
                          ),
                          looked,
                        )
                  | inl own ↦ elim (Bool-cases (is_some m.deleted_at)) [
                    | inl gone ↦
                        IsEntitled-result id now t s (deleted_message, s1)
                          (simp (retry_send, here, somebody, there, own, gone) refl)
                          ((self, (m, (found, λ kept. ground (arith, gone, kept)))), looked)
                    | inr kept ↦ elim (Bool-cases (has_failed m.status)) [
                      | inr fine ↦
                          IsEntitled-result id now t s (not_failed, s1)
                            (simp (retry_send, here, somebody, there, own, kept, fine) refl)
                            ((self, (m, (found, λ was. ground (arith, fine, was)))), looked)
                      | inl bad ↦
                          IsEntitled-result id now t s (send_again se m now t s1)
                            (simp (retry_send, here, somebody, there, own, kept, bad) refl)
                            (IsEntitled-send_again id m now t s s1
                              (self, (m, (found, retryable m self own kept bad))))
                    ]
                  ]
                ]
          ]
        ]
      ]
