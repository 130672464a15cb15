-- ===== src/Client/Guards.antt =====
-- Which edits and deletions are sent: src/index.ts, `editMessage`, `deleteMessage`.
use mathlib.Core.Path.{subst}
use secure_chat_client.Client.Calls.{
  Outcome, done, not_found, not_authorized, edit_window_expired, not_sent, draw, lookup_row,
  is_foreign, send_then, edit_message, at_ms, apply_own_edit, as_self,
}
use secure_chat_client.Client.Outgoing.{
  SendEnv, SendTimes, Sender, Sending, shipped, peer_unreachable, failed_to_send, send_content,
}
use secure_chat_client.Content.{SelfEchoableEvent, edit_window_ms, echoable}
use secure_chat_client.Content.Factories.{new_edit}
use secure_chat_client.Client.Outgoing.{silent}
use secure_chat_client.Messages.{StoredMessage}
use secure_chat_client.Prelude.{
  ℕ, ◌+◌, ◌*◌, ◌≤◌, ◌<◌, ◌≡◌, ◌⊎◌, eq_iff, refl, sym, true, false, none, some, Text, ltb, arith,
  inl, inr, Bool-cases, Option-cases,
}

-- Nothing was sent and nothing waits to be sent.
pub record IsUnsent {S K : Type 0} (s s' : Sender S K) : Type 0 where
  pub sent : s'.sent ≡ s.sent
  pub outbox : s'.outbox ≡ s.outbox
  pub shipments : s'.shipments ≡ s.shipments
  pub sessions : s'.receiver.sessions ≡ s.receiver.sessions
  pub drawn : s'.drawn ≡ s.drawn

pub Sending-cases :
    (out : Sending) → (out ≡ shipped) ⊎ ((out ≡ peer_unreachable) ⊎ (out ≡ failed_to_send))
Sending-cases shipped = inl refl
Sending-cases peer_unreachable = inr (inl refl)
Sending-cases failed_to_send = inr (inr refl)

module _ {S K : Type 0} (se : SendEnv S K) where
  -- The user wrote the message of the id.
  pub record IsOwn (target_id : Text) (s : Sender S K) (m : StoredMessage) : Type 0 where
    pub stored : (lookup_row se target_id s).0 ≡ some m
    pub own : s.receiver.client.self_user_id ≡ some m.sender_user_id

  -- An edit that was tried is of an own message of the last 24 hours, and one that was refused did
  -- not touch the wire.
  abbrev pub IsGuarded : Text → ℕ → Sender S K → Outcome → Sender S K → Type 0
  IsGuarded target_id now s (done id) s' =
      (m : StoredMessage) × (IsOwn target_id s m × (now ≤ m.sent_at + 24 * 60 * 60 * 1000))
  IsGuarded target_id now s (not_sent out) s' =
      (m : StoredMessage) × (IsOwn target_id s m × (now ≤ m.sent_at + 24 * 60 * 60 * 1000))
  IsGuarded target_id now s not_found s' = ((lookup_row se target_id s).0 ≡ none) × IsUnsent s s'
  IsGuarded target_id now s not_authorized s' =
      ((m : StoredMessage) × (((lookup_row se target_id s).0 ≡ some m)
          × ¬ (s.receiver.client.self_user_id ≡ some m.sender_user_id)))
      × IsUnsent s s'
  IsGuarded target_id now s edit_window_expired s' =
      ((m : StoredMessage) × (IsOwn target_id s m × (m.sent_at + 24 * 60 * 60 * 1000 < now)))
      × IsUnsent s s'

  is_own :
      (m : StoredMessage) (s : Sender S K)
      → is_foreign se m s ≡ false
      → s.receiver.client.self_user_id ≡ some m.sender_user_id
  is_own m s h = elim (Option-cases s.receiver.client.self_user_id) [
    | inl nobody ↦ ground (arith, nobody)
    | inr (self, here) ↦ ground (arith, here, eq_iff m.sender_user_id self)
  ]

  not_own :
      (m : StoredMessage) (s : Sender S K)
      → is_foreign se m s ≡ true
      → ¬ (s.receiver.client.self_user_id ≡ some m.sender_user_id)
  not_own m s h own = ground (arith, own, h, eq_iff m.sender_user_id m.sender_user_id)

  pub lookup_row-IsUnsent : (id : Text) (s : Sender S K) → IsUnsent s (lookup_row se id s).1
  lookup_row-IsUnsent id s = record {
    sent = refl;
    outbox = refl;
    shipments = refl;
    sessions = refl;
    drawn = refl;
  }

  -- A send ends with the id of the event or with the error of the wire.
  send_then-cases :
      (peer : Text) (event : SelfEchoableEvent) (id : Text) (now : ℕ) (t : SendTimes)
      (applied : Sender S K → Sender S K) (s : Sender S K)
      → ((send_then se peer event id now t applied s).0 ≡ done id)
        ⊎ ((out : Sending) × ((send_then se peer event id now t applied s).0 ≡ not_sent out))
  unfolding send_then
  send_then-cases peer event id now t applied s =
      elim (Sending-cases (send_content se peer (echoable event) silent t s).0) [
        | inl fine ↦ rw (send_then, fine) (inl refl)
        | inr (inl unreachable) ↦ rw (send_then, unreachable) (inr (peer_unreachable, refl))
        | inr (inr broken) ↦ rw (send_then, broken) (inr (failed_to_send, refl))
      ]

  -- What holds of the message, carried over to the outcome of the send.
  IsGuarded-send_then :
      (target_id peer id : Text) (event : SelfEchoableEvent) (now : ℕ) (t : SendTimes)
      (applied : Sender S K → Sender S K) (s s1 : Sender S K) (m : StoredMessage)
      → IsOwn target_id s m
      → now ≤ m.sent_at + 24 * 60 * 60 * 1000
      → IsGuarded target_id now s
          (send_then se peer event id now t applied s1).0
          (send_then se peer event id now t applied s1).1
  IsGuarded-send_then target_id peer id event now t applied s s1 m own recent =
      let r : Outcome × Sender S K = send_then se peer event id now t applied s1 in
      elim (send_then-cases peer event id now t applied s1) [
        | inl fine ↦ subst (λ o. IsGuarded target_id now s o r.1) (sym fine) (m, (own, recent))
        | inr (out, unsent) ↦
            subst (λ o. IsGuarded target_id now s o r.1) (sym unsent) (m, (own, recent))
      ]

  -- `editMessage` refuses exactly what it should, with the error of the reason: a message that is
  -- not stored, one that the user did not write, and one older than 24 hours. A refused edit sends
  -- nothing, queues nothing and draws no session; an edit that reaches the wire is of a stored
  -- message of the user of the last 24 hours.
  pub edit_message-IsGuarded :
      (peer target_id new_text : Text) (now : ℕ) (t : SendTimes) (s : Sender S K)
      → IsGuarded target_id now s
          (edit_message se peer target_id new_text now t s).0
          (edit_message se peer target_id new_text now t s).1
  unfolding edit_message
  edit_message-IsGuarded peer target_id new_text now t s =
      let s1 : Sender S K = (lookup_row se target_id s).1 in
      elim (Option-cases (lookup_row se target_id s).0) [
        | inl missing ↦ rw (edit_message, missing) (missing, lookup_row-IsUnsent target_id s)
        | inr (m, there) ↦ elim (Bool-cases (is_foreign se m s)) [
          | inl foreign ↦
              rw (edit_message, there, foreign)
                ((m, (there, not_own m s foreign)), lookup_row-IsUnsent target_id s)
          | inr own ↦ elim (Bool-cases (ltb (m.sent_at + edit_window_ms) now)) [
            | inl late ↦
                rw (edit_message, there, own, late)
                  (
                    (m, (record { stored = there; own = is_own m s own }, ground (arith, late))),
                    lookup_row-IsUnsent target_id s,
                  )
            | inr recent ↦
                rw (edit_message, there, own, recent)
                  (IsGuarded-send_then target_id peer (draw se s1).0
                    (new_edit (draw se s1).0 (at_ms now) target_id new_text) now t
                    (as_self se (apply_own_edit se target_id new_text now m.sent_at)) s
                    (draw se s1).1 m (record { stored = there; own = is_own m s own })
                    (ground (arith, recent)))
          ]
        ]
      ]
