-- ===== src/Status/Ladder.antt =====
-- The order in which the status of a message moves: src/status.ts, `bump`, `forceSet` and the
-- handlers that call them.
use mathlib.Core.Bool.{and-eq-true_iff}
use secure_chat_client.Prelude.JsMap
use secure_chat_client.Prelude.{
  ◌≡◌, refl, Bool, true, false, ◌&&◌, Option, none, some, List, [], ◌∷◌, Text, ◌==◌, eq_iff, arith,
  leb, inl, inr, Option-cases, Bool-cases,
}
use secure_chat_client.Status.{
  MessageStatus, pending, sent, delivered, delivered_all, read, failed, SendStatus, live, stored,
  dropped, error, Outbound, StatusTracker, rank, pre_delivery, save, bump, force_set, same_status,
  note_error, every_target_errored, read_one, apply_send_result, on_send_result, message_of,
  receive_one, on_received, read_all, on_read, buffer_received, buffer_read, upto, list_at,
  acknowledge, delivery_status,
}

-- The moves along the ladder: nothing goes back, and only a message that no device of the peer
-- has confirmed becomes failed.
abbrev pub leads : MessageStatus → MessageStatus → Bool
leads failed failed = true
leads pending failed = true
leads sent failed = true
leads delivered failed = false
leads delivered_all failed = false
leads read failed = false
leads s s' = leb (rank s) (rank s')

-- A tracked message stays tracked, and its status moves along the ladder.
abbrev pub leads_entry : Option Outbound → Option Outbound → Bool
leads_entry none e = true
leads_entry (some o) none = false
leads_entry (some o) (some o') = leads o.status o'.status

leads_refl : (s : MessageStatus) → leads s s ≡ true
leads_refl pending = refl
leads_refl _ = refl

leads_trans :
    (s s' s'' : MessageStatus) → leads s s' ≡ true → leads s' s'' ≡ true → leads s s'' ≡ true
leads_trans pending pending s'' p q = q
leads_trans _ _ _ p q = ground arith

leads_entry_refl : (e : Option Outbound) → leads_entry e e ≡ true
leads_entry_refl none = refl
leads_entry_refl (some o) = leads_refl o.status

leads_entry_trans :
    (e e' e'' : Option Outbound)
    → leads_entry e e' ≡ true
    → leads_entry e' e'' ≡ true
    → leads_entry e e'' ≡ true
leads_entry_trans none e' e'' p q = refl
leads_entry_trans (some o) none e'' p q = cc
leads_entry_trans (some o) (some o') none p q = cc
leads_entry_trans (some o) (some o') (some o'') p q = leads_trans o.status o'.status o''.status p q

buffer_received-outbound :
    (peer device id : Text) (t : StatusTracker)
    → (buffer_received peer device id t).outbound ≡ t.outbound
unfolding buffer_received
buffer_received-outbound peer device id t = refl

buffer_read-outbound :
    (peer id : Text) (t : StatusTracker) → (buffer_read peer id t).outbound ≡ t.outbound
unfolding buffer_read
buffer_read-outbound peer id t = refl

climbs :
    (s c : MessageStatus) → leads c read ≡ true → leb (rank c) (rank s) ≡ false → leads s c ≡ true
climbs s c p q = ground arith

fails : (s : MessageStatus) → pre_delivery s ≡ true → leads s failed ≡ true
fails s p = ground arith

abbrev pub Leads : Text → StatusTracker → StatusTracker → Type 0
Leads id t t' = leads_entry (JsMap.lookup id t.outbound) (JsMap.lookup id t'.outbound) ≡ true

module _ (id : Text) where
  pub Leads-trans : (t t' t'' : StatusTracker) → Leads id t t' → Leads id t' t'' → Leads id t t''
  Leads-trans t t' t'' =
      leads_entry_trans (JsMap.lookup id t.outbound) (JsMap.lookup id t'.outbound)
        (JsMap.lookup id t''.outbound)

  pub Leads-refl : (t t' : StatusTracker) → t'.outbound ≡ t.outbound → Leads id t t'
  Leads-refl t t' e = rw e (leads_entry_refl (JsMap.lookup id t.outbound))

  save-Leads :
      (k : Text) (o o' : Outbound) (t : StatusTracker)
      → JsMap.lookup k t.outbound ≡ some o
      → leads o.status o'.status ≡ true
      → Leads id t (save k o' t)
  save-Leads k o o' t found h =
      rw (JsMap.lookup-insert k id o' t.outbound)
        (ground (arith, eq_iff k id, leads_entry_refl (JsMap.lookup id t.outbound)))

  bump-Leads :
      (k : Text) (o : Outbound) (c : MessageStatus) (t : StatusTracker)
      → JsMap.lookup k t.outbound ≡ some o
      → leads c read ≡ true
      → Leads id t (bump k o c t)
  unfolding bump
  bump-Leads k o c t found h = elim (Bool-cases (leb (rank c) (rank o.status))) [
    | inl low ↦ rw low (Leads-refl t t refl)
    | inr high ↦
        rw high (save-Leads k o (record o { status = c }) t found (climbs o.status c h high))
  ]

  force_set-Leads :
      (k : Text) (o : Outbound) (t : StatusTracker)
      → JsMap.lookup k t.outbound ≡ some o
      → pre_delivery o.status ≡ true
      → Leads id t (force_set k o failed t)
  unfolding force_set
  force_set-Leads k o t found h = elim (Bool-cases (same_status o.status failed)) [
    | inl same ↦ rw same (Leads-refl t t refl)
    | inr other ↦
        rw other (save-Leads k o (record o { status = failed }) t found (fails o.status h))
  ]

  -- The change of an object in place, and then a `bump`.
  save-bump-Leads :
      (k : Text) (o o' : Outbound) (c : MessageStatus) (t : StatusTracker)
      → JsMap.lookup k t.outbound ≡ some o
      → o'.status ≡ o.status
      → leads c read ≡ true
      → Leads id t (bump k o' c (save k o' t))
  save-bump-Leads k o o' c t found same h =
      Leads-trans t (save k o' t) (bump k o' c (save k o' t))
        (save-Leads k o o' t found (rw same (leads_refl o.status)))
        (bump-Leads k o' c (save k o' t) (JsMap.lookup-insert_self k o' t.outbound) h)

  delivery_status-leads : (o : Outbound) → leads (delivery_status o) read ≡ true
  delivery_status-leads o = ground arith

  apply_send_result-Leads :
      (k : Text) (o : Outbound) (uuid : Text) (s : SendStatus) (t : StatusTracker)
      → JsMap.lookup k t.outbound ≡ some o
      → Leads id t (apply_send_result k o uuid s t)
  unfolding apply_send_result
  apply_send_result-Leads k o uuid live t found = bump-Leads k o sent t found refl
  apply_send_result-Leads k o uuid stored t found = bump-Leads k o sent t found refl
  apply_send_result-Leads k o uuid dropped t found = Leads-refl t t refl
  apply_send_result-Leads k o uuid error t found =
      let o' : Outbound = note_error uuid o in
      let t' : StatusTracker = save k o' t in
      let kept : Leads id t t' = save-Leads k o o' t found (leads_refl o.status) in
      elim (Bool-cases (every_target_errored o' && pre_delivery o.status)) [
        | inl all_failed ↦ rw all_failed (
            Leads-trans t t' (force_set k o' failed t') kept (
              force_set-Leads k o' t' (JsMap.lookup-insert_self k o' t.outbound)
                ((and-eq-true_iff _ _).0 all_failed).1))
        | inr other ↦ rw other kept
      ]

  pub on_send_result-Leads :
      (uuid : Text) (s : SendStatus) (t : StatusTracker) → Leads id t (on_send_result uuid s t)
  unfolding on_send_result
  on_send_result-Leads uuid s t = elim (Option-cases (message_of uuid t)) [
    | inl unknown ↦ rw (unknown, on_send_result) (Leads-refl t t refl)
    | inr (k, known) ↦ elim (Option-cases (JsMap.lookup k t.outbound)) [
      | inl untracked ↦ rw (known, on_send_result, untracked) (Leads-refl t t refl)
      | inr (o, found) ↦
          rw (known, on_send_result, found) (apply_send_result-Leads k o uuid s t found)
    ]
  ]

  receive_one-Leads :
      (peer device : Text) (t : StatusTracker) (k : Text) → Leads id t (receive_one peer device t k)
  unfolding receive_one
  receive_one-Leads peer device t k = elim (Option-cases (JsMap.lookup k t.outbound)) [
    | inl unknown ↦
        rw (unknown, receive_one)
          (Leads-refl t (buffer_received peer device k t)
            (buffer_received-outbound peer device k t))
    | inr (o, found) ↦ elim (Bool-cases (o.peer_user_id == peer)) [
      | inl same ↦
          let o' : Outbound = acknowledge device o in
          rw (found, receive_one, same)
            (save-bump-Leads k o o' (delivery_status o') t found refl (delivery_status-leads o'))
      | inr other ↦ rw (found, receive_one, other) (Leads-refl t t refl)
    ]
  ]

  pub on_received-Leads :
      (peer device : Text) (ids : List Text) (t : StatusTracker)
      → Leads id t (on_received peer device ids t)
  unfolding on_received
  on_received-Leads peer device [] t = Leads-refl t t refl
  on_received-Leads peer device (k ∷ ids) t =
      Leads-trans t (receive_one peer device t k) (on_received peer device (k ∷ ids) t)
        (receive_one-Leads peer device t k)
        (on_received-Leads peer device ids (receive_one peer device t k))

  read_one-Leads : (t : StatusTracker) (k : Text) → Leads id t (read_one t k)
  unfolding read_one
  read_one-Leads t k = elim (Option-cases (JsMap.lookup k t.outbound)) [
    | inl unknown ↦ rw (unknown, read_one) (Leads-refl t t refl)
    | inr (o, found) ↦ rw (found, read_one) (bump-Leads k o read t found refl)
  ]

  read_all-Leads : (ids : List Text) (t : StatusTracker) → Leads id t (read_all ids t)
  unfolding read_all
  read_all-Leads [] t = Leads-refl t t refl
  read_all-Leads (k ∷ ids) t =
      Leads-trans t (read_one t k) (read_all (k ∷ ids) t) (read_one-Leads t k)
        (read_all-Leads ids (read_one t k))

  pub on_read-Leads :
      (peer up_to_id : Text) (t : StatusTracker) → Leads id t (on_read peer up_to_id t)
  unfolding on_read
  on_read-Leads peer up_to_id t = elim (Option-cases (upto up_to_id (list_at peer t.by_peer))) [
    | inl unknown ↦
        rw (unknown, on_read)
          (Leads-refl t (buffer_read peer up_to_id t) (buffer_read-outbound peer up_to_id t))
    | inr (ids, known) ↦ rw (known, on_read) (read_all-Leads ids t)
  ]
