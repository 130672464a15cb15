-- ===== src/Status/Entries.antt =====
-- A property of every tracked entry is kept by all that changes entries in place: src/status.ts.
use mathlib.Core.Path.{subst}
use secure_chat_client.Prelude.JsMap
use secure_chat_client.Prelude.JsMap.{JsMap}
use secure_chat_client.Prelude.{
  ◌≡◌, ◌&&◌, some, List, [], ◌∷◌, Text, ◌==◌, arith, leb, inl, inr, Option-cases, Bool-cases,
}
use secure_chat_client.Status.{
  MessageStatus, sent, read, failed, Outbound, SendStatus, live, stored, dropped, error,
  PendingReceived, StatusTracker, rank, save, bump, force_set, same_status, note_error, acknowledge,
  delivery_status, pre_delivery, every_target_errored, apply_send_result, on_send_result,
  message_of, receive_one, on_received, read_one, read_all, on_read, upto, list_at, buffer_received,
  buffer_read, empty_tracker,
}
use secure_chat_client.Status.Buffers.{Call, track, network, apply_call, apply_calls}
use secure_chat_client.Status.Run.{send_result, received, read_up_to}
use secure_chat_client.Status.Track.{
  register, fresh_outbound, drain_receiveds, drain_reads, replay_receiveds, replay_reads,
}

abbrev pub Every : (Outbound → Type 0) → StatusTracker → Type 0
Every P t = (id : Text) (o : Outbound) → JsMap.lookup id t.outbound ≡ some o → P o

module _ (P : Outbound → Type 0)
    (fresh : (id peer : Text) (envelopes : JsMap Text) → P (fresh_outbound id peer envelopes))
    (status : (o : Outbound) (s : MessageStatus) → P o → P (record o { status = s }))
    (errored : (o : Outbound) (uuid : Text) → P o → P (note_error uuid o))
    (confirmed : (o : Outbound) (device : Text) → P o → P (acknowledge device o)) where
  save-Every :
      (k : Text) (o : Outbound) (t : StatusTracker) → P o → Every P t → Every P (save k o t)
  save-Every k o t p h id o' found = elim (Bool-cases (k == id)) [
    | inl same ↦ subst P (ground (arith, JsMap.lookup-insert k id o t.outbound)) p
    | inr other ↦ h id o' (ground (arith, JsMap.lookup-insert k id o t.outbound))
  ]

  bump-Every :
      (k : Text) (o : Outbound) (c : MessageStatus) (t : StatusTracker)
      → P o
      → Every P t
      → Every P (bump k o c t)
  unfolding bump
  bump-Every k o c t p h = elim (Bool-cases (leb (rank c) (rank o.status))) [
    | inl low ↦ rw low h
    | inr high ↦ rw high (save-Every k (record o { status = c }) t (status o c p) h)
  ]

  force_set-Every :
      (k : Text) (o : Outbound) (c : MessageStatus) (t : StatusTracker)
      → P o
      → Every P t
      → Every P (force_set k o c t)
  unfolding force_set
  force_set-Every k o c t p h = elim (Bool-cases (same_status o.status c)) [
    | inl same ↦ rw same h
    | inr other ↦ rw other (save-Every k (record o { status = c }) t (status o c p) h)
  ]

  apply_send_result-Every :
      (k : Text) (o : Outbound) (uuid : Text) (s : SendStatus) (t : StatusTracker)
      → P o
      → Every P t
      → Every P (apply_send_result k o uuid s t)
  unfolding apply_send_result
  apply_send_result-Every k o uuid live t p h = bump-Every k o sent t p h
  apply_send_result-Every k o uuid stored t p h = bump-Every k o sent t p h
  apply_send_result-Every k o uuid dropped t p h = h
  apply_send_result-Every k o uuid error t p h =
      let o' : Outbound = note_error uuid o in
      let t' : StatusTracker = save k o' t in
      let h' : Every P t' = save-Every k o' t (errored o uuid p) h in
      elim (Bool-cases (every_target_errored o' && pre_delivery o.status)) [
        | inl all_failed ↦ rw all_failed (force_set-Every k o' failed t' (errored o uuid p) h')
        | inr other ↦ rw other h'
      ]

  on_send_result-Every :
      (uuid : Text) (s : SendStatus) (t : StatusTracker)
      → Every P t
      → Every P (on_send_result uuid s t)
  unfolding on_send_result
  on_send_result-Every uuid s t h = elim (Option-cases (message_of uuid t)) [
    | inl unknown ↦ rw (unknown, on_send_result) h
    | inr (k, known) ↦ elim (Option-cases (JsMap.lookup k t.outbound)) [
      | inl untracked ↦ rw (known, on_send_result, untracked) h
      | inr (o, found) ↦
          rw (known, on_send_result, found) (apply_send_result-Every k o uuid s t (h k o found) h)
    ]
  ]

  receive_one-Every :
      (peer device : Text) (t : StatusTracker) (k : Text)
      → Every P t
      → Every P (receive_one peer device t k)
  unfolding receive_one buffer_received
  receive_one-Every peer device t k h = elim (Option-cases (JsMap.lookup k t.outbound)) [
    | inl unknown ↦ rw (unknown, receive_one) h
    | inr (o, found) ↦
        let o' : Outbound = acknowledge device o in
        let p : P o' = confirmed o device (h k o found) in
        elim (Bool-cases (o.peer_user_id == peer)) [
          | inl same ↦
              rw (found, receive_one, same)
                (bump-Every k o' (delivery_status o') (save k o' t) p (save-Every k o' t p h))
          | inr other ↦ rw (found, receive_one, other) h
        ]
  ]

  on_received-Every :
      (peer device : Text) (ids : List Text) (t : StatusTracker)
      → Every P t
      → Every P (on_received peer device ids t)
  unfolding on_received
  on_received-Every peer device [] t h = h
  on_received-Every peer device (k ∷ ids) t h =
      on_received-Every peer device ids (receive_one peer device t k)
        (receive_one-Every peer device t k h)

  read_all-Every : (ids : List Text) (t : StatusTracker) → Every P t → Every P (read_all ids t)
  unfolding read_all read_one
  read_all-Every [] t h = h
  read_all-Every (k ∷ ids) t h =
      read_all-Every ids (read_one t k) (elim (Option-cases (JsMap.lookup k t.outbound)) [
        | inl unknown ↦ rw (unknown, read_one) h
        | inr (o, found) ↦ rw (found, read_one) (bump-Every k o read t (h k o found) h)
      ])

  on_read-Every :
      (peer up_to_id : Text) (t : StatusTracker) → Every P t → Every P (on_read peer up_to_id t)
  unfolding on_read buffer_read
  on_read-Every peer up_to_id t h = elim (Option-cases (upto up_to_id (list_at peer t.by_peer))) [
    | inl unknown ↦ rw (unknown, on_read) h
    | inr (ids, known) ↦ rw (known, on_read) (read_all-Every ids t h)
  ]

  replay_receiveds-Every :
      (peer : Text) (es : List PendingReceived) (t : StatusTracker)
      → Every P t
      → Every P (replay_receiveds peer es t)
  unfolding replay_receiveds
  replay_receiveds-Every peer [] t h = h
  replay_receiveds-Every peer (e ∷ es) t h =
      let ids : List Text = e.message_id ∷ [] in
      replay_receiveds-Every peer es (on_received peer e.peer_device_id ids t)
        (on_received-Every peer e.peer_device_id ids t h)

  replay_reads-Every :
      (peer : Text) (ids : List Text) (t : StatusTracker)
      → Every P t
      → Every P (replay_reads peer ids t)
  unfolding replay_reads
  replay_reads-Every peer [] t h = h
  replay_reads-Every peer (id ∷ ids) t h =
      replay_reads-Every peer ids (on_read peer id t) (on_read-Every peer id t h)

  drain_receiveds-Every :
      (peer : Text) (t : StatusTracker) → Every P t → Every P (drain_receiveds peer t)
  unfolding drain_receiveds
  drain_receiveds-Every peer t h = elim (Option-cases (JsMap.lookup peer t.pending_receiveds)) [
    | inl nothing ↦ rw (nothing, drain_receiveds) h
    | inr (queued, found) ↦
        rw (found, drain_receiveds)
          (replay_receiveds-Every peer queued
            (record t { pending_receiveds = JsMap.erase peer t.pending_receiveds }) h)
  ]

  drain_reads-Every : (peer : Text) (t : StatusTracker) → Every P t → Every P (drain_reads peer t)
  unfolding drain_reads
  drain_reads-Every peer t h = elim (Option-cases (JsMap.lookup peer t.pending_reads)) [
    | inl nothing ↦ rw (nothing, drain_reads) h
    | inr (queued, found) ↦
        rw (found, drain_reads)
          (replay_reads-Every peer queued
            (record t { pending_reads = JsMap.erase peer t.pending_reads }) h)
  ]

  apply_call-Every : (c : Call) (t : StatusTracker) → Every P t → Every P (apply_call c t)
  unfolding apply_call register
  apply_call-Every (track id peer envelopes) t h =
      drain_reads-Every peer (drain_receiveds peer (register id peer envelopes t)) (
        drain_receiveds-Every peer (register id peer envelopes t)
          (save-Every id (fresh_outbound id peer envelopes) t (fresh id peer envelopes) h))
  apply_call-Every (network (send_result uuid s)) t h = on_send_result-Every uuid s t h
  apply_call-Every (network (received peer device ids)) t h = on_received-Every peer device ids t h
  apply_call-Every (network (read_up_to peer id)) t h = on_read-Every peer id t h

  apply_calls-Every : (cs : List Call) (t : StatusTracker) → Every P t → Every P (apply_calls cs t)
  unfolding apply_calls
  apply_calls-Every [] t h = h
  apply_calls-Every (c ∷ cs) t h = apply_calls-Every cs (apply_call c t) (apply_call-Every c t h)

  pub reachable-Every : (cs : List Call) → Every P (apply_calls cs empty_tracker)
  unfolding JsMap.lookup
  reachable-Every cs = apply_calls-Every cs empty_tracker (λ id o found. cc)
