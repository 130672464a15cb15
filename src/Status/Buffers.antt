-- ===== src/Status/Buffers.antt =====
-- The bound on the buffers of early events: src/status.ts, `bufferReceived` and `bufferRead`.
use secure_chat_client.Prelude.JsMap
use secure_chat_client.Prelude.JsMap.{JsMap}
use secure_chat_client.Prelude.{
  ◌≤◌, ◌≡◌, refl, List, [], ◌∷◌, ◌++◌, Text, ◌==◌, arith, inl, inr, Option-cases, Bool-cases,
  length,
}
use secure_chat_client.Status.{
  MessageStatus, sent, read, failed, Outbound, SendStatus, live, stored, dropped, error, save,
  note_error, acknowledge, delivery_status, push_capped, empty_tracker, StatusTracker,
  PendingReceived, bump, force_set, trim_buffer, pending_buffer_cap, list_at, buffer_received,
  buffer_read, apply_send_result, on_send_result, message_of, receive_one, on_received, read_one,
  read_all, on_read, upto,
}
use secure_chat_client.Status.Track.{
  track_outbound, register, drain_receiveds, drain_reads, replay_receiveds, replay_reads,
}
use secure_chat_client.Status.Run.{Event, send_result, received, read_up_to, apply_event}

length-trim_buffer {ℓ} : {A : Type ℓ} (l : List A) → length (trim_buffer l) ≤ pending_buffer_cap
unfolding trim_buffer
length-trim_buffer [] = omega arith
length-trim_buffer (x ∷ xs) = ground (arith, length-trim_buffer xs)

abbrev Capped {ℓ} : {A : Type ℓ} → JsMap (List A) → Type 0
Capped m = (peer : Text) → length (list_at peer m) ≤ pending_buffer_cap

push-Capped {ℓ} :
    {A : Type ℓ} (k : Text) (x : A) (m : JsMap (List A))
    → Capped m
    → Capped (JsMap.insert k (push_capped x (list_at k m)) m)
unfolding push_capped
push-Capped k x m h peer =
    rw (JsMap.lookup-insert k peer (push_capped x (list_at k m)) m, list_at)
      (ground (arith, h peer, length-trim_buffer (list_at k m ++ x ∷ [])))

erase-Capped {ℓ} :
    {A : Type ℓ} (k : Text) (m : JsMap (List A)) → Capped m → Capped (JsMap.erase k m)
erase-Capped k m h peer = rw (JsMap.lookup-erase k peer m, list_at) (ground (arith, h peer))

-- No buffer of any peer is longer than the cap.
pub record IsBounded (t : StatusTracker) : Type 0 where
  pub receiveds : (peer : Text) → length (list_at peer t.pending_receiveds) ≤ pending_buffer_cap
  pub reads : (peer : Text) → length (list_at peer t.pending_reads) ≤ pending_buffer_cap

abbrev SameBuffers : StatusTracker → StatusTracker → Type 0
SameBuffers t t' =
    (t'.pending_receiveds ≡ t.pending_receiveds) × (t'.pending_reads ≡ t.pending_reads)

IsBounded-of_same : (t t' : StatusTracker) → SameBuffers t t' → IsBounded t → IsBounded t'
IsBounded-of_same t t' (p, q) b = record {
  receiveds = λ peer. rw p (b.receiveds peer);
  reads = λ peer. rw q (b.reads peer);
}

bump-buffers :
    (k : Text) (o : Outbound) (c : MessageStatus) (t : StatusTracker) → SameBuffers t (bump k o c t)
unfolding bump
bump-buffers k o c t = ground arith

force_set-buffers :
    (k : Text) (o : Outbound) (c : MessageStatus) (t : StatusTracker)
    → SameBuffers t (force_set k o c t)
unfolding force_set
force_set-buffers k o c t = ground arith

buffer_received-IsBounded :
    (peer device id : Text) (t : StatusTracker)
    → IsBounded t
    → IsBounded (buffer_received peer device id t)
unfolding buffer_received
buffer_received-IsBounded peer device id t b = record {
  receiveds = push-Capped peer _ t.pending_receiveds b.receiveds;
  reads = b.reads;
}

buffer_read-IsBounded :
    (peer id : Text) (t : StatusTracker) → IsBounded t → IsBounded (buffer_read peer id t)
unfolding buffer_read
buffer_read-IsBounded peer id t b = record {
  receiveds = b.receiveds;
  reads = push-Capped peer id t.pending_reads b.reads;
}

apply_send_result-buffers :
    (k : Text) (o : Outbound) (uuid : Text) (s : SendStatus) (t : StatusTracker)
    → SameBuffers t (apply_send_result k o uuid s t)
unfolding apply_send_result
apply_send_result-buffers k o uuid live t = bump-buffers k o sent t
apply_send_result-buffers k o uuid stored t = bump-buffers k o sent t
apply_send_result-buffers k o uuid dropped t = (refl, refl)
apply_send_result-buffers k o uuid error t =
    ground (arith, force_set-buffers k (note_error uuid o) failed (save k (note_error uuid o) t))

on_send_result-IsBounded :
    (uuid : Text) (s : SendStatus) (t : StatusTracker)
    → IsBounded t
    → IsBounded (on_send_result uuid s t)
unfolding on_send_result
on_send_result-IsBounded uuid s t b = elim (Option-cases (message_of uuid t)) [
  | inl unknown ↦ rw (unknown, on_send_result) b
  | inr (k, known) ↦ elim (Option-cases (JsMap.lookup k t.outbound)) [
    | inl untracked ↦ rw (known, on_send_result, untracked) b
    | inr (o, found) ↦
        rw (known, on_send_result, found)
          (IsBounded-of_same t _ (apply_send_result-buffers k o uuid s t) b)
  ]
]

receive_one-IsBounded :
    (peer device : Text) (t : StatusTracker) (k : Text)
    → IsBounded t
    → IsBounded (receive_one peer device t k)
unfolding receive_one
receive_one-IsBounded peer device t k b = elim (Option-cases (JsMap.lookup k t.outbound)) [
  | inl unknown ↦ rw (unknown, receive_one) (buffer_received-IsBounded peer device k t b)
  | inr (o, found) ↦
      let o' : Outbound = acknowledge device o in
      elim (Bool-cases (o.peer_user_id == peer)) [
        | inl same ↦
            rw (found, receive_one, same)
              (IsBounded-of_same t _ (bump-buffers k o' (delivery_status o') (save k o' t)) b)
        | inr other ↦ rw (found, receive_one, other) b
      ]
]

on_received-IsBounded :
    (peer device : Text) (ids : List Text) (t : StatusTracker)
    → IsBounded t
    → IsBounded (on_received peer device ids t)
unfolding on_received
on_received-IsBounded peer device [] t b = b
on_received-IsBounded peer device (k ∷ ids) t b =
    on_received-IsBounded peer device ids (receive_one peer device t k)
      (receive_one-IsBounded peer device t k b)

read_one-buffers : (t : StatusTracker) (k : Text) → SameBuffers t (read_one t k)
unfolding read_one
read_one-buffers t k = elim (Option-cases (JsMap.lookup k t.outbound)) [
  | inl unknown ↦ rw (unknown, read_one) (refl, refl)
  | inr (o, found) ↦ rw (found, read_one) (bump-buffers k o read t)
]

read_all-IsBounded :
    (ids : List Text) (t : StatusTracker) → IsBounded t → IsBounded (read_all ids t)
unfolding read_all
read_all-IsBounded [] t b = b
read_all-IsBounded (k ∷ ids) t b =
    read_all-IsBounded ids (read_one t k) (IsBounded-of_same t _ (read_one-buffers t k) b)

on_read-IsBounded :
    (peer up_to_id : Text) (t : StatusTracker) → IsBounded t → IsBounded (on_read peer up_to_id t)
unfolding on_read
on_read-IsBounded peer up_to_id t b = elim (Option-cases (upto up_to_id (list_at peer t.by_peer))) [
  | inl unknown ↦ rw (unknown, on_read) (buffer_read-IsBounded peer up_to_id t b)
  | inr (ids, known) ↦ rw (known, on_read) (read_all-IsBounded ids t b)
]

replay_receiveds-IsBounded :
    (peer : Text) (es : List PendingReceived) (t : StatusTracker)
    → IsBounded t
    → IsBounded (replay_receiveds peer es t)
unfolding replay_receiveds
replay_receiveds-IsBounded peer [] t b = b
replay_receiveds-IsBounded peer (e ∷ es) t b =
    replay_receiveds-IsBounded peer es _
      (on_received-IsBounded peer e.peer_device_id (e.message_id ∷ []) t b)

replay_reads-IsBounded :
    (peer : Text) (ids : List Text) (t : StatusTracker)
    → IsBounded t
    → IsBounded (replay_reads peer ids t)
unfolding replay_reads
replay_reads-IsBounded peer [] t b = b
replay_reads-IsBounded peer (id ∷ ids) t b =
    replay_reads-IsBounded peer ids (on_read peer id t) (on_read-IsBounded peer id t b)

drain_receiveds-IsBounded :
    (peer : Text) (t : StatusTracker) → IsBounded t → IsBounded (drain_receiveds peer t)
unfolding drain_receiveds
drain_receiveds-IsBounded peer t b = elim (Option-cases (JsMap.lookup peer t.pending_receiveds)) [
  | inl nothing ↦ rw (nothing, drain_receiveds) b
  | inr (queued, found) ↦
      rw (found, drain_receiveds)
        (replay_receiveds-IsBounded peer queued
          (record t { pending_receiveds = JsMap.erase peer t.pending_receiveds })
          (record {
            receiveds = erase-Capped peer t.pending_receiveds b.receiveds;
            reads = b.reads;
          }))
]

drain_reads-IsBounded :
    (peer : Text) (t : StatusTracker) → IsBounded t → IsBounded (drain_reads peer t)
unfolding drain_reads
drain_reads-IsBounded peer t b = elim (Option-cases (JsMap.lookup peer t.pending_reads)) [
  | inl nothing ↦ rw (nothing, drain_reads) b
  | inr (queued, found) ↦
      rw (found, drain_reads)
        (replay_reads-IsBounded peer queued
          (record t { pending_reads = JsMap.erase peer t.pending_reads })
          (record { receiveds = b.receiveds; reads = erase-Capped peer t.pending_reads b.reads }))
]

track_outbound-IsBounded :
    (id peer : Text) (envelopes : JsMap Text) (t : StatusTracker)
    → IsBounded t
    → IsBounded (track_outbound id peer envelopes t)
unfolding track_outbound register
track_outbound-IsBounded id peer envelopes t b =
    drain_reads-IsBounded peer (drain_receiveds peer (register id peer envelopes t)) (
      drain_receiveds-IsBounded peer (register id peer envelopes t)
        (record { receiveds = b.receiveds; reads = b.reads }))

-- Every call of the tracker.
pub data Call : Type 0 where
  track : Text → Text → JsMap Text → Call
  network : Event → Call

unfoldable pub apply_call : Call → StatusTracker → StatusTracker
unfolding track_outbound apply_event
apply_call (track id peer envelopes) = track_outbound id peer envelopes
apply_call (network e) = apply_event e

unfoldable pub apply_calls : List Call → StatusTracker → StatusTracker
unfolding apply_call
apply_calls [] t = t
apply_calls (c ∷ cs) t = apply_calls cs (apply_call c t)

apply_call-IsBounded : (c : Call) (t : StatusTracker) → IsBounded t → IsBounded (apply_call c t)
unfolding apply_call
apply_call-IsBounded (track id peer envelopes) t b = track_outbound-IsBounded id peer envelopes t b
apply_call-IsBounded (network (send_result uuid s)) t b = on_send_result-IsBounded uuid s t b
apply_call-IsBounded (network (received peer device ids)) t b =
    on_received-IsBounded peer device ids t b
apply_call-IsBounded (network (read_up_to peer id)) t b = on_read-IsBounded peer id t b

apply_calls-IsBounded :
    (cs : List Call) (t : StatusTracker) → IsBounded t → IsBounded (apply_calls cs t)
unfolding apply_calls
apply_calls-IsBounded [] t b = b
apply_calls-IsBounded (c ∷ cs) t b =
    apply_calls-IsBounded cs (apply_call c t) (apply_call-IsBounded c t b)

-- Over any sequence of calls from the empty tracker, the replays of `trackOutbound` included, the
-- buffer of early `received` events and that of early `read` events of each peer hold at most 100
-- entries.
pub buffers-IsBounded : (cs : List Call) → IsBounded (apply_calls cs empty_tracker)
unfolding JsMap.lookup
buffers-IsBounded cs =
    apply_calls-IsBounded cs empty_tracker
      (record { receiveds = λ peer. omega arith; reads = λ peer. omega arith })
