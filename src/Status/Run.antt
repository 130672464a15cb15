-- ===== src/Status/Run.antt =====
-- A tracker over a sequence of events, and the status of a message along it.
use secure_chat_client.Prelude.JsMap
use secure_chat_client.Prelude.{
  ◌≡◌, refl, true, some, List, [], ◌∷◌, Text, arith, inl, inr, Option-cases,
}
use secure_chat_client.Status.{
  MessageStatus, SendStatus, StatusTracker, on_send_result, on_received, on_read,
}
use secure_chat_client.Status.Ladder.{
  leads, Leads, Leads-refl, Leads-trans, on_send_result-Leads, on_received-Leads, on_read-Leads,
}
use secure_chat_client.Status.Track.{get_status}

-- What the network delivers to the tracker.
pub data Event : Type 0 where
  send_result : Text → SendStatus → Event
  received : Text → Text → List Text → Event
  read_up_to : Text → Text → Event

unfoldable pub apply_event : Event → StatusTracker → StatusTracker
unfolding on_send_result on_received on_read
apply_event (send_result uuid s) = on_send_result uuid s
apply_event (received peer device ids) = on_received peer device ids
apply_event (read_up_to peer id) = on_read peer id

unfoldable pub run : List Event → StatusTracker → StatusTracker
unfolding apply_event
run [] t = t
run (e ∷ es) t = run es (apply_event e t)

run-Leads : (id : Text) (es : List Event) (t : StatusTracker) → Leads id t (run es t)
unfolding run
run-Leads id [] t = Leads-refl id t t refl
run-Leads id (send_result uuid s ∷ es) t =
    Leads-trans id t (on_send_result uuid s t) (run (send_result uuid s ∷ es) t)
      (on_send_result-Leads id uuid s t) (run-Leads id es (on_send_result uuid s t))
run-Leads id (received peer device ids ∷ es) t =
    Leads-trans id t (on_received peer device ids t) (run (received peer device ids ∷ es) t)
      (on_received-Leads id peer device ids t) (run-Leads id es (on_received peer device ids t))
run-Leads id (read_up_to peer k ∷ es) t =
    Leads-trans id t (on_read peer k t) (run (read_up_to peer k ∷ es) t) (on_read-Leads id peer k t)
      (run-Leads id es (on_read peer k t))

status_leads :
    (id : Text) (t t' : StatusTracker) (s : MessageStatus)
    → Leads id t t'
    → get_status id t ≡ some s
    → (s' : MessageStatus) × (get_status id t' ≡ some s') × (leads s s' ≡ true)
unfolding get_status
status_leads id t t' s h e = elim (Option-cases (JsMap.lookup id t'.outbound)) [
  | inl gone ↦ absurd (ground arith)
  | inr (o', found) ↦ (o'.status, ground arith, ground arith)
]

-- Over any sequence of send results, `received` events and `read` events a tracked message stays
-- tracked, its status never goes back, `failed` is final, and a message that was confirmed by a
-- device of the peer or read never becomes failed.
pub run-leads :
    (id : Text) (es : List Event) (t : StatusTracker) (s : MessageStatus)
    → get_status id t ≡ some s
    → (s' : MessageStatus) × (get_status id (run es t) ≡ some s') × (leads s s' ≡ true)
run-leads id es t s e = status_leads id t (run es t) s (run-Leads id es t) e
