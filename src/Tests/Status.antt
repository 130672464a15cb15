-- ===== src/Tests/Status.antt =====
-- A message to two devices: src/status.ts.
use secure_chat_client.Prelude.JsMap
use secure_chat_client.Prelude.JsMap.{JsMap}
use secure_chat_client.Prelude.{
  ◌≡◌, refl, arith, true, some, List, [], ◌∷◌, Text, lit, if◌then◌else◌, ◌==◌,
}
use secure_chat_client.Status.{
  MessageStatus, sent, live, error, Outbound, StatusTracker, empty_tracker, on_received, on_read,
  list_at,
}
use secure_chat_client.Status.Track.{get_status}
use secure_chat_client.Status.Run.{Event, send_result, received, read_up_to, run, run-leads}
use secure_chat_client.Status.Ladder.{leads}
use secure_chat_client.Status.Reads.{covers, after_read, get_status-on_read}
use secure_chat_client.Status.Buffers.{Call, track, network, apply_calls}
use secure_chat_client.Status.Delivery.{IsConfirmed, on_received-IsConfirmed}

abbrev envelopes : JsMap Text
envelopes = (lit "e1", lit "d1") ∷ (lit "e2", lit "d2") ∷ []

abbrev calls : List Call
calls = track (lit "m") (lit "bob") envelopes ∷ network (send_result (lit "e1") live) ∷ []

-- The entry of the message after the calls.
abbrev entry : Outbound
entry = record {
  message_id = lit "m";
  peer_user_id = lit "bob";
  envelope_to_device = envelopes;
  peer_devices = lit "d1" ∷ lit "d2" ∷ [];
  received_from = [];
  total_envelopes = 2;
  errored_envelopes = [];
  status = sent;
}

entry_tracked : JsMap.lookup (lit "m") (apply_calls calls empty_tracker).outbound ≡ some entry
unfolding apply_calls JsMap.lookup ◌==◌
entry_tracked = refl

abbrev tracker : StatusTracker
tracker = apply_calls calls empty_tracker

tracker_status : get_status (lit "m") tracker ≡ some sent
unfolding get_status apply_calls ◌==◌
tracker_status = refl

abbrev events : List Event
events =
    send_result (lit "e2") error
    ∷ received (lit "bob") (lit "d1") (lit "m" ∷ [])
    ∷ read_up_to (lit "bob") (lit "m")
    ∷ []

run-leads_example :
    (s' : MessageStatus) × (get_status (lit "m") (run events tracker) ≡ some s')
    × (leads sent s' ≡ true)
run-leads_example = run-leads (lit "m") events tracker sent tracker_status

get_status-on_read_example : get_status (lit "m") (on_read (lit "bob") (lit "m") tracker) ≡ (
    if covers (lit "m") (lit "m") (list_at (lit "bob") tracker.by_peer)
    then after_read (get_status (lit "m") tracker)
    else get_status (lit "m") tracker)
get_status-on_read_example = get_status-on_read (lit "m") (lit "bob") (lit "m") tracker

on_received-IsConfirmed_example :
    (o' : Outbound) × (JsMap.lookup
        (lit "m")
        (on_received
          (lit "bob")
          (lit "d1")
          (lit "m" ∷ [])
          (apply_calls calls empty_tracker)).outbound
      ≡ some o')
    × IsConfirmed (lit "d1") o'
on_received-IsConfirmed_example =
    on_received-IsConfirmed calls (lit "m") (lit "d1") entry entry_tracked (omega arith)
