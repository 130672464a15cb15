-- ===== src/Status/Track.antt =====
-- `StatusTracker.trackOutbound` and `getStatus` of src/status.ts.
use secure_chat_client.Prelude.JsMap
use secure_chat_client.Prelude.JsMap.{JsMap}
use secure_chat_client.Prelude.JsSet
use secure_chat_client.Prelude.{Option, none, some, List, [], ◌∷◌, ◌++◌, Text, length}
use secure_chat_client.Status.{
  MessageStatus, pending, Outbound, PendingReceived, StatusTracker, list_at, on_received, on_read,
}

-- `new Set(values)`
unfoldable pub set_of : List Text → List Text → List Text
unfolding JsSet.add
set_of members [] = members
set_of members (x ∷ xs) = set_of (JsSet.add x members) xs

abbrev pub fresh_outbound : Text → Text → JsMap Text → Outbound
fresh_outbound id peer envelopes = record {
  message_id = id;
  peer_user_id = peer;
  envelope_to_device = envelopes;
  peer_devices = set_of [] (JsMap.values envelopes);
  received_from = [];
  total_envelopes = length envelopes;
  errored_envelopes = [];
  status = pending;
}

unfoldable pub index_envelopes : List Text → Text → JsMap Text → JsMap Text
unfolding JsMap.insert
index_envelopes [] id m = m
index_envelopes (uuid ∷ uuids) id m = index_envelopes uuids id (JsMap.insert uuid id m)

-- `trackOutbound` up to the replay of the buffers.
unfoldable pub register : Text → Text → JsMap Text → StatusTracker → StatusTracker
unfolding set_of index_envelopes
register id peer envelopes t = record t {
  outbound = JsMap.insert id (fresh_outbound id peer envelopes) t.outbound;
  envelope_to_message = index_envelopes (JsMap.keys envelopes) id t.envelope_to_message;
  by_peer = JsMap.insert peer (list_at peer t.by_peer ++ id ∷ []) t.by_peer;
}

unfoldable pub replay_receiveds : Text → List PendingReceived → StatusTracker → StatusTracker
unfolding on_received
replay_receiveds peer [] t = t
replay_receiveds peer (e ∷ es) t =
    replay_receiveds peer es (on_received peer e.peer_device_id (e.message_id ∷ []) t)

unfoldable pub replay_reads : Text → List Text → StatusTracker → StatusTracker
unfolding on_read
replay_reads peer [] t = t
replay_reads peer (id ∷ ids) t = replay_reads peer ids (on_read peer id t)

unfoldable pub drain_receiveds : Text → StatusTracker → StatusTracker
unfolding replay_receiveds JsMap.lookup JsMap.erase
drain_receiveds peer t = elim (JsMap.lookup peer t.pending_receiveds) [
  | none ↦ t
  | some queued ↦
      replay_receiveds peer queued
        (record t { pending_receiveds = JsMap.erase peer t.pending_receiveds })
]

unfoldable pub drain_reads : Text → StatusTracker → StatusTracker
unfolding replay_reads JsMap.lookup JsMap.erase
drain_reads peer t = elim (JsMap.lookup peer t.pending_reads) [
  | none ↦ t
  | some queued ↦
      replay_reads peer queued (record t { pending_reads = JsMap.erase peer t.pending_reads })
]

unfoldable pub track_outbound : Text → Text → JsMap Text → StatusTracker → StatusTracker
unfolding register drain_receiveds drain_reads
track_outbound id peer envelopes t =
    drain_reads peer (drain_receiveds peer (register id peer envelopes t))

unfoldable pub get_status : Text → StatusTracker → Option MessageStatus
unfolding JsMap.lookup
get_status id t = elim (JsMap.lookup id t.outbound) [ none ↦ none | some o ↦ some o.status ]
