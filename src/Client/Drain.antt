-- ===== src/Client/Drain.antt =====
-- The envelopes that wait on the server: src/index.ts, `drainPending`. The loop runs on fuel. The
-- calls do not overlap, so `drainingPending` is false when one starts.
use secure_chat_client.Client.Inbound.{
  PendingEnvelope, InboundEnv, Receiver, Envelope, drain, Handled, handled, interrupted,
  thrown_unknown_otk, thrown, Times, handle_inbound_ciphertext, set_sessions,
}
use secure_chat_client.Prelude.{ℕ, zero, suc, none, some, List, [], ◌∷◌, Text}

pub data Drained : Type 0 where
  drained : Drained
  rejected : Drained
  out_of_fuel : Drained

abbrev pub envelope_of : PendingEnvelope → Envelope
envelope_of p = record {
  envelope_uuid = p.envelope_uuid;
  peer_user_id = p.sender_user_id;
  peer_device_id = p.sender_device_id;
  ciphertext = p.ciphertext;
  msg_type = p.msg_type;
  source = drain;
}

-- What is done with an envelope is acknowledged, and so is one that can never be read.
abbrev pub note_ack : Text → Handled → List Text → List Text
note_ack uuid handled uuids = uuid ∷ uuids
note_ack uuid thrown_unknown_otk uuids = uuid ∷ uuids
note_ack uuid interrupted uuids = uuids
note_ack uuid thrown uuids = uuids

module _ {S K : Type 0} (ie : InboundEnv S K) (device_id : Text) (clock : Text → Times) where
  -- One page; the ids to acknowledge.
  unfoldable pub drain_page : List PendingEnvelope → Receiver S K → List Text × Receiver S K
  unfolding handle_inbound_ciphertext
  drain_page [] r = ([], r)
  drain_page (p ∷ ps) r =
      let (out, r1) = handle_inbound_ciphertext ie (envelope_of p) (clock p.envelope_uuid) r in
      let (uuids, r2) = drain_page ps r1 in (note_ack p.envelope_uuid out uuids, r2)

  abbrev pub set_outside : K → Receiver S K → Receiver S K
  set_outside w r = set_sessions (record r.sessions { outside = w }) r

  unfoldable pub drain_pending : ℕ → Receiver S K → Drained × Receiver S K
  unfolding drain_page
  drain_pending zero r = (out_of_fuel, r)
  drain_pending (suc fuel) r =
      let (page, w) = ie.pending_http.pending device_id 100 r.sessions.outside in
      let r1 : Receiver S K = set_outside w r in
      elim page [
        | none ↦ (rejected, r1)
        | some [] ↦ (drained, r1)
        | some (p ∷ ps) ↦
            let (uuids, r2) = drain_page (p ∷ ps) r1 in
            elim uuids [
              | [] ↦ (drained, r2)
              | u ∷ us ↦
                  let (acked, w') = ie.pending_http.ack device_id (u ∷ us) r2.sessions.outside in
                  let rest = drain_pending fuel (set_outside w' r2) in
                  elim acked [ none ↦ (rejected, set_outside w' r2) | some _ ↦ rest ]
            ]
      ]
