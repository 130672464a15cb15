-- ===== src/Client/Inbound.antt =====
-- What arrives: src/index.ts, `onFrame`, `handleInboundCiphertext`, `maybeAnnouncePeerDevice` and
-- `drainPending`. Frames and pages are handled one after the other. A dispatch may throw half-way,
-- with any client left behind (`interrupts`); elsewhere the storage does not fail.
use secure_chat_client.Bundles.{Action}
use secure_chat_client.Client.{Env, Client, peer_new_device, device_key, dispatch, tracked}
use secure_chat_client.Client.Dispatch.{dispatch_inbound_event}
use secure_chat_client.Content.{JsonText, ContentEvent, decode_event}
use secure_chat_client.Dedup.{EnvelopeDedup, has, add, remove}
use secure_chat_client.Devices.{
  PeerDeviceMeta, PeerDeviceCache, get_peer_devices, refresh, invalidate,
}
use secure_chat_client.Prelude.JsMap.{JsMap}
use secure_chat_client.Prelude.JsSet
use secure_chat_client.Prelude.{
  ℕ, Bool, Option, none, some, List, [], ◌∷◌, ◌++◌, Text, ◌==◌, if◌then◌else◌,
}
use secure_chat_client.Sessions.{
  SessionCrypto, SessionHttp, SessionManagerOptions, SessionManager, MsgType, Decrypted, plain,
  unknown_one_time_key, broken, decrypt, forget_peer_device, refresh_peer_bundles,
}
use secure_chat_client.Status.{SendStatus, on_send_result}

-- `http.pending` and `http.ack`.
pub record PendingEnvelope : Type 0 where
  pub envelope_uuid : Text
  pub sender_user_id : Text
  pub sender_device_id : Text
  pub ciphertext : Text
  pub msg_type : MsgType
  pub received_at : ℕ

pub record PendingHttp (K : Type 0) : Type 0 where
  pub pending : Text → ℕ → Action K (List PendingEnvelope)
  pub ack : Text → List Text → Action K Unit

pub record InboundEnv (S K : Type 0) : Type 0 where
  pub env : Env S
  pub crypto : SessionCrypto K
  pub http : SessionHttp K
  pub pending_http : PendingHttp K
  pub options : SessionManagerOptions
  pub json : JsonText
  -- `TextDecoder` after `TextEncoder`
  pub recode : Text → Text
  -- The dispatch of the event at the time throws, and leaves this client.
  pub interrupts : ContentEvent → ℕ → Client S → Option (Client S)

pub data Source : Type 0 where
  live : Source
  drain : Source

pub record Envelope : Type 0 where
  pub envelope_uuid : Text
  pub peer_user_id : Text
  pub peer_device_id : Text
  pub ciphertext : Text
  pub msg_type : MsgType
  pub source : Source

pub record ChatEnvelopeAckFrame : Type 0 where
  pub envelope_uuid : Text
  pub sender_user_id : Text
  pub sender_device_id : Text

pub record ChatSendResult : Type 0 where
  pub envelope_uuid : Text
  pub status : SendStatus

pub data InboundFrame : Type 0 where
  chat_envelope : Text → Text → Text → Text → MsgType → InboundFrame
  chat_send_result : List ChatSendResult → InboundFrame
  chat_pong : InboundFrame

-- The client with its sessions and the memory of envelopes, which keeps its ids in the same store.
pub record Receiver (S K : Type 0) : Type 0 where
  pub client : Client S
  pub sessions : SessionManager K
  pub processed : JsMap ℕ
  pub initialized : Bool
  pub ws_open : Bool
  -- the frames sent on the socket
  pub acks : List ChatEnvelopeAckFrame

-- How a handler ends; an error of the decryption is told apart by `isUnknownOtkError`, `interrupted`
-- is an error of the dispatch.
pub data Handled : Type 0 where
  handled : Handled
  interrupted : Handled
  thrown_unknown_otk : Handled
  thrown : Handled

-- What `Date.now()` gives in the course of one envelope.
pub record Times : Type 0 where
  pub added_at : ℕ
  pub recovered_at : ℕ
  pub looked_up_at : ℕ
  pub listed_at : ℕ
  pub relisted_at : ℕ
  pub dispatched_at : ℕ
  pub done_at : ℕ

abbrev pub dedup_of : {S K : Type 0} → Receiver S K → EnvelopeDedup S
dedup_of r = record { cache = r.processed; initialized = r.initialized; store = r.client.store }

abbrev pub with_dedup : {S K : Type 0} → EnvelopeDedup S → Receiver S K → Receiver S K
with_dedup d r = record r {
  client = record r.client { store = d.store };
  processed = d.cache;
  initialized = d.initialized;
}

abbrev pub set_client : {S K : Type 0} → Client S → Receiver S K → Receiver S K
set_client c r = record r { client = c }

abbrev pub set_sessions : {S K : Type 0} → SessionManager K → Receiver S K → Receiver S K
set_sessions m r = record r { sessions = m }

-- `ws.sendEnvelopeAck`
unfoldable pub send_envelope_ack : {S K : Type 0} → Envelope → Receiver S K → Receiver S K
send_envelope_ack e r =
    if r.ws_open
    then record r {
      acks =
          r.acks
          ++ (record {
            envelope_uuid = e.envelope_uuid;
            sender_user_id = e.peer_user_id;
            sender_device_id = e.peer_device_id;
          })
            ∷ [];
    }
    else r

unfoldable pub ack_live : {S K : Type 0} → Envelope → Receiver S K → Receiver S K
unfolding send_envelope_ack
ack_live e r = elim e.source [ live ↦ send_envelope_ack e r | drain ↦ r ]

unfoldable pub find_device : Text → List PeerDeviceMeta → Option PeerDeviceMeta
find_device id [] = none
find_device id (d ∷ ds) = let rest = find_device id ds in if d.device_id == id then some d else rest

module _ {S K : Type 0} (ie : InboundEnv S K) where
  abbrev pub announce : Text → Text → PeerDeviceMeta → Receiver S K → Receiver S K
  announce peer device found r =
      let c : Client S = record r.client {
        announced = JsSet.add (device_key peer device) r.client.announced;
      } in
      record r {
        client = dispatch (peer_new_device peer device found.fingerprint) c;
        sessions = (refresh_peer_bundles ie.crypto ie.http ie.options peer r.sessions).1;
      }

  abbrev pub with_devices : PeerDeviceCache → Receiver S K → Receiver S K
  with_devices cache r = set_client (record r.client { peer_devices = cache }) r

  -- The cache does not name the device: the list is fetched again.
  unfoldable pub announce_refreshed : Text → Text → Times → Receiver S K → Receiver S K
  unfolding refresh find_device refresh_peer_bundles JsSet.add
  announce_refreshed peer device t r =
      let (fresh, cache) = refresh ie.env.http peer t.relisted_at r.client.peer_devices in
      let r1 : Receiver S K = with_devices cache r in
      elim fresh [
        | none ↦ r1
        | some devices ↦ elim (find_device device devices) [
          | none ↦ r1
          | some found ↦ announce peer device found r1
        ]
      ]

  unfoldable pub maybe_announce_peer_device : Text → Text → Times → Receiver S K → Receiver S K
  unfolding get_peer_devices find_device refresh_peer_bundles JsSet.add JsSet.contains
      announce_refreshed
  maybe_announce_peer_device peer device t r =
      if JsSet.contains (device_key peer device) r.client.announced
      then r
      else let (known, cache) =
          get_peer_devices ie.env.http none peer t.looked_up_at t.listed_at r.client.peer_devices in
        let r1 : Receiver S K = with_devices cache r in
        elim known [
          | none ↦ r1
          | some devices ↦ elim (find_device device devices) [
            | none ↦ announce_refreshed peer device t r1
            | some found ↦ announce peer device found r1
          ]
        ]

  abbrev pub decrypt_envelope : Envelope → Receiver S K → Decrypted × Receiver S K
  decrypt_envelope e r =
      let (out, m) =
        decrypt ie.crypto ie.http ie.options e.peer_user_id e.peer_device_id e.ciphertext e.msg_type
          r.sessions in
      (out, set_sessions m r)

  -- The recovery after a failed decryption: the session and the known devices are dropped.
  unfoldable pub forget_sender : Envelope → Times → Receiver S K → Receiver S K
  unfolding forget_peer_device invalidate refresh
  forget_sender e t r =
      let r1 : Receiver S K =
        set_sessions
          (forget_peer_device ie.crypto ie.http ie.options e.peer_user_id e.peer_device_id
            r.sessions)
          r in
      with_devices
        (refresh ie.env.http e.peer_user_id t.recovered_at
          (invalidate e.peer_user_id r1.client.peer_devices)).1
        r1

  -- The plaintext, or the first error; a second attempt follows the recovery.
  unfoldable pub decrypt_or_recover : Envelope → Times → Receiver S K → Decrypted × Receiver S K
  unfolding forget_sender
  decrypt_or_recover e t r =
      let (first, r1) = decrypt_envelope e r in
      let (second, r2) = decrypt_envelope e (forget_sender e t r1) in
      elim first [
        | plain plaintext ↦ (plain plaintext, r1)
        | unknown_one_time_key ↦ elim second [
          | plain plaintext ↦ (plain plaintext, r2)
          | _ ↦ (unknown_one_time_key, r2)
        ]
        | broken ↦ elim second [ plain plaintext ↦ (plain plaintext, r2) | _ ↦ (broken, r2) ]
      ]

  abbrev pub decode : Text → Option ContentEvent
  decode plaintext = decode_event ie.json (ie.recode plaintext)

  abbrev pub dispatch_from : Envelope → ContentEvent → Times → Receiver S K → Receiver S K
  dispatch_from e event t r =
      set_client
        (dispatch_inbound_event ie.env e.peer_user_id e.peer_device_id event t.dispatched_at
          t.done_at r.client)
        r

  unfoldable pub dispatch_or_throw :
      Envelope → ContentEvent → Times → Receiver S K → Handled × Receiver S K
  unfolding dispatch_inbound_event ack_live
  dispatch_or_throw e event t r = elim (ie.interrupts event t.dispatched_at r.client) [
    | none ↦ (handled, ack_live e (dispatch_from e event t r))
    | some left_behind ↦ (interrupted, set_client left_behind r)
  ]

  unfoldable pub accept_plaintext : Envelope → Text → Times → Receiver S K → Handled × Receiver S K
  unfolding maybe_announce_peer_device dispatch_or_throw
  accept_plaintext e plaintext t r =
      let r1 : Receiver S K = maybe_announce_peer_device e.peer_user_id e.peer_device_id t r in
      elim (decode plaintext) [ none ↦ (handled, r1) | some event ↦ dispatch_or_throw e event t r1 ]

  abbrev pub mark : Text → ℕ → Receiver S K → Receiver S K
  mark uuid now r = with_dedup (add ie.env.kv ie.env.numerals uuid now (dedup_of r)) r

  abbrev pub unmark : Text → Receiver S K → Receiver S K
  unmark uuid r = with_dedup (remove ie.env.kv ie.env.numerals uuid (dedup_of r)) r

  -- The note of an envelope goes with an error.
  abbrev pub settle : Text → Handled × Receiver S K → Handled × Receiver S K
  settle uuid (handled, r) = (handled, r)
  settle uuid (interrupted, r) = (interrupted, unmark uuid r)
  settle uuid (thrown_unknown_otk, r) = (thrown_unknown_otk, unmark uuid r)
  settle uuid (thrown, r) = (thrown, unmark uuid r)

  -- An envelope that is new: it is noted first, and the note goes if the decryption or the dispatch
  -- fails.
  unfoldable pub handle_new : Envelope → Times → Receiver S K → Handled × Receiver S K
  unfolding add remove decrypt_or_recover accept_plaintext
  handle_new e t r =
      let (out, r1) = decrypt_or_recover e t (mark e.envelope_uuid t.added_at r) in
      elim out [
        | plain plaintext ↦ settle e.envelope_uuid (accept_plaintext e plaintext t r1)
        | unknown_one_time_key ↦ settle e.envelope_uuid (thrown_unknown_otk, r1)
        | broken ↦ settle e.envelope_uuid (thrown, r1)
      ]

  unfoldable pub handle_inbound_ciphertext :
      Envelope → Times → Receiver S K → Handled × Receiver S K
  unfolding has handle_new ack_live
  handle_inbound_ciphertext e t r =
      let (known, d) = has ie.env.kv ie.env.numerals e.envelope_uuid (dedup_of r) in
      let r1 : Receiver S K = with_dedup d r in
      if known then (handled, ack_live e r1) else handle_new e t r1

  abbrev pub set_status : ChatSendResult → Receiver S K → Receiver S K
  set_status result r =
      set_client (tracked ie.env (on_send_result result.envelope_uuid result.status) r.client) r

  unfoldable pub on_send_results : List ChatSendResult → Receiver S K → Receiver S K
  unfolding on_send_result
  on_send_results [] r = r
  on_send_results (result ∷ results) r = on_send_results results (set_status result r)

  -- The error of a frame is swallowed by the socket.
  unfoldable pub on_frame : InboundFrame → Times → Receiver S K → Receiver S K
  unfolding handle_inbound_ciphertext on_send_results
  on_frame (chat_envelope uuid peer device ciphertext type) t r =
      (handle_inbound_ciphertext
        (record {
          envelope_uuid = uuid;
          peer_user_id = peer;
          peer_device_id = device;
          ciphertext = ciphertext;
          msg_type = type;
          source = live;
        })
        t r).1
  on_frame (chat_send_result results) t r = on_send_results results r
  on_frame chat_pong t r = r
