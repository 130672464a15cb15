-- ===== src/Sessions.antt =====
-- The sessions with the devices of the peers: src/sessions.ts, class `SessionManager`, over the
-- interface of src/crypto/interface.ts and the HTTP client as records of operations on a state.
-- Sends come one after the other, so `inflightRefresh` and the locks are free when a call starts.
-- A discovery is started by a send, and goes on in a step of its own once its list of devices has
-- arrived: sends may come in between.
pub mod Recovery
pub mod CatchUp
pub mod Fanout
use secure_chat_client.Bundles.{OneTimeKey, Action, await}
use secure_chat_client.Prelude.JsMap
use secure_chat_client.Prelude.JsMap.{JsMap}
use secure_chat_client.Prelude.JsSet
use secure_chat_client.Prelude.{
  ℕ, ◌+◌, Bool, true, false, ◌&&◌, ◌||◌, not, Option, none, some, List, [], ◌∷◌, ◌++◌, map, Text,
  ◌==◌, is_empty, ltb, length, if◌then◌else◌,
}

pub data MsgType : Type 0 where
  prekey : MsgType
  normal : MsgType

pub record ClaimedDevice : Type 0 where
  pub device_id : Text
  pub identity_key_curve : Text
  pub identity_key_ed : Text
  pub signed_prekey : Text
  pub signed_prekey_sig : Text
  pub one_time_key : Option OneTimeKey
  pub fallback_prekey : Text
  pub fallback_prekey_sig : Text
  pub fingerprint : Text
  pub last_active_at : ℕ

pub record OutboundEnvelope : Type 0 where
  pub ciphertext : Text
  pub msg_type : MsgType

pub record EncryptForResult : Type 0 where
  pub peer_device_id : Text
  pub ciphertext : Text
  pub msg_type : MsgType

pub record CatchUpEnvelope : Type 0 where
  pub peer_user_id : Text
  pub peer_device_id : Text
  pub ciphertext : Text
  pub msg_type : MsgType

-- What a decryption ends with. `isUnknownOtkError` tells the two kinds of errors apart.
pub data Decrypted : Type 0 where
  plain : Text → Decrypted
  unknown_one_time_key : Decrypted
  broken : Decrypted

-- Of the interface `CryptoAdapter`, what the sessions call.
pub record SessionCrypto (K : Type 0) : Type 0 where
  pub encrypt_for_peer : Text → Text → ClaimedDevice → Text → Action K OutboundEnvelope
  pub decrypt_from_peer : Text → Text → Text → MsgType → K → Decrypted × K
  pub forget_session : Text → Text → K → K

-- Of the HTTP client: `claimAll` and `listDevices`, the latter as the ids that it lists.
pub record SessionHttp (K : Type 0) : Type 0 where
  pub claim_all : Text → Text → Action K (List ClaimedDevice)
  pub list_devices : Text → Text → Action K (List Text)

pub record SessionManagerOptions : Type 0 where
  pub self_device_id : Text
  pub self_user_id : Option Text
  pub background_discovery : Bool
  pub background_discovery_floor_ms : Option ℕ

pub record SessionManager (K : Type 0) : Type 0 where
  pub bundle_cache : JsMap (List ClaimedDevice)
  pub empty_cache_until : JsMap ℕ
  pub last_discovery_at : JsMap ℕ
  -- the devices that were known when the discovery of the peer started
  pub inflight_discovery : JsMap (List ClaimedDevice)
  pub pending_catch_up : JsMap (List Text)
  pub outside : K
  -- the calls of `onCatchUpEnvelope`
  pub caught_up : List CatchUpEnvelope

abbrev pub new_sessions : {K : Type 0} → K → SessionManager K
new_sessions w = record {
  bundle_cache = [];
  empty_cache_until = [];
  last_discovery_at = [];
  inflight_discovery = [];
  pending_catch_up = [];
  outside = w;
  caught_up = [];
}

abbrev pub empty_cache_cooldown_ms : ℕ
empty_cache_cooldown_ms = 5000

abbrev pub discovery_queue_cap : ℕ
discovery_queue_cap = 100

-- `floor ?? 30_000`
abbrev pub discovery_floor : Option ℕ → ℕ
discovery_floor none = 30000
discovery_floor (some ms) = ms

-- `map.get(key) ?? 0`
abbrev pub time_at : Text → JsMap ℕ → ℕ
time_at key m = elim (JsMap.lookup key m) [ none ↦ 0 | some n ↦ n ]

unfoldable pub device_ids : List ClaimedDevice → List Text
device_ids [] = []
device_ids (d ∷ ds) = d.device_id ∷ device_ids ds

-- `devices.filter((d) => d.deviceId !== id)`
unfoldable pub without_device : Text → List ClaimedDevice → List ClaimedDevice
without_device id [] = []
without_device id (d ∷ ds) =
    let rest = without_device id ds in if d.device_id == id then rest else d ∷ rest

-- `ids.filter((id) => !known.has(id))`
unfoldable pub unknown_ids : List Text → List Text → List Text
unfolding JsSet.contains
unknown_ids known [] = []
unknown_ids known (id ∷ ids) =
    let rest = unknown_ids known ids in if JsSet.contains id known then rest else id ∷ rest

-- `devices.filter((d) => ids.includes(d.deviceId))`
unfoldable pub among : List Text → List ClaimedDevice → List ClaimedDevice
unfolding JsSet.contains
among ids [] = []
among ids (d ∷ ds) =
    let rest = among ids ds in if JsSet.contains d.device_id ids then d ∷ rest else rest

module _ {K : Type 0} (crypto : SessionCrypto K) (http : SessionHttp K)
    (opts : SessionManagerOptions) where
  -- `selfUserId && peerUserId === selfUserId`
  abbrev pub to_self : Text → Bool
  to_self peer = elim opts.self_user_id [
    | none ↦ false
    | some self ↦ not (is_empty self) && (peer == self)
  ]

  -- `peerUserId === selfUserId`
  abbrev pub names_self : Text → Bool
  names_self peer = elim opts.self_user_id [ none ↦ false | some self ↦ peer == self ]

  -- The devices of the peer that a message goes to.
  abbrev pub fanout : Text → List ClaimedDevice → List ClaimedDevice
  fanout peer devices = if to_self peer then without_device opts.self_device_id devices else devices

  unfoldable pub cached_fanout_size : Text → SessionManager K → Option ℕ
  unfolding JsMap.lookup without_device
  cached_fanout_size peer m = elim (JsMap.lookup peer m.bundle_cache) [
    | none ↦ none
    | some cached ↦ some (length (fanout peer cached))
  ]

  unfoldable pub refresh_peer_bundles :
      Text → SessionManager K → Option (List ClaimedDevice) × SessionManager K
  unfolding JsMap.insert
  refresh_peer_bundles peer m =
      let (claimed, w) = http.claim_all opts.self_device_id peer m.outside in
      elim claimed [
        | none ↦ (none, record m { outside = w })
        | some devices ↦ (
          some devices,
          record m { bundle_cache = JsMap.insert peer devices m.bundle_cache; outside = w },
        )
      ]

  -- The claim of `ensurePeerBundles`, which ends at `done`.
  unfoldable pub claim_peer_bundles :
      Text → ℕ → SessionManager K → Option (List ClaimedDevice) × SessionManager K
  unfolding refresh_peer_bundles JsMap.insert JsMap.erase
  claim_peer_bundles peer done m =
      let (claimed, m1) = refresh_peer_bundles peer m in
      elim claimed [
        | none ↦ (none, m1)
        | some [] ↦ (
          some [],
          record m1 {
            empty_cache_until =
                JsMap.insert peer (done + empty_cache_cooldown_ms) m1.empty_cache_until;
          },
        )
        | some (d ∷ ds) ↦
            (some (d ∷ ds), record m1 { empty_cache_until = JsMap.erase peer m1.empty_cache_until })
      ]

  unfoldable pub ensure_peer_bundles :
      Text → ℕ → ℕ → SessionManager K → Option (List ClaimedDevice) × SessionManager K
  unfolding claim_peer_bundles JsMap.lookup
  ensure_peer_bundles peer now done m = elim (JsMap.lookup peer m.bundle_cache) [
    | none ↦ claim_peer_bundles peer done m
    | some [] ↦
        if ltb now (time_at peer m.empty_cache_until)
        then (some [], m)
        else claim_peer_bundles peer done m
    | some (d ∷ ds) ↦ (some (d ∷ ds), m)
  ]

  -- A discovery is in flight: the plaintext joins its queue, if that is not full.
  unfoldable pub queue_plaintext : Text → Text → SessionManager K → SessionManager K
  unfolding JsMap.lookup JsMap.insert
  queue_plaintext peer plaintext m = elim (JsMap.lookup peer m.pending_catch_up) [
    | none ↦ m
    | some q ↦
        if ltb (length q) discovery_queue_cap
        then record m {
          pending_catch_up = JsMap.insert peer (q ++ plaintext ∷ []) m.pending_catch_up;
        }
        else m
  ]

  abbrev pub start_discovery :
      Text → Text → List ClaimedDevice → ℕ → SessionManager K → SessionManager K
  start_discovery peer plaintext known now m = record m {
    pending_catch_up = JsMap.insert peer (plaintext ∷ []) m.pending_catch_up;
    last_discovery_at = JsMap.insert peer now m.last_discovery_at;
    inflight_discovery = JsMap.insert peer known m.inflight_discovery;
  }

  -- `maybeKickOffDiscovery` up to the call of `listDevices`.
  unfoldable pub maybe_kick_off_discovery :
      Text → Text → List ClaimedDevice → ℕ → SessionManager K → SessionManager K
  unfolding queue_plaintext JsMap.lookup JsMap.insert
  maybe_kick_off_discovery peer plaintext known now m =
      if not opts.background_discovery || names_self peer
      then m
      else if JsMap.has peer m.inflight_discovery
      then queue_plaintext peer plaintext m
      else if ltb now
          (time_at peer m.last_discovery_at + discovery_floor opts.background_discovery_floor_ms)
      then m
      else start_discovery peer plaintext known now m

  abbrev pub encrypt_for_one_device : Text → ClaimedDevice → Text → Action K OutboundEnvelope
  encrypt_for_one_device peer d plaintext w = crypto.encrypt_for_peer peer d.device_id d plaintext w

  abbrev pub result_for : ClaimedDevice → OutboundEnvelope → EncryptForResult
  result_for d env = record {
    peer_device_id = d.device_id;
    ciphertext = env.ciphertext;
    msg_type = env.msg_type;
  }

  -- The loop of `encryptForPeer`.
  unfoldable pub encrypt_devices :
      Text → Text → List ClaimedDevice → K → Option (List EncryptForResult) × K
  encrypt_devices peer plaintext [] w = (some [], w)
  encrypt_devices peer plaintext (d ∷ ds) w =
      await (encrypt_for_one_device peer d plaintext w) (λ env w1.
        await (encrypt_devices peer plaintext ds w1)
          (λ rest w2. (some (result_for d env ∷ rest), w2)))

  -- `encryptForPeer`: it starts at `now`, a claim ends at `done`, the encryption at `after`.
  unfoldable pub encrypt_for_peer :
      Text → Text → ℕ → ℕ → ℕ → SessionManager K → Option (List EncryptForResult) × SessionManager K
  unfolding ensure_peer_bundles encrypt_devices maybe_kick_off_discovery without_device
  encrypt_for_peer peer plaintext now done after m =
      let (ensured, m1) = ensure_peer_bundles peer now done m in
      elim ensured [
        | none ↦ (none, m1)
        | some cached ↦
            let devices : List ClaimedDevice = fanout peer cached in
            let (encrypted, w) = encrypt_devices peer plaintext devices m1.outside in
            elim encrypted [
              | none ↦ (none, record m1 { outside = w })
              | some results ↦ (
                some results,
                maybe_kick_off_discovery peer plaintext devices after (record m1 { outside = w }),
              )
            ]
      ]

  abbrev pub decrypt :
      Text → Text → Text → MsgType → SessionManager K → Decrypted × SessionManager K
  decrypt peer device ciphertext type m =
      let (out, w) = crypto.decrypt_from_peer peer device ciphertext type m.outside in
      (out, record m { outside = w })

  -- `forgetPeerDevice` in the cache: an entry that gets empty goes.
  unfoldable pub forget_bundle : Text → Text → SessionManager K → SessionManager K
  unfolding JsMap.lookup JsMap.insert JsMap.erase without_device
  forget_bundle peer device m = elim (JsMap.lookup peer m.bundle_cache) [
    | none ↦ m
    | some cached ↦ elim (without_device device cached) [
      | [] ↦ record m {
        bundle_cache = JsMap.erase peer m.bundle_cache;
        empty_cache_until = JsMap.erase peer m.empty_cache_until;
      }
      | d ∷ ds ↦ record m { bundle_cache = JsMap.insert peer (d ∷ ds) m.bundle_cache }
    ]
  ]

  unfoldable pub forget_peer_device : Text → Text → SessionManager K → SessionManager K
  unfolding forget_bundle
  forget_peer_device peer device m =
      let m1 : SessionManager K = forget_bundle peer device m in
      record m1 { outside = crypto.forget_session peer device m1.outside }

  abbrev pub clear_cache : SessionManager K → SessionManager K
  clear_cache m = record m {
    bundle_cache = [];
    inflight_discovery = [];
    pending_catch_up = [];
    last_discovery_at = [];
    empty_cache_until = [];
  }

  -- One encryption of the catch-up: a device for which it fails is passed over.
  unfoldable pub catch_up_device : Text → Text → ClaimedDevice → SessionManager K → SessionManager K
  catch_up_device peer plaintext d m =
      let (encrypted, w) = encrypt_for_one_device peer d plaintext m.outside in
      elim encrypted [
        | none ↦ record m { outside = w }
        | some env ↦ record m {
          outside = w;
          caught_up =
              m.caught_up
              ++ (record {
                peer_user_id = peer;
                peer_device_id = d.device_id;
                ciphertext = env.ciphertext;
                msg_type = env.msg_type;
              })
                ∷ [];
        }
      ]

  unfoldable pub catch_up_text :
      Text → Text → List ClaimedDevice → SessionManager K → SessionManager K
  unfolding catch_up_device
  catch_up_text peer plaintext [] m = m
  catch_up_text peer plaintext (d ∷ ds) m =
      catch_up_text peer plaintext ds (catch_up_device peer plaintext d m)

  unfoldable pub catch_up_queue :
      Text → List Text → List ClaimedDevice → SessionManager K → SessionManager K
  unfolding catch_up_text
  catch_up_queue peer [] targets m = m
  catch_up_queue peer (plaintext ∷ queue) targets m =
      catch_up_queue peer queue targets (catch_up_text peer plaintext targets m)

  -- `pendingCatchUp.get(peer) ?? []`
  abbrev pub queue_of : Text → SessionManager K → List Text
  queue_of peer m = elim (JsMap.lookup peer m.pending_catch_up) [ none ↦ [] | some q ↦ q ]

  -- The listed devices that were not known. A discovery is never for the user's own devices.
  abbrev pub new_device_ids : Text → List ClaimedDevice → List Text → List Text
  new_device_ids peer known live =
      let fresh : List Text = unknown_ids (device_ids known) live in
      if names_self peer then unknown_ids (opts.self_device_id ∷ []) fresh else fresh

  -- `discoverAndCatchUp` from the answer of the claim on: the queue is taken and sent.
  unfoldable pub catch_up_claimed :
      Text → List Text → Option (List ClaimedDevice) × SessionManager K → SessionManager K
  unfolding catch_up_queue among JsMap.lookup JsMap.insert
  catch_up_claimed peer ids (none, m) = m
  catch_up_claimed peer ids (some refreshed, m) =
      catch_up_queue peer (queue_of peer m) (among ids refreshed)
        (record m { pending_catch_up = JsMap.insert peer [] m.pending_catch_up })

  -- `discoverAndCatchUp` once `listDevices` has answered.
  unfoldable pub catch_up :
      Text → List ClaimedDevice → List Text → SessionManager K → SessionManager K
  unfolding refresh_peer_bundles catch_up_claimed unknown_ids device_ids
  catch_up peer known live m = elim (new_device_ids peer known live) [
    | [] ↦ m
    | id ∷ ids ↦ catch_up_claimed peer (id ∷ ids) (refresh_peer_bundles peer m)
  ]

  unfoldable pub discover_and_catch_up :
      Text → List ClaimedDevice → SessionManager K → SessionManager K
  unfolding catch_up
  discover_and_catch_up peer known m =
      let (listed, w) = http.list_devices opts.self_device_id peer m.outside in
      elim listed [
        | none ↦ record m { outside = w }
        | some live ↦ catch_up peer known live (record m { outside = w })
      ]

  -- The discovery that is in flight for the peer, to its end.
  unfoldable pub finish_discovery : Text → SessionManager K → SessionManager K
  unfolding discover_and_catch_up JsMap.lookup JsMap.erase
  finish_discovery peer m = elim (JsMap.lookup peer m.inflight_discovery) [
    | none ↦ m
    | some known ↦
        let m1 : SessionManager K = discover_and_catch_up peer known m in
        record m1 {
          inflight_discovery = JsMap.erase peer m1.inflight_discovery;
          pending_catch_up = JsMap.erase peer m1.pending_catch_up;
        }
  ]
