-- ===== src/Client/Preferences.antt =====
-- What the user sets, and what is kept of it: src/index.ts, the block list, the verified devices,
-- the read receipts, the history and the removal of a thread; src/device.ts, the device id. The
-- JSON text of a list of ids is the record `IdsText` (`none`: malformed, or no array).
use secure_chat_client.Client.{
  Env, Client, send_failed, dispatch, history, with_history, index, with_index, is_own,
  emit_conversations_changed,
}
use secure_chat_client.Client.Inbound.{find_device}
use secure_chat_client.Conversations
use secure_chat_client.Devices.{PeerDeviceMeta, get_peer_devices}
use secure_chat_client.Messages
use secure_chat_client.Messages.{StoredMessage, Page}
use secure_chat_client.Prelude.JsSet
use secure_chat_client.Prelude.{
  ℕ, Bool, true, false, Option, none, some, List, [], ◌∷◌, ◌++◌, Text, lit, ◌==◌, is_empty,
  if◌then◌else◌,
}
use secure_chat_client.Status.{failed}
use secure_chat_client.Store.{KvOps}

pub record IdsText : Type 0 where
  pub stringify : List Text → Text
  pub parse : Text → Option (List Text)

pub record KnownPeerDevice : Type 0 where
  pub device_id : Text
  pub fingerprint : Text
  pub last_active_at : ℕ
  pub verified : Bool

abbrev pub blocked_users_key : Text
blocked_users_key = lit "prefs/blockedUserIds"

abbrev pub read_receipts_key : Text
read_receipts_key = lit "prefs/readReceiptsEnabled"

abbrev pub device_id_key : Text
device_id_key = lit "deviceId"

abbrev pub verified_key : Text → Text → Text
verified_key peer device = lit "verifiedDevice/" ++ peer ++ lit "/" ++ device

-- `new Set(ids)`
unfoldable pub insert_all : List Text → List Text → List Text
unfolding JsSet.add
insert_all [] set = set
insert_all (id ∷ ids) set = insert_all ids (JsSet.add id set)

module _ {S : Type 0} (kv : KvOps S) where
  unfoldable pub mark_peer_device_verified : Text → Text → Bool → S → S
  mark_peer_device_verified peer device verified s =
      if verified
      then kv.set_string (verified_key peer device) (lit "1") s
      else kv.delete (verified_key peer device) s

  -- `raw === "1"`
  abbrev pub is_one : Option Text → Bool
  is_one none = false
  is_one (some raw) = raw == lit "1"

  unfoldable pub is_peer_device_verified : Text → Text → S → Bool
  is_peer_device_verified peer device s = is_one (kv.get_string (verified_key peer device) s)

  -- `set_read_receipts_enabled` gives the cache of the setting and the store.
  unfoldable pub set_read_receipts_enabled : Bool → S → Option Bool × S
  set_read_receipts_enabled enabled s =
      (some enabled, kv.set_string read_receipts_key (if enabled then lit "1" else lit "0") s)

  unfoldable pub are_read_receipts_enabled : Option Bool → S → Bool
  are_read_receipts_enabled (some enabled) s = enabled
  are_read_receipts_enabled none s = elim (kv.get_string read_receipts_key s) [
    | none ↦ true
    | some raw ↦ raw == lit "1"
  ]

  -- `loadOrCreateDeviceId`; the new id is the argument.
  unfoldable pub load_or_create_device_id : Text → S → Text × S
  load_or_create_device_id generated s = elim (kv.get_string device_id_key s) [
    | none ↦ (generated, kv.set_string device_id_key generated s)
    | some existing ↦
        if is_empty existing
        then (generated, kv.set_string device_id_key generated s)
        else (existing, s)
  ]

  abbrev pub reset_device_id : S → S
  reset_device_id s = kv.delete device_id_key s

module _ {S : Type 0} (env : Env S) where
  unfoldable pub set_blocked_user_ids : IdsText → List Text → Client S → Client S
  unfolding insert_all
  set_blocked_user_ids json ids c =
      let set : List Text = insert_all ids [] in
      record c {
        blocked_user_ids = set;
        store = env.kv.set_string blocked_users_key (json.stringify set) c.store;
      }

  unfoldable pub load_blocked_user_ids : IdsText → Client S → Client S
  unfolding insert_all
  load_blocked_user_ids json c = elim (env.kv.get_string blocked_users_key c.store) [
    | none ↦ c
    | some raw ↦ if is_empty raw then c else elim (json.parse raw) [
      | none ↦ c
      | some ids ↦ record c { blocked_user_ids = insert_all ids [] }
    ]
  ]

  unfoldable pub known_devices : Text → List PeerDeviceMeta → S → List KnownPeerDevice
  unfolding is_peer_device_verified
  known_devices peer [] s = []
  known_devices peer (d ∷ ds) s =
      (record {
        device_id = d.device_id;
        fingerprint = d.fingerprint;
        last_active_at = d.last_active_at;
        verified = is_peer_device_verified env.kv peer d.device_id s;
      })
      ∷ known_devices peer ds s

  -- `none`: the list of devices cannot be had.
  unfoldable pub get_known_peer_devices :
      Text → ℕ → ℕ → Client S → Option (List KnownPeerDevice) × Client S
  unfolding get_peer_devices known_devices
  get_known_peer_devices peer now done c =
      let (devices, cache) = get_peer_devices env.http none peer now done c.peer_devices in
      let c' : Client S = record c { peer_devices = cache } in
      elim devices [ none ↦ (none, c') | some ds ↦ (some (known_devices peer ds c'.store), c') ]

  unfoldable pub get_peer_device_fingerprint :
      Text → Text → ℕ → ℕ → Client S → Option (Option Text) × Client S
  unfolding get_peer_devices find_device
  get_peer_device_fingerprint peer device now done c =
      let (devices, cache) = get_peer_devices env.http none peer now done c.peer_devices in
      let c' : Client S = record c { peer_devices = cache } in
      elim devices [
        | none ↦ (none, c')
        | some ds ↦
            (some (elim (find_device device ds) [ none ↦ none | some d ↦ some d.fingerprint ]), c')
      ]

  abbrev pub get_history : Text → Page → Client S → List StoredMessage × Client S
  get_history peer page c =
      let (rows, ms) = Messages.list_for_peer env.kv env.codec peer page (history c) in
      (rows, with_history ms c)

  unfoldable pub delete_conversation : Text → Client S → Client S
  unfolding Messages.delete_for_peer Conversations.delete emit_conversations_changed
  delete_conversation peer c =
      let c1 : Client S =
        with_history (Messages.delete_for_peer env.kv env.codec peer (history c)) c in
      let c2 : Client S = with_index (Conversations.delete env.kv env.rows peer (index c1)) c1 in
      emit_conversations_changed env (peer ∷ []) c2

  -- The outbox gave up on a message: its row, and the listeners.
  unfoldable pub on_terminal_failure : Text → Text → Client S → Client S
  unfolding Messages.get Messages.put
  on_terminal_failure peer message_id c =
      let (row, ms) = Messages.get env.kv env.codec message_id (history c) in
      let c1 : Client S = with_history ms c in
      let c2 : Client S = elim row [
        | none ↦ c1
        | some m ↦
            if is_own env m c1
            then with_history
                (Messages.put env.kv env.codec (record m { status = some failed }) (history c1)) c1
            else c1
      ] in
      dispatch (send_failed peer message_id) c2
