-- ===== src/Client/Blocking.antt =====
-- What a blocked peer can do: src/index.ts, `setBlockedUserIds`, `loadBlockedUserIds` and
-- `dispatchInboundEvent`; and what the other settings are after a restart.
use secure_chat_client.Client.{Env, Client, flush_received_batch, queue_received_ack}
use secure_chat_client.Client.Dispatch.{dispatch_inbound_event, is_content, event_id}
use secure_chat_client.Client.Preferences.{
  IdsText, device_id_key, read_receipts_key, is_one, blocked_users_key, insert_all,
  set_blocked_user_ids, load_blocked_user_ids, load_or_create_device_id, set_read_receipts_enabled,
  are_read_receipts_enabled, mark_peer_device_verified, is_peer_device_verified, verified_key,
}
use secure_chat_client.Content.{ContentEvent}
use secure_chat_client.Prelude.JsSet
use secure_chat_client.Prelude.{
  ℕ, ◌≡◌, refl, sym, ap, ◌∙◌, Bool, true, false, ◌||◌, Option, none, some, List, [], ◌∷◌, Text, lit,
  ◌==◌, eq_iff, is_empty, if◌then◌else◌, arith, inl, inr, Bool-cases,
}
use secure_chat_client.Store.{Stored, IsLawful, as_string, string}

contains-insert_all :
    (p : Text) (ids set : List Text)
    → JsSet.contains p (insert_all ids set) ≡ (JsSet.contains p ids || JsSet.contains p set)
unfolding insert_all JsSet.contains
contains-insert_all p [] set = refl
contains-insert_all p (id ∷ ids) set =
    ground (arith, contains-insert_all p ids (JsSet.add id set), JsSet.contains-add id p set)

-- What the text of a list of ids is asked for.
pub record IsIdsFaithful (json : IdsText) : Type 0 where
  pub parse-stringify : (ids : List Text) → json.parse (json.stringify ids) ≡ some ids
  pub stringify_named : (ids : List Text) → is_empty (json.stringify ids) ≡ false

-- What the user and the listeners can see of a client.
pub record IsSilent {S : Type 0} (c c' : Client S) : Type 0 where
  pub store : c'.store ≡ c.store
  pub messages : c'.messages ≡ c.messages
  pub conversations : c'.conversations ≡ c.conversations
  pub status : c'.status ≡ c.status
  pub notices : c'.notices ≡ c.notices
  pub peer_devices : c'.peer_devices ≡ c.peer_devices

module _ {S : Type 0} (env : Env S) (at : Text → S → Option Stored) (l : IsLawful env.kv at) where
  queue_received_ack-IsSilent :
      (peer device id : Text) (c : Client S) → IsSilent c (queue_received_ack peer device id c)
  unfolding queue_received_ack flush_received_batch
  queue_received_ack-IsSilent peer device id c = record {
    store = ground arith;
    messages = ground arith;
    conversations = ground arith;
    status = ground arith;
    notices = ground arith;
    peer_devices = ground arith;
  }

  dispatch-IsSilent :
      (peer device : Text) (e : ContentEvent) (now done : ℕ) (c : Client S)
      → JsSet.contains peer c.blocked_user_ids ≡ true
      → IsSilent c (dispatch_inbound_event env peer device e now done c)
  unfolding dispatch_inbound_event
  dispatch-IsSilent peer device e now done c blocked = elim (Bool-cases (is_content e)) [
    | inl content ↦
        rw (dispatch_inbound_event, blocked, content)
          (queue_received_ack-IsSilent peer device (event_id e) c)
    | inr other ↦
        rw (dispatch_inbound_event, blocked, other)
          (record {
            store = refl;
            messages = refl;
            conversations = refl;
            status = refl;
            notices = refl;
            peer_devices = refl;
          })
  ]

  get-set_string : (k v : Text) (s : S) → env.kv.get_string k (env.kv.set_string k v s) ≡ some v
  get-set_string k v s =
      l.get_string_at k (env.kv.set_string k v s)
      ∙ ap as_string {y = some (string v)} (l.at-set_string k k v s ∙ rw ((eq_iff k k).1 refl) refl)

  load-blocks :
      (json : IdsText) (ids : List Text) (peer : Text) (c fresh : Client S)
      → IsIdsFaithful json
      → JsSet.contains peer ids ≡ true
      → fresh.store ≡ (set_blocked_user_ids env json ids c).store
      → JsSet.contains peer (load_blocked_user_ids env json fresh).blocked_user_ids ≡ true
  unfolding load_blocked_user_ids set_blocked_user_ids
  load-blocks json ids peer c fresh f listed same =
      let set : List Text = insert_all ids [] in
      let raw : env.kv.get_string blocked_users_key fresh.store ≡ some (json.stringify set) =
        ap (env.kv.get_string blocked_users_key) same
        ∙ get-set_string blocked_users_key (json.stringify set) c.store in
      rw (load_blocked_user_ids, raw, f.stringify_named set, f.parse-stringify set)
        (ground (arith, listed, contains-insert_all peer ids [], contains-insert_all peer set []))

  set-blocks :
      (json : IdsText) (ids : List Text) (peer : Text) (c : Client S)
      → JsSet.contains peer ids ≡ true
      → JsSet.contains peer (set_blocked_user_ids env json ids c).blocked_user_ids ≡ true
  unfolding set_blocked_user_ids
  set-blocks json ids peer c listed = ground (arith, listed, contains-insert_all peer ids [])

  -- The dispatch of an event of a peer that the user has blocked: with the list just set, and also in
  -- a client that starts over the same store and has loaded the list, it changes neither the store,
  -- the messages, the conversations, the statuses nor the known devices, and calls no listener. The
  -- receipts, and what is done before the dispatch, the announcement of a new device among it, are
  -- not in the statement. The text of a list is to be read back as it was, and not to be empty.
  pub set_blocked_user_ids-IsSilent :
      (json : IdsText) (ids : List Text) (peer device : Text) (e : ContentEvent) (now done : ℕ)
      (c fresh : Client S)
      → IsIdsFaithful json
      → JsSet.contains peer ids ≡ true
      → fresh.store ≡ (set_blocked_user_ids env json ids c).store
      → IsSilent
          (set_blocked_user_ids env json ids c)
          (dispatch_inbound_event env peer device e now done (set_blocked_user_ids env json ids c))
        × IsSilent (load_blocked_user_ids env json fresh) (
            dispatch_inbound_event env peer device e now done
              (load_blocked_user_ids env json fresh))
  set_blocked_user_ids-IsSilent json ids peer device e now done c fresh f listed same = (
    dispatch-IsSilent peer device e now done (set_blocked_user_ids env json ids c)
        (set-blocks json ids peer c listed),
    dispatch-IsSilent peer device e now done (load_blocked_user_ids env json fresh)
        (load-blocks json ids peer c fresh f listed same),
  )

  -- A device id that is not empty is kept: whatever ids are drawn, a second call gives the first id.
  pub load_or_create_device_id_again :
      (first second : Text) (s : S)
      → is_empty first ≡ false
      → (load_or_create_device_id env.kv second (load_or_create_device_id env.kv first s).1).0
        ≡ (load_or_create_device_id env.kv first s).0
  unfolding load_or_create_device_id
  load_or_create_device_id_again first second s named =
      grind (arith, get-set_string device_id_key first s)

  -- The setting of the read receipts is what was set last, in the running client and after a restart.
  pub are_read_receipts_enabled-set :
      (enabled : Bool) (s : S)
      → (are_read_receipts_enabled env.kv
            (set_read_receipts_enabled env.kv enabled s).0
            (set_read_receipts_enabled env.kv enabled s).1
          ≡ enabled)
        × (are_read_receipts_enabled env.kv none (set_read_receipts_enabled env.kv enabled s).1
            ≡ enabled)
  unfolding are_read_receipts_enabled set_read_receipts_enabled ◌==◌
  are_read_receipts_enabled-set true s =
      (refl, rw (are_read_receipts_enabled, get-set_string read_receipts_key (lit "1") s) refl)
  are_read_receipts_enabled-set false s =
      (refl, rw (are_read_receipts_enabled, get-set_string read_receipts_key (lit "0") s) refl)

  is_one-set :
      (k j : Text) (s : S)
      → is_one env.kv (env.kv.get_string j (env.kv.set_string k (lit "1") s))
        ≡ (if k == j then true else is_one env.kv (env.kv.get_string j s))
  unfolding ◌==◌
  is_one-set k j s = elim (Bool-cases (k == j)) [
    | inl same ↦ rw same (
        ap (is_one env.kv) {y = some (lit "1")} (
          l.get_string_at j (env.kv.set_string k (lit "1") s)
          ∙ ap as_string {y = some (string (lit "1"))}
              (l.at-set_string k j (lit "1") s ∙ rw same refl)))
    | inr other ↦ rw other (
        ap (is_one env.kv) (
          l.get_string_at j (env.kv.set_string k (lit "1") s)
          ∙ ap as_string {y = at j s} (l.at-set_string k j (lit "1") s ∙ rw other refl)
          ∙ sym (l.get_string_at j s)))
  ]

  is_one-delete :
      (k j : Text) (s : S)
      → is_one env.kv (env.kv.get_string j (env.kv.delete k s))
        ≡ (if k == j then false else is_one env.kv (env.kv.get_string j s))
  is_one-delete k j s = elim (Bool-cases (k == j)) [
    | inl same ↦ rw same (
        ap (is_one env.kv) {y = none} (
          l.get_string_at j (env.kv.delete k s)
          ∙ ap as_string {y = none} (l.at-delete k j s ∙ rw same refl)))
    | inr other ↦ rw other (
        ap (is_one env.kv) (
          l.get_string_at j (env.kv.delete k s)
          ∙ ap as_string {y = at j s} (l.at-delete k j s ∙ rw other refl)
          ∙ sym (l.get_string_at j s)))
  ]

  -- Marking a device decides whether it is verified, and leaves every device with another key as it
  -- was. The key joins the two ids by a slash, so that ids with a slash may share one.
  pub is_peer_device_verified-mark :
      (peer device peer' device' : Text) (verified : Bool) (s : S)
      → is_peer_device_verified env.kv peer' device'
          (mark_peer_device_verified env.kv peer device verified s)
        ≡ (if verified_key peer device == verified_key peer' device'
            then verified
            else is_peer_device_verified env.kv peer' device' s)
  unfolding is_peer_device_verified mark_peer_device_verified
  is_peer_device_verified-mark peer device peer' device' true s =
      is_one-set (verified_key peer device) (verified_key peer' device') s
  is_peer_device_verified-mark peer device peer' device' false s =
      is_one-delete (verified_key peer device) (verified_key peer' device') s
