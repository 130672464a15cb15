-- ===== src/Status.antt =====
-- The sender's status of each message: src/status.ts, class `StatusTracker`.
-- A `Map` is a list of entries in insertion order, a `Set` a list of members. The objects of the
-- map `outbound` are changed in place by the source; here the changed record is written back under
-- the key by which it was found. The calls of the listeners are kept in order in `emitted`.
pub mod Track
pub mod Ladder
pub mod Run
pub mod Reads
pub mod Buffers
pub mod Entries
pub mod Delivery
use secure_chat_client.Prelude.JsMap
use secure_chat_client.Prelude.JsMap.{JsMap}
use secure_chat_client.Prelude.JsSet
use secure_chat_client.Prelude.{
  ℕ, suc, ◌-◌, Bool, true, false, ◌&&◌, ◌||◌, Option, none, some, List, [], ◌∷◌, ◌++◌, Text, ◌==◌,
  is_empty, leb, ltb, length, drop, if◌then◌else◌,
}

pub data MessageStatus : Type 0 where
  pending sent delivered delivered_all read failed : MessageStatus

pub data SendStatus : Type 0 where
  live stored dropped error : SendStatus

pub record Outbound : Type 0 where
  pub message_id : Text
  pub peer_user_id : Text
  pub envelope_to_device : JsMap Text
  pub peer_devices : List Text
  pub received_from : List Text
  pub total_envelopes : ℕ
  pub errored_envelopes : List Text
  pub status : MessageStatus

pub record PendingReceived : Type 0 where
  pub peer_device_id : Text
  pub message_id : Text

-- The arguments of one call of the listeners.
pub record StatusEvent : Type 0 where
  pub message_id : Text
  pub status : MessageStatus
  pub peer_user_id : Text

pub record StatusTracker : Type 0 where
  pub outbound : JsMap Outbound
  pub envelope_to_message : JsMap Text
  pub by_peer : JsMap (List Text)
  pub pending_receiveds : JsMap (List PendingReceived)
  pub pending_reads : JsMap (List Text)
  pub emitted : List StatusEvent

abbrev pub empty_tracker : StatusTracker
empty_tracker = record {
  outbound = [];
  envelope_to_message = [];
  by_peer = [];
  pending_receiveds = [];
  pending_reads = [];
  emitted = [];
}

abbrev pub rank : MessageStatus → ℕ
rank pending = 0
rank sent = 1
rank delivered = 2
rank delivered_all = 3
rank read = 4
rank failed = 99

abbrev pub pending_buffer_cap : ℕ
pending_buffer_cap = 100

-- `map.get(key) ?? []`
abbrev pub list_at {ℓ} : {A : Type ℓ} → Text → JsMap (List A) → List A
list_at k m = elim (JsMap.lookup k m) [ none ↦ [] | some l ↦ l ]

-- The object `o` of the key `id` after a change in place.
abbrev pub save : Text → Outbound → StatusTracker → StatusTracker
save id o t = record t { outbound = JsMap.insert id o t.outbound }

unfoldable pub emit : Outbound → StatusTracker → StatusTracker
emit o t = record t {
  emitted =
      t.emitted
      ++ record { message_id = o.message_id; status = o.status; peer_user_id = o.peer_user_id }
        ∷ [];
}

unfoldable pub bump : Text → Outbound → MessageStatus → StatusTracker → StatusTracker
unfolding emit
bump id o candidate t =
    if leb (rank candidate) (rank o.status)
    then t
    else (let o' : Outbound = record o { status = candidate } in emit o' (save id o' t))

abbrev pub same_status : MessageStatus → MessageStatus → Bool
same_status pending pending = true
same_status sent sent = true
same_status delivered delivered = true
same_status delivered_all delivered_all = true
same_status read read = true
same_status failed failed = true
same_status _ _ = false

unfoldable pub force_set : Text → Outbound → MessageStatus → StatusTracker → StatusTracker
unfolding emit
force_set id o to t =
    if same_status o.status to
    then t
    else (let o' : Outbound = record o { status = to } in emit o' (save id o' t))

-- `while (buf.length > PENDING_BUFFER_CAP) buf.shift()`
unfoldable pub trim_buffer {ℓ} : {A : Type ℓ} → List A → List A
trim_buffer [] = []
trim_buffer (x ∷ xs) =
    let rest = trim_buffer xs in if ltb pending_buffer_cap (length (x ∷ xs)) then rest else x ∷ xs

-- `push`, and the oldest entries go beyond the cap.
unfoldable pub push_capped {ℓ} : {A : Type ℓ} → A → List A → List A
unfolding trim_buffer
push_capped x buf = trim_buffer (buf ++ x ∷ [])

unfoldable pub buffer_received : Text → Text → Text → StatusTracker → StatusTracker
unfolding push_capped
buffer_received peer device id t = record t {
  pending_receiveds =
      JsMap.insert peer
        (push_capped (record { peer_device_id = device; message_id = id })
          (list_at peer t.pending_receiveds))
        t.pending_receiveds;
}

unfoldable pub buffer_read : Text → Text → StatusTracker → StatusTracker
unfolding push_capped
buffer_read peer up_to_id t = record t {
  pending_reads =
      JsMap.insert peer (push_capped up_to_id (list_at peer t.pending_reads)) t.pending_reads;
}

abbrev pub pre_delivery : MessageStatus → Bool
pre_delivery pending = true
pre_delivery sent = true
pre_delivery _ = false

-- `everyTargetErrored`
abbrev pub every_target_errored : Outbound → Bool
every_target_errored o =
    leb o.total_envelopes (length o.errored_envelopes) && ltb 0 o.total_envelopes

-- `outbound.erroredEnvelopes.add(envelopeUuid)`
abbrev pub note_error : Text → Outbound → Outbound
note_error uuid o = record o { errored_envelopes = JsSet.add uuid o.errored_envelopes }

-- The body of `onSendResult` once the message `id` is found.
unfoldable pub apply_send_result :
    Text → Outbound → Text → SendStatus → StatusTracker → StatusTracker
unfolding bump force_set JsSet.add
apply_send_result id o uuid live t = bump id o sent t
apply_send_result id o uuid stored t = bump id o sent t
apply_send_result id o uuid error t =
    let o' : Outbound = note_error uuid o in
    let t' : StatusTracker = save id o' t in
    if every_target_errored o' && pre_delivery o'.status then force_set id o' failed t' else t'
apply_send_result id o uuid dropped t = t

-- The message of an envelope; the empty id is falsy.
unfoldable pub message_of : Text → StatusTracker → Option Text
unfolding JsMap.lookup
message_of uuid t = elim (JsMap.lookup uuid t.envelope_to_message) [
  | none ↦ none
  | some id ↦ if is_empty id then none else some id
]

unfoldable pub on_send_result : Text → SendStatus → StatusTracker → StatusTracker
unfolding apply_send_result message_of
on_send_result uuid status t = elim (message_of uuid t) [
  | none ↦ t
  | some id ↦ elim (JsMap.lookup id t.outbound) [
    | none ↦ t
    | some o ↦ apply_send_result id o uuid status t
  ]
]

-- `allReceived ? "deliveredAll" : "delivered"`
abbrev pub delivery_status : Outbound → MessageStatus
delivery_status o =
    if leb (length o.peer_devices) (length o.received_from) && ltb 0 (length o.peer_devices)
    then delivered_all
    else delivered

-- `Set.add` of a member changes nothing, so the test before the first `add` is the `add`'s own.
abbrev pub acknowledge : Text → Outbound → Outbound
acknowledge device o = record o {
  peer_devices =
      if JsSet.contains device o.peer_devices
      then o.peer_devices
      else JsSet.add device o.peer_devices;
  received_from = JsSet.add device o.received_from;
}

-- One round of the loop of `onReceived`.
unfoldable pub receive_one : Text → Text → StatusTracker → Text → StatusTracker
unfolding bump buffer_received JsSet.add JsSet.contains
receive_one peer device t id = elim (JsMap.lookup id t.outbound) [
  | none ↦ buffer_received peer device id t
  | some o ↦
      if o.peer_user_id == peer
      then (let o' : Outbound = acknowledge device o in
          bump id o' (delivery_status o') (save id o' t))
      else t
]

unfoldable pub on_received : Text → Text → List Text → StatusTracker → StatusTracker
unfolding receive_one
on_received peer device [] t = t
on_received peer device (id ∷ ids) t = on_received peer device ids (receive_one peer device t id)

-- The ids up to and with the first `up_to_id`; none if it is not there.
unfoldable pub upto : Text → List Text → Option (List Text)
upto up_to_id [] = none
upto up_to_id (id ∷ ids) =
    let rest : Option (List Text) = elim (upto up_to_id ids) [
      | none ↦ none
      | some l ↦ some (id ∷ l)
    ] in
    if id == up_to_id then some (id ∷ []) else rest

-- One round of the loop of `onRead`.
unfoldable pub read_one : StatusTracker → Text → StatusTracker
unfolding bump
read_one t id = elim (JsMap.lookup id t.outbound) [ none ↦ t | some o ↦ bump id o read t ]

-- The loop of `onRead` over the ids up to the watermark.
unfoldable pub read_all : List Text → StatusTracker → StatusTracker
unfolding read_one
read_all [] t = t
read_all (id ∷ ids) t = read_all ids (read_one t id)

unfoldable pub on_read : Text → Text → StatusTracker → StatusTracker
unfolding read_all buffer_read upto
on_read peer up_to_id t = elim (upto up_to_id (list_at peer t.by_peer)) [
  | none ↦ buffer_read peer up_to_id t
  | some ids ↦ read_all ids t
]
