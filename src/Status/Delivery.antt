-- ===== src/Status/Delivery.antt =====
-- When a message is delivered to all devices: src/status.ts, `onReceived` and `trackOutbound`.
use secure_chat_client.Prelude.JsMap
use secure_chat_client.Prelude.JsMap.{JsMap}
use secure_chat_client.Prelude.JsSet
use secure_chat_client.Prelude.JsSet.{Distinct, Subset}
use secure_chat_client.Prelude.{
  ◌<◌, ◌≡◌, ◌↔◌, ◌⊎◌, eq_refl, refl, true, some, List, [], ◌∷◌, Text, eq_iff, arith, leb, inl, inr,
  Bool-cases, length,
}
use secure_chat_client.Status.{
  MessageStatus, delivered, delivered_all, Outbound, StatusTracker, rank, acknowledge,
  delivery_status, receive_one, on_received, bump, save, empty_tracker,
}
use secure_chat_client.Status.Buffers.{Call, apply_calls}
use secure_chat_client.Status.Entries.{Every, reachable-Every}
use secure_chat_client.Status.Track.{set_of, fresh_outbound}

-- The device sets of an entry: no device twice, and only known devices have confirmed.
pub record HasDevices (o : Outbound) : Type 0 where
  pub peers_distinct : Distinct o.peer_devices
  pub received_distinct : Distinct o.received_from
  pub received_known : Subset o.received_from o.peer_devices

set_of-Distinct : (xs ys : List Text) → Distinct xs → Distinct (set_of xs ys)
unfolding set_of
set_of-Distinct xs [] d = d
set_of-Distinct xs (y ∷ ys) d = set_of-Distinct (JsSet.add y xs) ys (JsSet.add-Distinct y xs d)

fresh_outbound-HasDevices :
    (id peer : Text) (envelopes : JsMap Text) → HasDevices (fresh_outbound id peer envelopes)
unfolding JsSet.contains
fresh_outbound-HasDevices id peer envelopes = record {
  peers_distinct = set_of-Distinct [] (JsMap.values envelopes) tt;
  received_distinct = tt;
  received_known = λ a h. cc;
}

acknowledge-HasDevices :
    (o : Outbound) (device : Text) → HasDevices o → HasDevices (acknowledge device o)
acknowledge-HasDevices o device h = record {
  peers_distinct = ground (arith, JsSet.add-Distinct device o.peer_devices h.peers_distinct);
  received_distinct = JsSet.add-Distinct device o.received_from h.received_distinct;
  received_known = λ a known. ground (
    arith,
    eq_iff device a,
    JsSet.contains-add device a o.received_from,
    JsSet.contains-add device a o.peer_devices,
    h.received_known a,
  );
}

-- In every reachable tracker the device sets of each entry are well formed.
devices_reachable : (cs : List Call) → Every HasDevices (apply_calls cs empty_tracker)
devices_reachable =
    reachable-Every HasDevices fresh_outbound-HasDevices
      (λ o s h. record {
        peers_distinct = h.peers_distinct;
        received_distinct = h.received_distinct;
        received_known = h.received_known;
      })
      (λ o uuid h. record {
        peers_distinct = h.peers_distinct;
        received_distinct = h.received_distinct;
        received_known = h.received_known;
      })
      acknowledge-HasDevices

delivery_status-all_iff :
    (o : Outbound)
    → HasDevices o
    → (delivery_status o ≡ delivered_all)
      ↔ ((0 < length o.peer_devices) × Subset o.peer_devices o.received_from)
delivery_status-all_iff o h = (
  λ e. (
    ground arith,
    JsSet.Subset_of_length o.received_from o.peer_devices h.received_distinct h.received_known
        (ground arith),
  ),
  λ (some_peer, all).
      ground (arith, JsSet.length-le_of_Subset o.peer_devices o.received_from h.peers_distinct all),
)

acknowledge_knows :
    (o : Outbound) (device : Text)
    → JsSet.contains device (acknowledge device o).received_from ≡ true
acknowledge_knows o device =
    ground (arith, eq_iff device device, JsSet.contains-add device device o.received_from)

-- What is known of the entry of a message once a device has confirmed it.
pub record IsConfirmed (device : Text) (o : Outbound) : Type 0 where
  pub noted : JsSet.contains device o.received_from ≡ true
  pub all_iff : (o.status ≡ delivered_all) ↔ Subset o.peer_devices o.received_from
  pub confirmed : (o.status ≡ delivered) ⊎ (o.status ≡ delivered_all)

length_of_contains : (a : Text) (xs : List Text) → JsSet.contains a xs ≡ true → 0 < length xs
unfolding JsSet.contains
length_of_contains a [] h = cc
length_of_contains a (x ∷ xs) h = omega arith

IsConfirmed-of_status :
    (device : Text) (o o' : Outbound)
    → HasDevices o
    → JsSet.contains device o.received_from ≡ true
    → o'.status ≡ delivery_status o
    → o'.peer_devices ≡ o.peer_devices
    → o'.received_from ≡ o.received_from
    → IsConfirmed device o'
IsConfirmed-of_status device o o' h noted e e₁ e₂ = record {
  noted = rw e₂ noted;
  all_iff =
      rw (e, e₁, e₂)
        (
          λ a. ((delivery_status-all_iff o h).0 a).1,
          λ all.
              (delivery_status-all_iff o h).1
                (length_of_contains device o.peer_devices (h.received_known device noted), all),
        );
  confirmed = rw e (ground arith);
}

bump-IsConfirmed :
    (id device : Text) (o : Outbound) (t : StatusTracker)
    → HasDevices o
    → JsSet.contains device o.received_from ≡ true
    → rank o.status < rank delivered_all
    → (o' : Outbound) × (JsMap.lookup id (bump id o (delivery_status o) (save id o t)).outbound
        ≡ some o')
      × IsConfirmed device o'
unfolding bump
bump-IsConfirmed id device o t h noted below =
    let c : MessageStatus = delivery_status o in
    elim (Bool-cases (leb (rank c) (rank o.status))) [
      | inl low ↦ (
        o,
        rw low (JsMap.lookup-insert_self id o t.outbound),
        IsConfirmed-of_status device o o h noted (ground arith) refl refl,
      )
      | inr high ↦
          let o' : Outbound = record o { status = c } in
          (
            o',
            rw high (JsMap.lookup-insert_self id o' (save id o t).outbound),
            IsConfirmed-of_status device o o' h noted refl refl refl,
          )
    ]

-- After any calls, a `received` event of the peer for a tracked message that is not yet delivered
-- to all: the device is noted, the status is then `delivered` or `deliveredAll`, and it is
-- `deliveredAll` exactly when every device known for the peer has confirmed the message.
pub on_received-IsConfirmed :
    (cs : List Call) (id device : Text) (o : Outbound)
    → JsMap.lookup id (apply_calls cs empty_tracker).outbound ≡ some o
    → rank o.status < rank delivered_all
    → (o' : Outbound) × (JsMap.lookup id
          (on_received o.peer_user_id device (id ∷ []) (apply_calls cs empty_tracker)).outbound
        ≡ some o')
      × IsConfirmed device o'
unfolding on_received receive_one
on_received-IsConfirmed cs id device o found below =
    let t : StatusTracker = apply_calls cs empty_tracker in
    let h : HasDevices (acknowledge device o) =
      acknowledge-HasDevices o device (devices_reachable cs id o found) in
    rw (found, receive_one, eq_refl o.peer_user_id)
      (bump-IsConfirmed id device (acknowledge device o) t h (acknowledge_knows o device) below)
