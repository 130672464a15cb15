-- ===== src/Tests/Sessions.antt =====
-- A peer with a phone and a new laptop: src/sessions.ts.
use secure_chat_client.Prelude.JsMap
use secure_chat_client.Prelude.{◌≡◌, refl, true, none, some, List, [], ◌∷◌, ◌++◌, lit, ◌==◌, arith}
use secure_chat_client.Sessions.{
  ClaimedDevice, EncryptForResult, SessionCrypto, SessionHttp, SessionManagerOptions,
  SessionManager, normal, plain, new_sessions, ensure_peer_bundles, encrypt_for_peer,
  finish_discovery,
}
use secure_chat_client.Sessions.CatchUp.{IsOrderly, run-IsOrderly}
use secure_chat_client.Sessions.Fanout.{
  Encrypts, each_but_own, newly_listed, targets, all_for, addressees, encrypt_for_peer-targets,
  finish_discovery-addressees,
}
use secure_chat_client.Sessions.Recovery.{
  Call, send, forgotten, discovered, run, ensure_peer_bundles-recovers,
}

abbrev pub phone : ClaimedDevice
phone = record {
  device_id = lit "phone";
  identity_key_curve = [];
  identity_key_ed = [];
  signed_prekey = [];
  signed_prekey_sig = [];
  one_time_key = none;
  fallback_prekey = [];
  fallback_prekey_sig = [];
  fingerprint = [];
  last_active_at = 0;
}

abbrev laptop : ClaimedDevice
laptop = record phone { device_id = lit "laptop" }

-- The text goes through as it is.
abbrev pub crypto : {K : Type 0} → SessionCrypto K
crypto = record {
  encrypt_for_peer =
      λ peer device d plaintext w. (some (record { ciphertext = plaintext; msg_type = normal }), w);
  decrypt_from_peer = λ peer device ciphertext type w. (plain ciphertext, w);
  forget_session = λ peer device w. w;
}

abbrev pub http : {K : Type 0} → SessionHttp K
http = record {
  claim_all = λ self peer w. (some (phone ∷ laptop ∷ []), w);
  list_devices = λ self peer w. (some (lit "phone" ∷ lit "laptop" ∷ []), w);
}

abbrev pub opts : SessionManagerOptions
opts = record {
  self_device_id = lit "tablet";
  self_user_id = some (lit "ann");
  background_discovery = true;
  background_discovery_floor_ms = none;
}

-- Bob's phone was forgotten after a failed decryption.
abbrev calls : List Call
calls =
    send (lit "bob") (lit "hi") 40000 40001 40002
    ∷ forgotten (lit "bob") (lit "phone")
    ∷ forgotten (lit "bob") (lit "laptop")
    ∷ discovered (lit "bob")
    ∷ []

ensure_peer_bundles-recovers_example :
    (d : ClaimedDevice) × ((ds : List ClaimedDevice) × ((ensure_peer_bundles crypto http opts
          (lit "bob")
          45001
          45002
          (run crypto http opts calls (new_sessions tt))).0
        ≡ some (d ∷ ds)))
ensure_peer_bundles-recovers_example =
    ensure_peer_bundles-recovers crypto http opts calls tt 40001 (lit "bob") 45001 45002
      (omega arith, (tt, (tt, (tt, tt)))) (omega arith) (phone, (laptop ∷ [], refl))

run-IsOrderly_example : IsOrderly crypto http opts (run crypto http opts calls (new_sessions tt))
run-IsOrderly_example = run-IsOrderly crypto http opts calls tt

crypto-Encrypts : Encrypts (crypto {K = Unit}) http opts (λ s. s)
crypto-Encrypts peer device d plaintext w =
    (record { ciphertext = plaintext; msg_type = normal }, (refl, refl))

encrypt_for_peer-targets_example :
    (rs : List EncryptForResult) × (((encrypt_for_peer crypto http opts
          (lit "bob")
          (lit "hi")
          1
          2
          3
          (new_sessions tt)).0
        ≡ some rs)
      × (targets (λ s. s) rs ≡ each_but_own opts (lit "bob") (lit "hi") (phone ∷ laptop ∷ [])))
unfolding ensure_peer_bundles JsMap.lookup
encrypt_for_peer-targets_example =
    encrypt_for_peer-targets crypto http opts (λ s. s) (lit "bob") (lit "hi") 1 2 3
      (new_sessions tt) (phone ∷ laptop ∷ []) crypto-Encrypts refl

-- Two texts were sent while the list was on its way.
abbrev looking : SessionManager Unit
looking = record (new_sessions tt) {
  bundle_cache = (lit "bob", phone ∷ []) ∷ [];
  inflight_discovery = (lit "bob", phone ∷ []) ∷ [];
  pending_catch_up = (lit "bob", lit "one" ∷ lit "two" ∷ []) ∷ [];
}

finish_discovery-addressees_example :
    addressees (λ s. s) (finish_discovery crypto http opts (lit "bob") looking).caught_up
    ≡ []
      ++ all_for (lit "bob") (lit "one" ∷ lit "two" ∷ []) (
          newly_listed opts
            (lit "bob")
            (phone ∷ [])
            (lit "phone" ∷ lit "laptop" ∷ [])
            (phone ∷ laptop ∷ []))
unfolding addressees JsMap.lookup ◌==◌
finish_discovery-addressees_example =
    finish_discovery-addressees crypto http opts (λ s. s) (lit "bob") (phone ∷ [])
      (phone ∷ laptop ∷ []) (lit "phone" ∷ lit "laptop" ∷ []) (lit "one" ∷ lit "two" ∷ []) looking
      crypto-Encrypts refl refl refl refl
