-- ===== src/Tests/Outgoing.antt =====
-- Ann edits a message, and sends one again: src/index.ts.
use secure_chat_client.Bundles.{CryptoAdapter, HttpClient}
use secure_chat_client.Client.Calls.{edit_message}
use secure_chat_client.Client.Frames.{targets_at, of_type, one_each, by_msg_type_lem}
use secure_chat_client.Client.Guards.{IsGuarded, edit_message-IsGuarded}
use secure_chat_client.Client.Retries.{IsEntitled, retry_send-IsEntitled}
use secure_chat_client.Client.Texts.{mark_failed, retry_send}
use secure_chat_client.Client.Outgoing.{
  ChatSendTarget, SendEnv, SendTimes, Sender, silent, update_client, by_msg_type, frames_of,
}
use secure_chat_client.Outbox.{new_outbox}
use secure_chat_client.Prelude.{◌≡◌, false, true, none, List, [], ◌∷◌, ◌++◌, Text, lit}
use secure_chat_client.Sessions.{MsgType, prekey, normal}
use secure_chat_client.Store.Memory.{MemoryKvStore}
use secure_chat_client.Tests.Inbound.{inbound, receiver}

-- A server and an adapter that fail, as they are not called here.
abbrev bundle_crypto : CryptoAdapter (List Text)
bundle_crypto = record {
  init = λ w. (none, w);
  has_account = λ w. (none, w);
  generate_account = λ n w. (none, w);
  get_current_bundle = λ w. (none, w);
  generate_one_time_keys = λ n w. (none, w);
}

abbrev bundle_http : HttpClient (List Text)
bundle_http = record {
  upload_key_bundle = λ device bundle w. (none, w);
  otk_count = λ device w. (none, w);
  topup_otks = λ device keys w. (none, w);
}

abbrev sending : SendEnv MemoryKvStore (List Text)
sending = record {
  inbound = inbound;
  bundle_crypto = bundle_crypto;
  bundle_http = bundle_http;
  device_id = lit "tablet";
  generate_uuid = λ n. lit "u" ++ n ∷ [];
}

abbrev sender : Sender MemoryKvStore (List Text)
sender = record {
  receiver = receiver;
  outbox = new_outbox none none;
  shipments = [];
  bundle_reupload_attempted = false;
  drawn = 0;
  sent = [];
}

abbrev times : SendTimes
times = record { now = 50000; claimed_at = 50001; encrypted_at = 50002; random = λ id n. 0 }

edit_message-IsGuarded_example :
    IsGuarded sending
      (lit "m2")
      50000
      sender
      (edit_message sending (lit "bob") (lit "m2") (lit "later") 50000 times sender).0
      (edit_message sending (lit "bob") (lit "m2") (lit "later") 50000 times sender).1
edit_message-IsGuarded_example =
    edit_message-IsGuarded sending (lit "bob") (lit "m2") (lit "later") 50000 times sender

-- The sending of the answer failed.
abbrev stuck : Sender MemoryKvStore (List Text)
stuck = update_client sending (mark_failed sending (lit "bob") (lit "m2")) sender

retry_send-IsEntitled_example :
    IsEntitled sending
      (lit "m2")
      stuck
      (retry_send sending (lit "m2") 50000 times stuck).0
      (retry_send sending (lit "m2") 50000 times stuck).1
retry_send-IsEntitled_example = retry_send-IsEntitled sending (lit "m2") 50000 times stuck

-- Two devices have a session, a third one is new.
abbrev target : Text → ChatSendTarget
target device = record { device_id = device; ciphertext = lit "c"; envelope_uuid = device }

abbrev mixed : List (MsgType × ChatSendTarget)
mixed =
    (normal, target (lit "phone"))
    ∷ (prekey, target (lit "laptop"))
    ∷ (normal, target (lit "tablet"))
    ∷ []

by_msg_type_lem_example :
    (targets_at prekey (frames_of (lit "bob") silent (by_msg_type mixed [])) ≡ of_type prekey mixed)
    × (targets_at normal (frames_of (lit "bob") silent (by_msg_type mixed []))
        ≡ of_type normal mixed)
    × (one_each (frames_of (lit "bob") silent (by_msg_type mixed [])) ≡ true)
by_msg_type_lem_example = by_msg_type_lem (lit "bob") silent mixed
