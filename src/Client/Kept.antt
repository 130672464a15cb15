-- ===== src/Client/Kept.antt =====
-- What the handlers leave of the stored messages: src/index.ts over src/message_store.ts.
use secure_chat_client.Prelude.{◌≡◌, refl, sym, ap, ◌∙◌, false, Option, some, Text, ◌==◌, arith}
use secure_chat_client.Client.{Env, Client, history}
use secure_chat_client.Messages.{StoredMessage, kv_key, read_row}
use secure_chat_client.Messages.Rows.{stored, IsKeyed}
use secure_chat_client.Status.{MessageStatus}
use secure_chat_client.Store.{Stored, IsLawful, as_string}

-- A key that no message is stored under.
abbrev pub Foreign : Text → Type 0
Foreign k = (j : Text) → (k == kv_key j) ≡ false

module _ {S : Type 0} (env : Env S) where
  -- The message that the client holds for an id.
  abbrev pub row : Text → Client S → Option StoredMessage
  row j c = stored env.kv env.codec j c.store

  abbrev pub IsSound : Client S → Type 0
  IsSound c = IsKeyed env.kv env.codec (history c)

  -- The rows stay keyed, and the message of `j`, if there is one, stays, but for its status.
  pub record Kept (j : Text) (c c' : Client S) : Type 0 where
    pub sound : IsSound c'
    pub kept :
        (m : StoredMessage)
        → row j c ≡ some m
        → (s : Option MessageStatus) × (row j c' ≡ some (record m { status = s }))

  pub Kept-of_row : (j : Text) (c c' : Client S) → IsSound c' → row j c' ≡ row j c → Kept j c c'
  Kept-of_row j c c' h e = record { sound = h; kept = λ m there. (m.status, e ∙ there) }

  pub Kept-of_same :
      (j : Text) (c c' : Client S)
      → c'.store ≡ c.store
      → c'.messages ≡ c.messages
      → IsSound c
      → Kept j c c'
  Kept-of_same j c c' e g h = record {
    sound = record {
      cached = λ k m found. ground (arith, h.cached k m);
      keyed = λ k m found. ground (arith, h.keyed k m);
    };
    kept = λ m there. (m.status, ground arith);
  }

  pub Kept-trans : (j : Text) (a b c : Client S) → Kept j a b → Kept j b c → Kept j a c
  Kept-trans j a b c p q = record {
    sound = q.sound;
    kept = λ m there.
        let (s, e) = p.kept m there in let (t, g) = q.kept (record m { status = s }) e in (t, g);
  }

  -- The history with the same cache over a store with the same rows.
  pub IsSound-of_rows :
      (c c' : Client S)
      → c'.messages ≡ c.messages
      → ((j : Text) → row j c' ≡ row j c)
      → IsSound c
      → IsSound c'
  IsSound-of_rows c c' same rows h = record {
    cached = λ k m found. ground (arith, rows k, h.cached k m);
    keyed = λ k m found. ground (arith, rows k, h.keyed k m);
  }

  module _ (at : Text → S → Option Stored) (l : IsLawful env.kv at) where
    pub stored-set-Foreign :
        (k v j : Text) (s : S)
        → Foreign k
        → stored env.kv env.codec j (env.kv.set_string k v s) ≡ stored env.kv env.codec j s
    stored-set-Foreign k v j s apart = ap (read_row env.kv env.codec) (
        l.get_string_at (kv_key j) (env.kv.set_string k v s)
        ∙ ap as_string (l.at-set_string k (kv_key j) v s ∙ rw (apart j) refl)
        ∙ sym (l.get_string_at (kv_key j) s))

    pub stored-delete-Foreign :
        (k j : Text) (s : S)
        → Foreign k
        → stored env.kv env.codec j (env.kv.delete k s) ≡ stored env.kv env.codec j s
    stored-delete-Foreign k j s apart = ap (read_row env.kv env.codec) (
        l.get_string_at (kv_key j) (env.kv.delete k s)
        ∙ ap as_string (l.at-delete k (kv_key j) s ∙ rw (apart j) refl)
        ∙ sym (l.get_string_at (kv_key j) s))
