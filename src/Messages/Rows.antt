-- ===== src/Messages/Rows.antt =====
-- The store of messages as a partial function from ids to messages: src/message_store.ts, `put`
-- and `get`. The cache never shows what the storage does not hold.
use secure_chat_client.Prelude.JsMap
use secure_chat_client.Prelude.{
  ◌≡◌, refl, sym, true, false, Option, none, some, [], ◌∷◌, Text, ◌==◌, eq_iff, is_empty,
  if◌then◌else◌, arith, inl, inr, Bool-cases, Option-cases, eq-append_append,
}
use secure_chat_client.Store.{Stored, KvOps, IsLawful}
use secure_chat_client.Messages.{
  StoredMessage, Codec, IsFaithful, MessageStore, messages_prefix, kv_key, read_row, remember,
  fetch, get, put,
}

module _ {S : Type 0} (kv : KvOps S) (codec : Codec) where
  -- The message that the storage holds for an id.
  abbrev pub stored : Text → S → Option StoredMessage
  stored id s = read_row kv codec (kv.get_string (kv_key id) s)

  -- The cache agrees with the storage, and each row is stored under its own id.
  pub record IsKeyed (ms : MessageStore S) : Type 0 where
    pub cached :
        (id : Text) (m : StoredMessage)
        → JsMap.lookup id ms.cache ≡ some m
        → stored id ms.store ≡ some m
    pub keyed : (id : Text) (m : StoredMessage) → stored id ms.store ≡ some m → m.id ≡ id

  remember-IsKeyed :
      (id : Text) (ms : MessageStore S) (row : Option StoredMessage)
      → stored id ms.store ≡ row
      → IsKeyed ms
      → IsKeyed (remember row ms)
  remember-IsKeyed id ms none e h = h
  remember-IsKeyed id ms (some m) e h = record {
    cached = λ j m' found. ground (
      arith,
      JsMap.lookup-insert m.id j m ms.cache,
      eq_iff m.id j,
      h.keyed id m e,
      h.cached j m',
    );
    keyed = h.keyed;
  }

  remember-store :
      (row : Option StoredMessage) (ms : MessageStore S) → (remember row ms).store ≡ ms.store
  remember-store none ms = refl
  remember-store (some m) ms = refl

  pub record IsFetched (id : Text) (ms : MessageStore S) (r : Option StoredMessage × MessageStore S)
      : Type 0 where
    pub row : r.0 ≡ stored id ms.store
    pub same_store : r.1.store ≡ ms.store
    pub still_keyed : IsKeyed r.1

  pub fetch-IsFetched :
      (id : Text) (ms : MessageStore S)
      → IsKeyed ms
      → IsFetched id ms (fetch kv codec id (kv_key id) ms)
  unfolding fetch
  fetch-IsFetched id ms h = elim (Option-cases (JsMap.lookup id ms.cache)) [
    | inl absent ↦
        rw (absent, fetch)
          (record {
            row = refl;
            same_store = remember-store (stored id ms.store) ms;
            still_keyed = remember-IsKeyed id ms (stored id ms.store) refl h;
          })
    | inr (m, found) ↦
        rw (found, fetch)
          (record { row = sym (h.cached id m found); same_store = refl; still_keyed = h })
  ]

  -- Reading a message gives what the storage holds for its id, and changes no row.
  pub get-IsFetched :
      (id : Text) (ms : MessageStore S) → IsKeyed ms → IsFetched id ms (get kv codec id ms)
  unfolding get
  get-IsFetched id ms h = fetch-IsFetched id ms h

nil_of_empty : (s : Text) → is_empty s ≡ true → s ≡ []
nil_of_empty [] h = refl
nil_of_empty (x ∷ s) h = cc

module _ {S : Type 0} (kv : KvOps S) (at : Text → S → Option Stored) (l : IsLawful kv at)
    (codec : Codec) (f : IsFaithful codec) where
  stringify-not_empty : (m : StoredMessage) → is_empty (codec.stringify m) ≡ false
  stringify-not_empty m = elim (Bool-cases (is_empty (codec.stringify m))) [
    | inl empty ↦
        absurd
          (ground (arith, nil_of_empty (codec.stringify m) empty, f.parse-stringify m, f.parse-nil))
    | inr named ↦ named
  ]

  pub stored-set :
      (k j : Text) (m : StoredMessage) (s : S)
      → stored kv codec j (kv.set_string (kv_key k) (codec.stringify m) s)
        ≡ (if k == j then some m else stored kv codec j s)
  stored-set k j m s = ground (
    arith,
    l.get_string_at (kv_key j) (kv.set_string (kv_key k) (codec.stringify m) s),
    l.get_string_at (kv_key j) s,
    l.at-set_string (kv_key k) (kv_key j) (codec.stringify m) s,
    eq-append_append messages_prefix k j,
    stringify-not_empty m,
    f.parse-stringify m,
  )

  pub stored-delete :
      (k j : Text) (s : S)
      → stored kv codec j (kv.delete (kv_key k) s) ≡ (if k == j then none else stored kv codec j s)
  stored-delete k j s = ground (
    arith,
    l.get_string_at (kv_key j) (kv.delete (kv_key k) s),
    l.get_string_at (kv_key j) s,
    l.at-delete (kv_key k) (kv_key j) s,
    eq-append_append messages_prefix k j,
  )

  pub put-IsKeyed :
      (m : StoredMessage) (ms : MessageStore S)
      → IsKeyed kv codec ms
      → IsKeyed kv codec (put kv codec m ms)
  unfolding put
  put-IsKeyed m ms h = record {
    cached = λ j m' found.
        ground (
          arith,
          JsMap.lookup-insert m.id j m ms.cache,
          stored-set m.id j m ms.store,
          h.cached j m',
        );
    keyed = λ j m' e. ground (arith, stored-set m.id j m ms.store, eq_iff m.id j, h.keyed j m');
  }
