-- ===== src/Messages/Collect.antt =====
-- The rows that the loop of `listForPeer` collects: src/message_store.ts.
use secure_chat_client.Prelude.JsSet
use secure_chat_client.Prelude.Sort.{sort_by, insert_sorted}
use secure_chat_client.Prelude.{
  ◌≡◌, refl, ap, ◌∙◌, Bool, ◌&&◌, ◌||◌, Option, none, some, List, [], ◌∷◌, ◌++◌, map, Text, ◌==◌,
  eq_iff, eq_refl, length, drop, append-drop, eq-append_append, arith, inl, inr, Bool-cases,
}
use secure_chat_client.Store.{KvOps}
use secure_chat_client.Store.Scoped.{AllStart}
use secure_chat_client.Messages.{
  StoredMessage, Codec, MessageStore, Page, messages_prefix, kv_key, in_page, wanted, keep_if,
  fetch, collect,
}
use secure_chat_client.Messages.Rows.{stored, IsKeyed, IsFetched, fetch-IsFetched}

abbrev pub ids : List StoredMessage → List Text
ids = map (λ m. m.id)

module _ {S : Type 0} (kv : KvOps S) (codec : Codec) where
  -- The rows of the keys, with no cache.
  unfoldable pub rows_of : Text → Page → List Text → S → List StoredMessage
  rows_of peer page [] s = []
  rows_of peer page (key ∷ keys) s =
      let row : Option StoredMessage = stored kv codec (drop (length messages_prefix) key) s in
      keep_if (wanted peer page row) row (rows_of peer page keys s)

  pub record IsCollected (peer : Text) (page : Page) (keys : List Text) (ms : MessageStore S)
      (r : List StoredMessage × MessageStore S) : Type 0 where
    pub out : r.0 ≡ rows_of peer page keys ms.store
    pub same_store : r.1.store ≡ ms.store
    pub still_keyed : IsKeyed kv codec r.1

  pub collect-IsCollected :
      (peer : Text) (page : Page) (keys : List Text) (ms : MessageStore S)
      → AllStart messages_prefix keys
      → IsKeyed kv codec ms
      → IsCollected peer page keys ms (collect kv codec peer page keys ms)
  unfolding collect rows_of JsSet.contains
  collect-IsCollected peer page [] ms all h = record {
    out = refl;
    same_store = refl;
    still_keyed = h;
  }
  collect-IsCollected peer page (key ∷ keys) ms all h =
      let id : Text = drop (length messages_prefix) key in
      let same : messages_prefix ++ id ≡ key =
        append-drop messages_prefix key (all key (ground (arith, eq_refl key))) in
      let g : IsFetched kv codec id ms (fetch kv codec id key ms) =
        rw same at (fetch-IsFetched kv codec id ms h) in
      let ms' : MessageStore S = (fetch kv codec id key ms).1 in
      let c : IsCollected peer page keys ms' (collect kv codec peer page keys ms') =
        collect-IsCollected peer page keys ms' (λ k m. all k (ground arith)) g.still_keyed in
      record {
        out = rw (g.row, c.out, g.same_store);
        same_store = c.same_store ∙ g.same_store;
        still_keyed = c.still_keyed;
      }

  -- The message of an id is wanted.
  abbrev pub listed : Text → Page → Text → S → Bool
  listed peer page id s = wanted peer page (stored kv codec id s)

  keyed_ids :
      (peer : Text) (page : Page) (id : Text) (row : Option StoredMessage)
      (out : List StoredMessage) (j : Text)
      → ((m : StoredMessage) → row ≡ some m → m.id ≡ id)
      → JsSet.contains j (ids (keep_if (wanted peer page row) row out))
        ≡ (((id == j) && wanted peer page row) || JsSet.contains j (ids out))
  unfolding JsSet.contains
  keyed_ids peer page id none out j h = ground arith
  keyed_ids peer page id (some m) out j h = elim (Bool-cases (in_page peer page m)) [
    | inl kept ↦ rw (kept, h m refl) (ground arith)
    | inr passed ↦ rw passed (ground arith)
  ]

  pub contains-rows_of :
      (peer : Text) (page : Page) (keys : List Text) (ms : MessageStore S) (j : Text)
      → AllStart messages_prefix keys
      → IsKeyed kv codec ms
      → JsSet.contains j (ids (rows_of peer page keys ms.store))
        ≡ (JsSet.contains (kv_key j) keys && listed peer page j ms.store)
  unfolding JsSet.contains rows_of
  contains-rows_of peer page [] ms j all h = refl
  contains-rows_of peer page (key ∷ keys) ms j all h =
      let id : Text = drop (length messages_prefix) key in
      let same : messages_prefix ++ id ≡ key =
        append-drop messages_prefix key (all key (ground (arith, eq_refl key))) in
      let row : Option StoredMessage = stored kv codec id ms.store in
      ground (
        arith,
        keyed_ids peer page id row (rows_of peer page keys ms.store) j (h.keyed id),
        contains-rows_of peer page keys ms j (λ k m. all k (ground arith)) h,
        eq-append_append messages_prefix id j,
        eq_iff id j,
      )

contains-insert_sorted :
    (j : Text) (m : StoredMessage) (ms : List StoredMessage)
    → JsSet.contains j (ids (insert_sorted (λ x. x.sent_at) m ms)) ≡ JsSet.contains j (ids (m ∷ ms))
unfolding insert_sorted JsSet.contains
contains-insert_sorted j m [] = refl
contains-insert_sorted j m (x ∷ ms) = ground (arith, contains-insert_sorted j m ms)

pub contains-sort_by :
    (j : Text) (ms : List StoredMessage)
    → JsSet.contains j (ids (sort_by (λ x. x.sent_at) ms)) ≡ JsSet.contains j (ids ms)
unfolding sort_by JsSet.contains
contains-sort_by j [] = refl
contains-sort_by j (m ∷ ms) =
    contains-insert_sorted j m (sort_by (λ x. x.sent_at) ms)
    ∙ ap (λ b. (m.id == j) || b) (contains-sort_by j ms)
