-- ===== src/Messages/Threads.antt =====
-- The messages of one thread: src/message_store.ts, `listForPeer` and `deleteForPeer`.
use secure_chat_client.Prelude.JsMap
use secure_chat_client.Prelude.JsSet
use secure_chat_client.Prelude.Sort.{sort_by, insert_sorted, Ascending, sort_by-Ascending}
use secure_chat_client.Prelude.{
  ℕ, suc, ◌-◌, ◌≤◌, ◌≡◌, refl, sym, ap, ◌∙◌, Bool, false, ◌&&◌, Option, none, some, List, [], ◌∷◌,
  Text, ◌==◌, ltb, leb, eqb, starts_with-append, length, drop, length-drop, if◌then◌else◌, arith,
  inl, inr, Bool-cases, Option-cases, All,
}
use secure_chat_client.Store.{Stored, KvOps, IsLawful}
use secure_chat_client.Store.Scoped.{AllStart}
use secure_chat_client.Messages.{
  StoredMessage, Codec, IsFaithful, MessageStore, Page, whole, messages_prefix, kv_key, in_page,
  wanted, collect, last_page, list_for_peer, drop_messages, delete_for_peer,
}
use secure_chat_client.Messages.Rows.{stored, IsKeyed, stored-delete}
use secure_chat_client.Messages.Collect.{
  ids, rows_of, listed, IsCollected, collect-IsCollected, contains-rows_of, contains-sort_by,
}

module _ (P : StoredMessage → Type 0) where
  All-insert_sorted :
      (m : StoredMessage) (ms : List StoredMessage)
      → P m
      → All P ms
      → All P (insert_sorted (λ x. x.sent_at) m ms)
  unfolding insert_sorted
  All-insert_sorted m [] p all = (p, tt)
  All-insert_sorted m (x ∷ ms) p all = elim (Bool-cases (leb m.sent_at x.sent_at)) [
    | inl le ↦ rw le (p, all)
    | inr gt ↦ rw gt (all.0, All-insert_sorted m ms p all.1)
  ]

  All-sort_by : (ms : List StoredMessage) → All P ms → All P (sort_by (λ x. x.sent_at) ms)
  unfolding sort_by
  All-sort_by [] all = tt
  All-sort_by (m ∷ ms) all =
      All-insert_sorted m (sort_by (λ x. x.sent_at) ms) all.0 (All-sort_by ms all.1)

module _ {S : Type 0} (kv : KvOps S) (codec : Codec) where
  All-rows_of :
      (peer : Text) (page : Page) (keys : List Text) (ms : MessageStore S)
      → IsKeyed kv codec ms
      → All (λ m. stored kv codec m.id ms.store ≡ some m) (rows_of kv codec peer page keys ms.store)
  unfolding rows_of
  All-rows_of peer page [] ms h = tt
  All-rows_of peer page (key ∷ keys) ms h =
      let id : Text = drop (length messages_prefix) key in
      let rest : All (λ m. stored kv codec m.id ms.store ≡ some m)
          (rows_of kv codec peer page keys ms.store) =
        All-rows_of peer page keys ms h in
      elim (Option-cases (stored kv codec id ms.store)) [
        | inl none_there ↦ rw none_there rest
        | inr (m, there) ↦ elim (Bool-cases (in_page peer page m)) [
          | inl kept ↦
              rw (there, kept)
                (ap (λ x. stored kv codec x ms.store) (h.keyed id m there) ∙ there, rest)
          | inr passed ↦ rw (there, passed) rest
        ]
      ]

-- The row is a message of the peer that was sent before the given time.
abbrev pub belongs : Text → Option ℕ → Option StoredMessage → Bool
belongs peer before none = false
belongs peer none (some m) = m.peer_user_id == peer
belongs peer (some time) (some m) = (m.peer_user_id == peer) && ltb m.sent_at time

wanted-belongs :
    (peer : Text) (page : Page) (row : Option StoredMessage)
    → wanted peer page row ≡ belongs peer page.before_sent_at row
wanted-belongs peer page none = refl
wanted-belongs peer page (some m) = elim (Option-cases page.before_sent_at) [
  | inl all ↦ rw all (ground arith)
  | inr (time, given) ↦ rw given refl
]

-- The whole page of a thread.
pub record IsThread {S : Type 0} (kv : KvOps S) (codec : Codec) (peer : Text) (page : Page)
    (ms : MessageStore S) (r : List StoredMessage × MessageStore S) : Type 0 where
  pub members :
      (j : Text)
      → JsSet.contains j (ids r.0) ≡ belongs peer page.before_sent_at (stored kv codec j ms.store)
  pub rows : All (λ m. stored kv codec m.id ms.store ≡ some m) r.0
  pub ordered : Ascending (λ m. m.sent_at) r.0
  pub same_store : r.1.store ≡ ms.store
  pub still_keyed : IsKeyed kv codec r.1

module _ {S : Type 0} (kv : KvOps S) (at : Text → S → Option Stored) (l : IsLawful kv at)
    (codec : Codec) where
  pub all_start : (s : S) → AllStart messages_prefix (kv.list_keys messages_prefix s)
  all_start s k m = ground (arith, l.list_keys_at messages_prefix k s)

  -- A row that is wanted stands under a key that `listKeys` gives.
  listed_key :
      (peer : Text) (page : Page) (j : Text) (s : S)
      → (JsSet.contains (kv_key j) (kv.list_keys messages_prefix s)
          && listed kv codec peer page j s)
        ≡ listed kv codec peer page j s
  listed_key peer page j s = ground (
    arith,
    l.list_keys_at messages_prefix (kv_key j) s,
    starts_with-append messages_prefix j,
    l.get_string_at (kv_key j) s,
  )

  -- Over a lawful store whose rows are keyed by their ids, and with no limit: `listForPeer` gives
  -- exactly the stored messages of the peer that were sent before the given time, in ascending
  -- order of the time at which they were sent, and changes no row.
  pub list_for_peer-IsThread :
      (peer : Text) (before : Option ℕ) (ms : MessageStore S)
      → IsKeyed kv codec ms
      → IsThread kv codec peer
          (record { limit = none; before_sent_at = before })
          ms
          (list_for_peer kv codec peer (record { limit = none; before_sent_at = before }) ms)
  unfolding list_for_peer last_page
  list_for_peer-IsThread peer before ms h =
      let page : Page = record { limit = none; before_sent_at = before } in
      let keys : List Text = kv.list_keys messages_prefix ms.store in
      let c : IsCollected kv codec peer page keys ms (collect kv codec peer page keys ms) =
        collect-IsCollected kv codec peer page keys ms (all_start ms.store) h in
      record {
        members = λ j.
            contains-sort_by j (collect kv codec peer page keys ms).0
            ∙ ap (λ out. JsSet.contains j (ids out)) c.out
            ∙ contains-rows_of kv codec peer page keys ms j (all_start ms.store) h
            ∙ listed_key peer page j ms.store
            ∙ wanted-belongs peer page (stored kv codec j ms.store);
        rows =
            All-sort_by (λ m. stored kv codec m.id ms.store ≡ some m)
              (collect kv codec peer page keys ms).0
              (rw c.out (All-rows_of kv codec peer page keys ms h));
        ordered = sort_by-Ascending (λ m. m.sent_at) (collect kv codec peer page keys ms).0;
        same_store = c.same_store;
        still_keyed = c.still_keyed;
      }

module _ {S : Type 0} (kv : KvOps S) (at : Text → S → Option Stored) (l : IsLawful kv at)
    (codec : Codec) (f : IsFaithful codec) where
  drop_messages-stored :
      (msgs : List StoredMessage) (ms : MessageStore S) (j : Text)
      → stored kv codec j (drop_messages kv codec msgs ms).store
        ≡ (if JsSet.contains j (ids msgs) then none else stored kv codec j ms.store)
  unfolding drop_messages JsSet.contains
  drop_messages-stored [] ms j = refl
  drop_messages-stored (m ∷ msgs) ms j =
      let ms' : MessageStore S = record {
        cache = JsMap.erase m.id ms.cache;
        store = kv.delete (kv_key m.id) ms.store;
      } in
      rw (drop_messages-stored msgs ms' j, stored-delete kv at l codec f m.id j ms.store)
        (ground arith)

  -- Over a lawful store whose rows are keyed by their ids: `deleteForPeer` removes exactly the
  -- messages of the peer, and every other message stays as it was.
  pub delete_for_peer-stored :
      (peer : Text) (ms : MessageStore S) (j : Text)
      → IsKeyed kv codec ms
      → stored kv codec j (delete_for_peer kv codec peer ms).store ≡ (
          if belongs peer none (stored kv codec j ms.store)
          then none
          else stored kv codec j ms.store)
  unfolding delete_for_peer
  delete_for_peer-stored peer ms j h =
      let t : IsThread kv codec peer whole ms (list_for_peer kv codec peer whole ms) =
        list_for_peer-IsThread kv at l codec peer none ms h in
      rw (
        drop_messages-stored (list_for_peer kv codec peer whole ms).0
            (list_for_peer kv codec peer whole ms).1 j,
        t.members j,
        t.same_store,
      )

module _ {S : Type 0} (kv : KvOps S) (at : Text → S → Option Stored) (l : IsLawful kv at)
    (codec : Codec) (f : IsFaithful codec) where
  drop_messages-IsKeyed :
      (msgs : List StoredMessage) (ms : MessageStore S)
      → IsKeyed kv codec ms
      → IsKeyed kv codec (drop_messages kv codec msgs ms)
  unfolding drop_messages
  drop_messages-IsKeyed [] ms h = h
  drop_messages-IsKeyed (m ∷ msgs) ms h =
      drop_messages-IsKeyed msgs
        (record { cache = JsMap.erase m.id ms.cache; store = kv.delete (kv_key m.id) ms.store })
        (record {
          cached = λ j m' found. ground (
            arith,
            JsMap.lookup-erase m.id j ms.cache,
            stored-delete kv at l codec f m.id j ms.store,
            h.cached j m',
          );
          keyed =
              λ j m' e. ground (arith, stored-delete kv at l codec f m.id j ms.store, h.keyed j m');
        })

  pub delete_for_peer-IsKeyed :
      (peer : Text) (ms : MessageStore S)
      → IsKeyed kv codec ms
      → IsKeyed kv codec (delete_for_peer kv codec peer ms)
  unfolding delete_for_peer
  delete_for_peer-IsKeyed peer ms h =
      drop_messages-IsKeyed (list_for_peer kv codec peer whole ms).0
        (list_for_peer kv codec peer whole ms).1
        (list_for_peer-IsThread kv at l codec peer none ms h).still_keyed

not_zero : (n : ℕ) → eqb (suc n) 0 ≡ false
not_zero n = ground arith

sub_zero :
    (n : ℕ) (out : List StoredMessage) → ltb (suc n) (length out) ≡ false → length out - suc n ≡ 0
sub_zero n out h = ground arith

refl_page : (out : List StoredMessage) → last_page (some 0) out ≡ out
unfolding last_page
refl_page out = ground arith

-- A page with a limit that is not zero is the newest part of the thread, of at most that many
-- messages; a limit of zero cuts nothing.
pub last_page_limit :
    (n : ℕ) (out : List StoredMessage)
    → (last_page (some (suc n)) out ≡ drop (length out - suc n) out)
      × (length (last_page (some (suc n)) out) ≤ suc n)
      × (last_page (some 0) out ≡ out)
unfolding last_page
last_page_limit n out = elim (Bool-cases (ltb (suc n) (length out))) [
  | inl long ↦ (
    rw long (rw (not_zero n)),
    rw long (rw (not_zero n) (omega (arith, length-drop (length out - suc n) out))),
    refl_page out,
  )
  | inr short ↦ (
    rw short (sym (ap (λ k. drop k out) (sub_zero n out short))),
    rw short (ground arith),
    refl_page out,
  )
]
