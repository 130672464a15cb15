-- ===== src/Dedup/Mirror.antt =====
-- The memory and the storage under it hold the same ids: src/envelope_dedup.ts.
use secure_chat_client.Prelude.JsMap
use secure_chat_client.Prelude.JsMap.{JsMap}
use secure_chat_client.Prelude.JsSet
use secure_chat_client.Prelude.JsSet.{Distinct}
use secure_chat_client.Prelude.Sort.{sort_by, insert_sorted}
use secure_chat_client.Prelude.{
  ℕ, ◌≡◌, refl, ap, ◌∙◌, true, not, ◌&&◌, ◌||◌, Option, List, [], ◌∷◌, ◌++◌, Text, ◌==◌, eq_iff,
  is_empty, is_some, ltb, length, drop, arith, inl, inr, Bool-cases, eq-append_append,
  starts_with-append,
}
use secure_chat_client.Store.{Stored, KvOps, IsLawful}
use secure_chat_client.Store.Scoped.{AllStart, strip, contains-strip}
use secure_chat_client.Dedup.{
  Numerals, EnvelopeDedup, cap, key_prefix, trim, read_entries, set_all, init, add_known,
  remove_known, new_dedup,
}
use secure_chat_client.Dedup.Calls.{Call, query, note, forget, apply_call, run}
use secure_chat_client.Dedup.Capacity.{init_ready}

abbrev pub Mirrors : {S : Type 0} → (Text → S → Option Stored) → JsMap ℕ → S → Type 0
Mirrors at m s = (v : Text) → is_some (at (key_prefix ++ v) s) ≡ JsMap.has v m

-- What holds between two calls.
pub record IsMirrored {S : Type 0} (at : Text → S → Option Stored) (d : EnvelopeDedup S)
    : Type 0 where
  pub ready : d.initialized ≡ true
  pub distinct : Distinct (JsMap.keys d.cache)
  pub mirrors : Mirrors at d.cache d.store

has-contains : (v : Text) (m : JsMap ℕ) → JsMap.has v m ≡ JsSet.contains v (JsMap.keys m)
unfolding JsMap.lookup JsSet.contains
has-contains v [] = refl
has-contains v ((j, w) ∷ m) = ground (arith, has-contains v m)

keys-insert :
    (k a : Text) (w : ℕ) (m : JsMap ℕ)
    → JsSet.contains a (JsMap.keys (JsMap.insert k w m))
      ≡ ((k == a) || JsSet.contains a (JsMap.keys m))
unfolding JsSet.contains JsMap.insert
keys-insert k a w [] = refl
keys-insert k a w ((j, x) ∷ m) =
    ground (arith, eq_iff j k, eq_iff k a, eq_iff j a, keys-insert k a w m)

insert-Distinct :
    (k : Text) (w : ℕ) (m : JsMap ℕ)
    → Distinct (JsMap.keys m)
    → Distinct (JsMap.keys (JsMap.insert k w m))
unfolding JsMap.insert JsSet.contains
insert-Distinct k w [] d = (refl, tt)
insert-Distinct k w ((j, x) ∷ m) d =
    ground (arith, eq_iff j k, eq_iff k j, keys-insert k j w m, insert-Distinct k w m d.1)

set_all-Distinct :
    (es : List (Text × ℕ)) (m : JsMap ℕ)
    → Distinct (JsMap.keys m)
    → Distinct (JsMap.keys (set_all es m))
unfolding set_all
set_all-Distinct [] m d = d
set_all-Distinct ((k, w) ∷ es) m d =
    set_all-Distinct es (JsMap.insert k w m) (insert-Distinct k w m d)

keys-set_all :
    (a : Text) (es : List (Text × ℕ)) (m : JsMap ℕ)
    → JsSet.contains a (JsMap.keys (set_all es m))
      ≡ (JsSet.contains a (JsMap.keys es) || JsSet.contains a (JsMap.keys m))
unfolding set_all JsSet.contains
keys-set_all a [] m = refl
keys-set_all a ((k, w) ∷ es) m =
    ground (arith, keys-set_all a es (JsMap.insert k w m), keys-insert k a w m)

keys-erase :
    (k a : Text) (m : JsMap ℕ)
    → JsSet.contains a (JsMap.keys (JsMap.erase k m))
      ≡ (not (k == a) && JsSet.contains a (JsMap.keys m))
unfolding JsSet.contains JsMap.erase
keys-erase k a [] = ground arith
keys-erase k a ((j, x) ∷ m) = ground (arith, eq_iff j k, eq_iff k a, eq_iff j a, keys-erase k a m)

erase-Distinct :
    (k : Text) (m : JsMap ℕ) → Distinct (JsMap.keys m) → Distinct (JsMap.keys (JsMap.erase k m))
unfolding JsMap.erase
erase-Distinct k [] d = tt
erase-Distinct k ((j, x) ∷ m) d = ground (arith, keys-erase k j m, erase-Distinct k m d.1)

keys-insert_sorted :
    (a : Text) (e : Text × ℕ) (es : List (Text × ℕ))
    → JsSet.contains a (JsMap.keys (insert_sorted (λ x. x.1) e es))
      ≡ JsSet.contains a (JsMap.keys (e ∷ es))
unfolding insert_sorted JsSet.contains
keys-insert_sorted a e [] = refl
keys-insert_sorted a e (x ∷ es) = ground (arith, keys-insert_sorted a e es)

keys-sort_by :
    (a : Text) (es : List (Text × ℕ))
    → JsSet.contains a (JsMap.keys (sort_by (λ x. x.1) es)) ≡ JsSet.contains a (JsMap.keys es)
unfolding sort_by JsSet.contains
keys-sort_by a [] = refl
keys-sort_by a (e ∷ es) =
    keys-insert_sorted a e (sort_by (λ x. x.1) es) ∙ ap (λ b. (e.0 == a) || b) (keys-sort_by a es)

module _ {S : Type 0} (kv : KvOps S) (at : Text → S → Option Stored) (l : IsLawful kv at) where
  -- The oldest entry is deleted in both places.
  delete-Mirrors :
      (k : Text) (ts : ℕ) (m : JsMap ℕ) (s : S)
      → Distinct (JsMap.keys ((k, ts) ∷ m))
      → Mirrors at ((k, ts) ∷ m) s
      → Mirrors at m (kv.delete (key_prefix ++ k) s)
  unfolding JsMap.lookup
  delete-Mirrors k ts m s d h v = ground (
    arith,
    l.at-delete (key_prefix ++ k) (key_prefix ++ v) s,
    eq-append_append key_prefix k v,
    eq_iff k v,
    h v,
    has-contains v m,
    d.0,
  )

  set-Mirrors :
      (k : Text) (ts : ℕ) (text : Text) (m : JsMap ℕ) (s : S)
      → Mirrors at m s
      → Mirrors at (JsMap.insert k ts m) (kv.set_string (key_prefix ++ k) text s)
  set-Mirrors k ts text m s h v = ground (
    arith,
    l.at-set_string (key_prefix ++ k) (key_prefix ++ v) text s,
    eq-append_append key_prefix k v,
    JsMap.lookup-insert k v ts m,
    h v,
  )

  erase-Mirrors :
      (k : Text) (m : JsMap ℕ) (s : S)
      → Mirrors at m s
      → Mirrors at (JsMap.erase k m) (kv.delete (key_prefix ++ k) s)
  erase-Mirrors k m s h v = ground (
    arith,
    l.at-delete (key_prefix ++ k) (key_prefix ++ v) s,
    eq-append_append key_prefix k v,
    JsMap.lookup-erase k v m,
    h v,
  )

  -- What a trim leaves is mirrored too.
  trim-Mirrors :
      (m : JsMap ℕ) (s : S)
      → Distinct (JsMap.keys m)
      → Mirrors at m s
      → Distinct (JsMap.keys (trim kv m s).0) × Mirrors at (trim kv m s).0 (trim kv m s).1
  unfolding trim
  trim-Mirrors [] s d h = (d, h)
  trim-Mirrors ((k, ts) ∷ m) s d h =
      let s' : S = kv.delete (key_prefix ++ k) s in
      let rest : Distinct (JsMap.keys (trim kv m s').0)
          × Mirrors at (trim kv m s').0 (trim kv m s').1 =
        trim-Mirrors m s' d.1 (delete-Mirrors k ts m s d h) in
      elim (Bool-cases (ltb cap (length ((k, ts) ∷ m)))) [
        | inr fits ↦ rw (fits, trim) (d, h)
        | inl over ↦ elim (Bool-cases (is_empty k)) [
          | inl empty ↦ rw (over, trim, empty) (d, h)
          | inr named ↦ rw (over, trim, named) rest
        ]
      ]

  module _ (numerals : Numerals) where
    keys-read_entries :
        (ks : List Text) (s : S) → JsMap.keys (read_entries kv numerals ks s) ≡ strip key_prefix ks
    unfolding read_entries strip
    keys-read_entries [] s = refl
    keys-read_entries (k ∷ ks) s = ap (◌∷◌ (drop (length key_prefix) k)) (keys-read_entries ks s)

    -- At the start the memory holds the stored ids.
    read_entries-Mirrors :
        (s : S)
        → Mirrors at
            (set_all
              (sort_by (λ e. e.1) (read_entries kv numerals (kv.list_keys key_prefix s) s))
              [])
            s
    unfolding JsSet.contains
    read_entries-Mirrors s v =
        let ks : List Text = kv.list_keys key_prefix s in
        let es : List (Text × ℕ) = read_entries kv numerals ks s in
        let all : AllStart key_prefix ks = λ k m. ground (arith, l.list_keys_at key_prefix k s) in
        ground (
          arith,
          has-contains v (set_all (sort_by (λ e. e.1) es) []),
          keys-set_all v (sort_by (λ e. e.1) es) [],
          keys-sort_by v es,
          keys-read_entries ks s,
          contains-strip key_prefix v ks all,
          l.list_keys_at key_prefix (key_prefix ++ v) s,
          starts_with-append key_prefix v,
        )

    init-IsMirrored : (s : S) → IsMirrored at (init kv numerals (new_dedup s))
    unfolding init
    init-IsMirrored s =
        let es : List (Text × ℕ) = read_entries kv numerals (kv.list_keys key_prefix s) s in
        let m : JsMap ℕ = set_all (sort_by (λ e. e.1) es) [] in
        let (distinct, mirrors) =
          trim-Mirrors m s (set_all-Distinct (sort_by (λ e. e.1) es) [] tt)
            (read_entries-Mirrors s) in
        record { ready = refl; distinct = distinct; mirrors = mirrors }

    add_known-IsMirrored :
        (u : Text) (now : ℕ) (d : EnvelopeDedup S)
        → IsMirrored at d
        → IsMirrored at (add_known kv numerals u now d)
    unfolding add_known
    add_known-IsMirrored u now d b = elim (Bool-cases (JsMap.has u d.cache)) [
      | inl old ↦ rw (old, add_known) b
      | inr new ↦
          let m : JsMap ℕ = JsMap.insert u now d.cache in
          let s' : S = kv.set_string (key_prefix ++ u) (numerals.print now) d.store in
          let distinct : Distinct (JsMap.keys m) = insert-Distinct u now d.cache b.distinct in
          let mirrors : Mirrors at m s' =
            set-Mirrors u now (numerals.print now) d.cache d.store b.mirrors in
          elim (Bool-cases (ltb cap (length m))) [
            | inl over ↦
                rw (new, add_known, over)
                  (record {
                    ready = b.ready;
                    distinct = (trim-Mirrors m s' distinct mirrors).0;
                    mirrors = (trim-Mirrors m s' distinct mirrors).1;
                  })
            | inr fits ↦
                rw (new, add_known, fits)
                  (record { ready = b.ready; distinct = distinct; mirrors = mirrors })
          ]
    ]

    remove_known-IsMirrored :
        (u : Text) (d : EnvelopeDedup S)
        → IsMirrored at d
        → IsMirrored at (remove_known kv numerals u d)
    unfolding remove_known
    remove_known-IsMirrored u d b = elim (Bool-cases (JsMap.has u d.cache)) [
      | inl there ↦
          rw (there, remove_known)
            (record {
              ready = b.ready;
              distinct = erase-Distinct u d.cache b.distinct;
              mirrors = erase-Mirrors u d.cache d.store b.mirrors;
            })
      | inr gone ↦ rw (gone, remove_known) b
    ]

    apply_call-IsMirrored :
        (c : Call) (d : EnvelopeDedup S)
        → IsMirrored at d
        → IsMirrored at (apply_call kv numerals c d)
    unfolding apply_call
    apply_call-IsMirrored (query u) d b = rw (init_ready kv numerals d b.ready) b
    apply_call-IsMirrored (note u now) d b =
        rw (init_ready kv numerals d b.ready) (add_known-IsMirrored u now d b)
    apply_call-IsMirrored (forget u) d b =
        rw (init_ready kv numerals d b.ready) (remove_known-IsMirrored u d b)

    run-IsMirrored :
        (cs : List Call) (d : EnvelopeDedup S)
        → IsMirrored at d
        → IsMirrored at (run kv numerals cs d)
    unfolding run
    run-IsMirrored [] d b = b
    run-IsMirrored (c ∷ cs) d b =
        run-IsMirrored cs (apply_call kv numerals c d) (apply_call-IsMirrored c d b)

    -- Over a lawful store, after the start and any calls, an id is in the memory exactly when it is
    -- in the storage: a restart forgets no id and finds none that was rolled back.
    pub memory-IsMirrored :
        (cs : List Call) (s : S)
        → IsMirrored at (run kv numerals cs (init kv numerals (new_dedup s)))
    memory-IsMirrored cs s = run-IsMirrored cs (init kv numerals (new_dedup s)) (init-IsMirrored s)
