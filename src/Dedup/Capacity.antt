-- ===== src/Dedup/Capacity.antt =====
-- The bound on the memory, and what an `add` evicts: src/envelope_dedup.ts, `trim`.
use secure_chat_client.Prelude.JsMap
use secure_chat_client.Prelude.JsMap.{JsMap}
use secure_chat_client.Prelude.Sort.{sort_by, insert_sorted}
use secure_chat_client.Prelude.{
  ℕ, ◌≤◌, ◌≡◌, refl, true, false, none, List, [], ◌∷◌, ◌++◌, Text, is_empty, ltb, length,
  length-append, drop, if◌then◌else◌, arith, inl, inr, Bool-cases, All,
}
use secure_chat_client.Store.{KvOps}
use secure_chat_client.Dedup.{
  Numerals, EnvelopeDedup, cap, key_prefix, trim, read_entries, set_all, init, add_known, add,
  remove_known, new_dedup,
}

-- No stored id is the empty string.
abbrev pub NonEmptyKeys : JsMap ℕ → Type 0
NonEmptyKeys = All (λ e. is_empty e.0 ≡ false)

pub record IsBounded {S : Type 0} (d : EnvelopeDedup S) : Type 0 where
  pub ready : d.initialized ≡ true
  pub bound : length d.cache ≤ cap
  pub named : NonEmptyKeys d.cache

NonEmptyKeys-insert :
    (k : Text) (v : ℕ) (m : JsMap ℕ)
    → is_empty k ≡ false
    → NonEmptyKeys m
    → NonEmptyKeys (JsMap.insert k v m)
unfolding JsMap.insert
NonEmptyKeys-insert k v [] h all = (h, tt)
NonEmptyKeys-insert k v ((j, w) ∷ m) h all = ground (arith, NonEmptyKeys-insert k v m h all.1)

NonEmptyKeys-erase : (k : Text) (m : JsMap ℕ) → NonEmptyKeys m → NonEmptyKeys (JsMap.erase k m)
unfolding JsMap.erase
NonEmptyKeys-erase k [] all = tt
NonEmptyKeys-erase k ((j, w) ∷ m) all = ground (arith, NonEmptyKeys-erase k m all.1)

NonEmptyKeys-set_all :
    (es : List (Text × ℕ)) (m : JsMap ℕ)
    → NonEmptyKeys es
    → NonEmptyKeys m
    → NonEmptyKeys (set_all es m)
unfolding set_all
NonEmptyKeys-set_all [] m h all = all
NonEmptyKeys-set_all ((k, ts) ∷ es) m h all =
    NonEmptyKeys-set_all es (JsMap.insert k ts m) h.1 (NonEmptyKeys-insert k ts m h.0 all)

NonEmptyKeys-insert_sorted :
    (e : Text × ℕ) (es : List (Text × ℕ))
    → is_empty e.0 ≡ false
    → NonEmptyKeys es
    → NonEmptyKeys (insert_sorted (λ x. x.1) e es)
unfolding insert_sorted
NonEmptyKeys-insert_sorted e [] h all = (h, tt)
NonEmptyKeys-insert_sorted e (x ∷ es) h all =
    ground (arith, NonEmptyKeys-insert_sorted e es h all.1)

NonEmptyKeys-sort_by :
    (es : List (Text × ℕ)) → NonEmptyKeys es → NonEmptyKeys (sort_by (λ x. x.1) es)
unfolding sort_by
NonEmptyKeys-sort_by [] all = tt
NonEmptyKeys-sort_by (e ∷ es) all =
    NonEmptyKeys-insert_sorted e (sort_by (λ x. x.1) es) all.0 (NonEmptyKeys-sort_by es all.1)

module _ {S : Type 0} (kv : KvOps S) where
  length-trim : (m : JsMap ℕ) (s : S) → NonEmptyKeys m → length (trim kv m s).0 ≤ cap
  unfolding trim
  length-trim [] s h = omega arith
  length-trim ((k, ts) ∷ m) s h = ground (arith, length-trim m (kv.delete (key_prefix ++ k) s) h.1)

  NonEmptyKeys-trim : (m : JsMap ℕ) (s : S) → NonEmptyKeys m → NonEmptyKeys (trim kv m s).0
  unfolding trim
  NonEmptyKeys-trim [] s h = tt
  NonEmptyKeys-trim ((k, ts) ∷ m) s h =
      ground (arith, NonEmptyKeys-trim m (kv.delete (key_prefix ++ k) s) h.1)

  trim_fits : (m : JsMap ℕ) (s : S) → length m ≤ cap → trim kv m s ≡ (m, s)
  unfolding trim
  trim_fits [] s h = refl
  trim_fits ((k, ts) ∷ m) s h = ground arith

  -- One entry too many: the oldest goes.
  trim_over :
      (k : Text) (ts : ℕ) (m : JsMap ℕ) (s : S)
      → is_empty k ≡ false
      → length m ≡ cap
      → trim kv ((k, ts) ∷ m) s ≡ (m, kv.delete (key_prefix ++ k) s)
  unfolding trim
  trim_over k ts m s h e = ground (arith, trim_fits m (kv.delete (key_prefix ++ k) s) (omega arith))

  module _ (numerals : Numerals) where
    NonEmptyKeys-read_entries :
        (ks : List Text) (s : S)
        → All (λ k. is_empty (drop (length key_prefix) k) ≡ false) ks
        → NonEmptyKeys (read_entries kv numerals ks s)
    unfolding read_entries
    NonEmptyKeys-read_entries [] s h = tt
    NonEmptyKeys-read_entries (k ∷ ks) s h = (h.0, NonEmptyKeys-read_entries ks s h.1)

    pub init-IsBounded :
        (s : S)
        → All (λ k. is_empty (drop (length key_prefix) k) ≡ false) (kv.list_keys key_prefix s)
        → IsBounded (init kv numerals (new_dedup s))
    unfolding init
    init-IsBounded s h =
        let es : List (Text × ℕ) = read_entries kv numerals (kv.list_keys key_prefix s) s in
        let m : JsMap ℕ = set_all (sort_by (λ e. e.1) es) [] in
        let named : NonEmptyKeys m =
          NonEmptyKeys-set_all (sort_by (λ e. e.1) es) []
            (NonEmptyKeys-sort_by es (NonEmptyKeys-read_entries (kv.list_keys key_prefix s) s h))
            tt in
        record { ready = refl; bound = length-trim m s named; named = NonEmptyKeys-trim m s named }

    pub init_ready : (d : EnvelopeDedup S) → d.initialized ≡ true → init kv numerals d ≡ d
    unfolding init
    init_ready d h = rw h

    snoc_over :
        (m : JsMap ℕ) (u : Text) (now : ℕ) (s : S)
        → NonEmptyKeys m
        → length m ≡ cap
        → (trim kv (m ++ (u, now) ∷ []) s).0 ≡ drop 1 m ++ (u, now) ∷ []
    snoc_over [] u now s all e = absurd (omega arith)
    snoc_over ((k, ts) ∷ m) u now s all e = rw (
        trim_over k ts (m ++ (u, now) ∷ []) s all.0
          (omega (arith, length-append m ((u, now) ∷ []))))

    add_known-cache :
        (u : Text) (now : ℕ) (d : EnvelopeDedup S)
        → IsBounded d
        → JsMap.has u d.cache ≡ false
        → (add_known kv numerals u now d).cache ≡ (
            if ltb (length d.cache) cap
            then d.cache ++ (u, now) ∷ []
            else drop 1 d.cache ++ (u, now) ∷ [])
    unfolding add_known
    add_known-cache u now d b new =
        let s' : S = kv.set_string (key_prefix ++ u) (numerals.print now) d.store in
        let fresh : JsMap.lookup u d.cache ≡ none = ground arith in
        rw (new, JsMap.insert_absent u now d.cache fresh)
          (ground (
            arith,
            length-append d.cache ((u, now) ∷ []),
            snoc_over d.cache u now s' b.named,
            b.bound,
          ))

    pub add_known-IsBounded :
        (u : Text) (now : ℕ) (d : EnvelopeDedup S)
        → is_empty u ≡ false
        → IsBounded d
        → IsBounded (add_known kv numerals u now d)
    unfolding add_known
    add_known-IsBounded u now d name b = elim (Bool-cases (JsMap.has u d.cache)) [
      | inl old ↦ rw (old, add_known) b
      | inr new ↦
          let s' : S = kv.set_string (key_prefix ++ u) (numerals.print now) d.store in
          let m : JsMap ℕ = JsMap.insert u now d.cache in
          let named : NonEmptyKeys m = NonEmptyKeys-insert u now d.cache name b.named in
          elim (Bool-cases (ltb cap (length m))) [
            | inl over ↦
                rw (new, add_known, over)
                  (record {
                    ready = b.ready;
                    bound = length-trim m s' named;
                    named = NonEmptyKeys-trim m s' named;
                  })
            | inr fits ↦
                rw (new, add_known, fits)
                  (record { ready = b.ready; bound = ground arith; named = named })
          ]
    ]

    pub remove_known-IsBounded :
        (u : Text) (d : EnvelopeDedup S) → IsBounded d → IsBounded (remove_known kv numerals u d)
    unfolding remove_known
    remove_known-IsBounded u d b = elim (Bool-cases (JsMap.has u d.cache)) [
      | inl there ↦
          rw (there, remove_known)
            (record {
              ready = b.ready;
              bound = omega (arith, JsMap.length-erase-le u d.cache, b.bound);
              named = NonEmptyKeys-erase u d.cache b.named;
            })
      | inr gone ↦ rw (gone, remove_known) b
    ]

    pub add_ready :
        (u : Text) (now : ℕ) (d : EnvelopeDedup S)
        → d.initialized ≡ true
        → add kv numerals u now d ≡ add_known kv numerals u now d
    unfolding add
    add_ready u now d h = rw (init_ready d h)

    add_known_old :
        (u : Text) (now : ℕ) (d : EnvelopeDedup S)
        → JsMap.has u d.cache ≡ true
        → add_known kv numerals u now d ≡ d
    unfolding add_known
    add_known_old u now d h = rw h

    -- In a memory that is initialised, adding a new id of positive length puts it last, and if the
    -- memory was full, exactly the oldest id goes; an id that is there stays where it is.
    pub add-cache :
        (u : Text) (now : ℕ) (d : EnvelopeDedup S)
        → IsBounded d
        → (add kv numerals u now d).cache ≡ (
            if JsMap.has u d.cache
            then d.cache
            else (if ltb (length d.cache) cap
                then d.cache ++ (u, now) ∷ []
                else drop 1 d.cache ++ (u, now) ∷ []))
    add-cache u now d b = elim (Bool-cases (JsMap.has u d.cache)) [
      | inl old ↦ rw (add_ready u now d b.ready, add_known_old u now d old, old)
      | inr new ↦ rw (add_ready u now d b.ready, new) (add_known-cache u now d b new)
    ]
