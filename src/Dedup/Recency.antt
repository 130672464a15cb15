-- ===== src/Dedup/Recency.antt =====
-- How long an id stays in the memory of envelopes: src/envelope_dedup.ts, `add`, `remove`, `trim`.
use mathlib.Core.List.{append_assoc}
use secure_chat_client.Dedup.{
  Numerals, EnvelopeDedup, cap, key_prefix, trim, add_known, remove_known,
}
use secure_chat_client.Prelude.JsMap
use secure_chat_client.Prelude.JsMap.{JsMap}
use secure_chat_client.Prelude.{
  ℕ, suc, ◌≤◌, ◌<◌, ◌≡◌, refl, ap, ◌∙◌, true, false, [], ◌∷◌, ◌++◌, Text, ◌==◌, eq_iff, is_empty,
  ltb, length, length-append, arith, inl, inr, Bool-cases,
}
use secure_chat_client.Store.{KvOps}

-- The id is there, with at most `n` entries after it.
pub record Keeps (k : Text) (n : ℕ) (m : JsMap ℕ) : Type 0 where
  pub older : JsMap ℕ
  pub noted_at : ℕ
  pub newer : JsMap ℕ
  pub split : m ≡ older ++ (k, noted_at) ∷ newer
  pub few : length newer ≤ n

has-middle :
    (k : Text) (v : ℕ) (older newer : JsMap ℕ) → JsMap.has k (older ++ (k, v) ∷ newer) ≡ true
unfolding JsMap.lookup
has-middle k v [] newer = ground (arith, eq_iff k k)
has-middle k v ((j, w) ∷ older) newer = ground (arith, has-middle k v older newer)

pub Keeps-has : (k : Text) (n : ℕ) (m : JsMap ℕ) → Keeps k n m → JsMap.has k m ≡ true
Keeps-has k n m h = ap (JsMap.has k) h.split ∙ has-middle k h.noted_at h.older h.newer

-- The loop of `trim` ends before the id.
trim-middle :
    {S : Type 0} (kv : KvOps S) (k : Text) (v : ℕ) (older newer : JsMap ℕ) (s : S)
    → length newer < cap
    → (older' : JsMap ℕ) × ((trim kv (older ++ (k, v) ∷ newer) s).0 ≡ older' ++ (k, v) ∷ newer)
unfolding trim
trim-middle kv k v [] newer s few =
    let fits : ltb cap (length ((k, v) ∷ newer)) ≡ false = ground (arith, few) in
    ([], rw (trim, fits) refl)
trim-middle kv k v ((j, w) ∷ older) newer s few =
    elim (Bool-cases (ltb cap (length ((j, w) ∷ (older ++ (k, v) ∷ newer))))) [
      | inr fits ↦ ((j, w) ∷ older, rw (trim, fits) refl)
      | inl over ↦ elim (Bool-cases (is_empty j)) [
        | inl unnamed ↦ ((j, w) ∷ older, rw (trim, over, unnamed) refl)
        | inr named ↦
            let (older', e) = trim-middle kv k v older newer (kv.delete (key_prefix ++ j) s) few in
            (older', rw (trim, over, named) e)
      ]
    ]

erase-middle :
    (gone k : Text) (v : ℕ) (older newer : JsMap ℕ)
    → (gone == k) ≡ false
    → JsMap.erase gone (older ++ (k, v) ∷ newer)
      ≡ JsMap.erase gone older ++ (k, v) ∷ JsMap.erase gone newer
unfolding JsMap.erase
erase-middle gone k v [] newer other = ground (arith, other, eq_iff gone k, eq_iff k gone)
erase-middle gone k v ((j, w) ∷ older) newer other =
    ground (arith, erase-middle gone k v older newer other)

module _ {S : Type 0} (kv : KvOps S) (numerals : Numerals) where
  -- The entry that is noted last, after the trim.
  add_known-last :
      (k uuid : Text) (now n v : ℕ) (older newer : JsMap ℕ) (d : EnvelopeDedup S)
      → JsMap.has uuid d.cache ≡ false
      → d.cache ++ (uuid, now) ∷ [] ≡ older ++ (k, v) ∷ newer
      → length newer ≤ n
      → n < cap
      → Keeps k n (add_known kv numerals uuid now d).cache
  unfolding add_known
  add_known-last k uuid now n v older newer d new split few room =
      let s : S = kv.set_string (key_prefix ++ uuid) (numerals.print now) d.store in
      let last : JsMap.insert uuid now d.cache ≡ older ++ (k, v) ∷ newer =
        JsMap.insert_absent uuid now d.cache (ground (arith, new)) ∙ split in
      elim (Bool-cases (ltb cap (length (JsMap.insert uuid now d.cache)))) [
        | inr fits ↦
            rw (add_known, new, fits)
              (record { older = older; noted_at = v; newer = newer; split = last; few = few })
        | inl over ↦
            let (older', e) = trim-middle kv k v older newer s (omega (arith, few, room)) in
            rw (add_known, new, over)
              (record {
                older = older';
                noted_at = v;
                newer = newer;
                split = ap (λ m. (trim kv m s).0) last ∙ e;
                few = few;
              })
      ]

  -- An id that is new is the newest.
  pub add_known-newest :
      (k : Text) (now : ℕ) (d : EnvelopeDedup S)
      → JsMap.has k d.cache ≡ false
      → Keeps k 0 (add_known kv numerals k now d).cache
  add_known-newest k now d new =
      add_known-last k k now 0 now d.cache [] d new refl (omega arith) (omega arith)

  -- A new id adds one entry after it.
  pub Keeps-add_known :
      (k uuid : Text) (now n : ℕ) (d : EnvelopeDedup S)
      → JsMap.has uuid d.cache ≡ false
      → suc n < cap
      → Keeps k n d.cache
      → Keeps k (suc n) (add_known kv numerals uuid now d).cache
  Keeps-add_known k uuid now n d new room h =
      add_known-last k uuid now (suc n) h.noted_at h.older (h.newer ++ (uuid, now) ∷ []) d new
        (ap (λ m. m ++ (uuid, now) ∷ []) h.split
          ∙ append_assoc h.older ((k, h.noted_at) ∷ h.newer) ((uuid, now) ∷ []))
        (omega (arith, h.few, length-append h.newer ((uuid, now) ∷ []))) room

  pub Keeps-remove_known :
      (k uuid : Text) (n : ℕ) (d : EnvelopeDedup S)
      → (uuid == k) ≡ false
      → Keeps k n d.cache
      → Keeps k n (remove_known kv numerals uuid d).cache
  unfolding remove_known
  Keeps-remove_known k uuid n d other h = elim (Bool-cases (JsMap.has uuid d.cache)) [
    | inr gone ↦ rw (remove_known, gone) h
    | inl there ↦
        rw (remove_known, there)
          (record {
            older = JsMap.erase uuid h.older;
            noted_at = h.noted_at;
            newer = JsMap.erase uuid h.newer;
            split =
                ap (JsMap.erase uuid) h.split
                ∙ erase-middle uuid k h.noted_at h.older h.newer other;
            few = omega (arith, h.few, JsMap.length-erase-le uuid h.newer);
          })
  ]
