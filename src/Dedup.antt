-- ===== src/Dedup.antt =====
-- The memory of processed envelopes: src/envelope_dedup.ts, class `EnvelopeDedup`.
-- The calls are awaited one after the other; the log lines are left out. `String(n)` and
-- `Number(text)` are the record `Numerals` (`none`: not a finite number).
pub mod Capacity
pub mod Footprint
pub mod Recency
pub mod Calls
pub mod Mirror
use secure_chat_client.Prelude.JsMap
use secure_chat_client.Prelude.JsMap.{JsMap}
use secure_chat_client.Prelude.Sort.{sort_by}
use secure_chat_client.Prelude.{
  ℕ, ◌≡◌, Bool, true, false, Option, none, some, List, [], ◌∷◌, ◌++◌, Text, lit, is_empty, ltb,
  length, drop, if◌then◌else◌,
}
use secure_chat_client.Store.{KvOps}

pub record Numerals : Type 0 where
  pub print : ℕ → Text
  pub parse : Text → Option ℕ

abbrev pub key_prefix : Text
key_prefix = lit "envelopeDedup/"

abbrev pub cap : ℕ
cap = 1000

pub record EnvelopeDedup (S : Type 0) : Type 0 where
  pub cache : JsMap ℕ
  pub initialized : Bool
  pub store : S

abbrev pub new_dedup : {S : Type 0} → S → EnvelopeDedup S
new_dedup s = record { cache = []; initialized = false; store = s }

abbrev pub size : {S : Type 0} → EnvelopeDedup S → ℕ
size d = length d.cache

unfoldable pub set_all : List (Text × ℕ) → JsMap ℕ → JsMap ℕ
unfolding JsMap.insert
set_all [] m = m
set_all ((uuid, ts) ∷ es) m = set_all es (JsMap.insert uuid ts m)

-- The loop of `trim`. The keys of a map are distinct: without its first entry it is the rest.
unfoldable pub trim : {S : Type 0} → KvOps S → JsMap ℕ → S → JsMap ℕ × S
trim kv [] s = ([], s)
trim {S} kv ((oldest, ts) ∷ m) s =
    let rest : JsMap ℕ × S = trim kv m (kv.delete (key_prefix ++ oldest) s) in
    if ltb cap (length ((oldest, ts) ∷ m))
    then (if is_empty oldest then ((oldest, ts) ∷ m, s) else rest)
    else ((oldest, ts) ∷ m, s)

module _ {S : Type 0} (kv : KvOps S) (numerals : Numerals) where
  -- `raw ? Number(raw) : 0`, and 0 for what is not finite
  abbrev pub timestamp : Option Text → ℕ
  timestamp none = 0
  timestamp (some raw) =
      if is_empty raw then 0 else (elim (numerals.parse raw) [ none ↦ 0 | some n ↦ n ])

  unfoldable pub read_entries : List Text → S → List (Text × ℕ)
  read_entries [] s = []
  read_entries (k ∷ ks) s =
      (drop (length key_prefix) k, timestamp (kv.get_string k s)) ∷ read_entries ks s

  unfoldable pub init : EnvelopeDedup S → EnvelopeDedup S
  unfolding read_entries set_all trim sort_by
  init d =
      if d.initialized
      then d
      else (let entries : List (Text × ℕ) =
            read_entries (kv.list_keys key_prefix d.store) d.store in
          let (cache, store) = trim kv (set_all (sort_by (λ e. e.1) entries) d.cache) d.store in
          record { cache = cache; initialized = true; store = store })

  unfoldable pub has : Text → EnvelopeDedup S → Bool × EnvelopeDedup S
  unfolding init JsMap.lookup
  has uuid d = let d' : EnvelopeDedup S = init d in (JsMap.has uuid d'.cache, d')

  -- `add` of an initialised memory.
  unfoldable pub add_known : Text → ℕ → EnvelopeDedup S → EnvelopeDedup S
  unfolding trim JsMap.insert JsMap.lookup
  add_known uuid now d =
      if JsMap.has uuid d.cache
      then d
      else (let cache : JsMap ℕ = JsMap.insert uuid now d.cache in
          let store : S = kv.set_string (key_prefix ++ uuid) (numerals.print now) d.store in
          let (cache', store') =
            if ltb cap (length cache) then trim kv cache store else (cache, store) in
          record { cache = cache'; initialized = d.initialized; store = store' })

  unfoldable pub add : Text → ℕ → EnvelopeDedup S → EnvelopeDedup S
  unfolding init add_known
  add uuid now d = add_known uuid now (init d)

  unfoldable pub remove_known : Text → EnvelopeDedup S → EnvelopeDedup S
  unfolding JsMap.lookup JsMap.erase
  remove_known uuid d =
      if JsMap.has uuid d.cache
      then record d {
        cache = JsMap.erase uuid d.cache;
        store = kv.delete (key_prefix ++ uuid) d.store;
      }
      else d

  unfoldable pub remove : Text → EnvelopeDedup S → EnvelopeDedup S
  unfolding init remove_known
  remove uuid d = remove_known uuid (init d)
