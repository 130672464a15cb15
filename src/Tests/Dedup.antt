-- ===== src/Tests/Dedup.antt =====
-- An envelope that is processed, asked for and rolled back: src/envelope_dedup.ts.
use secure_chat_client.Prelude.JsMap
use secure_chat_client.Prelude.{
  ◌≡◌, refl, false, none, some, List, [], ◌∷◌, lit, is_empty, starts_with, All, length, drop,
}
use secure_chat_client.Store.{string}
use secure_chat_client.Store.Memory.{MemoryKvStore, memory_kv, list_keys, memory-IsLawful}
use secure_chat_client.Dedup.{Numerals, new_dedup, init, key_prefix}
use secure_chat_client.Dedup.Capacity.{IsBounded}
use secure_chat_client.Dedup.Calls.{Call, query, note, forget, run, memory-IsBounded}
use secure_chat_client.Dedup.Mirror.{IsMirrored, memory-IsMirrored}

abbrev pub numerals : Numerals
numerals = record { print = λ n. n ∷ []; parse = λ s. elim s [ [] ↦ none | n ∷ _ ↦ some n ] }

-- One envelope from before the start.
abbrev disk : MemoryKvStore
disk = (lit "envelopeDedup/e0", string (5 ∷ [])) ∷ []

abbrev calls : List Call
calls = note (lit "e1") 10 ∷ query (lit "e0") ∷ forget (lit "e1") ∷ []

memory-IsMirrored_example :
    IsMirrored JsMap.lookup
      (run memory_kv numerals calls (init memory_kv numerals (new_dedup disk)))
memory-IsMirrored_example =
    memory-IsMirrored memory_kv JsMap.lookup memory-IsLawful numerals calls disk

stored_names :
    All (λ k. is_empty (drop (length key_prefix) k) ≡ false) (memory_kv.list_keys key_prefix disk)
unfolding list_keys starts_with
stored_names = (refl, tt)

memory-IsBounded_example :
    IsBounded (run memory_kv numerals calls (init memory_kv numerals (new_dedup disk)))
memory-IsBounded_example =
    memory-IsBounded memory_kv numerals calls disk stored_names (refl, (tt, (tt, tt)))
