-- ===== src/Dedup/Calls.antt =====
-- The memory over any sequence of calls: src/envelope_dedup.ts.
use secure_chat_client.Prelude.{ℕ, ◌≡◌, false, List, [], ◌∷◌, Text, is_empty, length, drop, All}
use secure_chat_client.Store.{KvOps}
use secure_chat_client.Dedup.{
  Numerals, EnvelopeDedup, key_prefix, init, add, remove, has, new_dedup,
}
use secure_chat_client.Dedup.Capacity.{
  IsBounded, init-IsBounded, init_ready, add_known-IsBounded, remove_known-IsBounded,
}

-- The calls of the client.
pub data Call : Type 0 where
  query : Text → Call
  note : Text → ℕ → Call
  forget : Text → Call

abbrev pub WellNamed : Call → Type 0
WellNamed (note u now) = is_empty u ≡ false
WellNamed _ = Unit

module _ {S : Type 0} (kv : KvOps S) (numerals : Numerals) where
  unfoldable pub apply_call : Call → EnvelopeDedup S → EnvelopeDedup S
  unfolding has add remove
  apply_call (query u) d = (has kv numerals u d).1
  apply_call (note u now) d = add kv numerals u now d
  apply_call (forget u) d = remove kv numerals u d

  unfoldable pub run : List Call → EnvelopeDedup S → EnvelopeDedup S
  unfolding apply_call
  run [] d = d
  run (c ∷ cs) d = run cs (apply_call c d)

  apply_call-IsBounded :
      (c : Call) (d : EnvelopeDedup S) → WellNamed c → IsBounded d → IsBounded (apply_call c d)
  unfolding apply_call
  apply_call-IsBounded (query u) d name b = rw (init_ready kv numerals d b.ready) b
  apply_call-IsBounded (note u now) d name b =
      rw (init_ready kv numerals d b.ready) (add_known-IsBounded kv numerals u now d name b)
  apply_call-IsBounded (forget u) d name b =
      rw (init_ready kv numerals d b.ready) (remove_known-IsBounded kv numerals u d b)

  run-IsBounded :
      (cs : List Call) (d : EnvelopeDedup S) → All WellNamed cs → IsBounded d → IsBounded (run cs d)
  unfolding run
  run-IsBounded [] d names b = b
  run-IsBounded (c ∷ cs) d names b =
      run-IsBounded cs (apply_call c d) names.1 (apply_call-IsBounded c d names.0 b)

  -- Whatever was stored before, after the start and any calls the memory holds at most 1000 ids,
  -- as long as no id is the empty string.
  pub memory-IsBounded :
      (cs : List Call) (s : S)
      → All (λ k. is_empty (drop (length key_prefix) k) ≡ false) (kv.list_keys key_prefix s)
      → All WellNamed cs
      → IsBounded (run cs (init kv numerals (new_dedup s)))
  memory-IsBounded cs s stored names =
      run-IsBounded cs (init kv numerals (new_dedup s)) names (init-IsBounded kv numerals s stored)
