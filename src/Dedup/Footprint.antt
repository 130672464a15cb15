-- ===== src/Dedup/Footprint.antt =====
-- Which keys of the storage the memory of envelopes touches: src/envelope_dedup.ts.
use secure_chat_client.Dedup.{Numerals, EnvelopeDedup, key_prefix, trim, add_known, remove_known}
use secure_chat_client.Prelude.JsMap
use secure_chat_client.Prelude.JsMap.{JsMap}
use secure_chat_client.Prelude.{
  ℕ, ◌≡◌, refl, ap, false, Option, ◌∷◌, ◌++◌, [], Text, ◌==◌, eq_iff, arith, inl, inr, Bool-cases,
  starts_with, starts_with-append,
}
use secure_chat_client.Store.{Stored, KvOps, IsLawful}

outside_prefix : (x k : Text) → starts_with key_prefix k ≡ false → (key_prefix ++ x == k) ≡ false
outside_prefix x k outside = elim (Bool-cases (key_prefix ++ x == k)) [
  | inr other ↦ other
  | inl same ↦
      let e : key_prefix ++ x ≡ k = (eq_iff (key_prefix ++ x) k).0 same in
      ground (arith, outside, ap (starts_with key_prefix) e, starts_with-append key_prefix x)
]

module _ {S : Type 0} (kv : KvOps S) (at : Text → S → Option Stored) (l : IsLawful kv at) (k : Text)
    (outside : starts_with key_prefix k ≡ false) where
  trim-at : (m : JsMap ℕ) (s : S) → at k (trim kv m s).1 ≡ at k s
  unfolding trim
  trim-at [] s = refl
  trim-at ((oldest, ts) ∷ m) s = ground (
    arith,
    trim-at m (kv.delete (key_prefix ++ oldest) s),
    l.at-delete (key_prefix ++ oldest) k s,
    outside_prefix oldest k outside,
  )

  pub add_known-at :
      (numerals : Numerals) (uuid : Text) (now : ℕ) (d : EnvelopeDedup S)
      → at k (add_known kv numerals uuid now d).store ≡ at k d.store
  unfolding add_known
  add_known-at numerals uuid now d =
      let s : S = kv.set_string (key_prefix ++ uuid) (numerals.print now) d.store in
      ground (
        arith,
        trim-at (JsMap.insert uuid now d.cache) s,
        l.at-set_string (key_prefix ++ uuid) k (numerals.print now) d.store,
        outside_prefix uuid k outside,
      )

  pub remove_known-at :
      (numerals : Numerals) (uuid : Text) (d : EnvelopeDedup S)
      → at k (remove_known kv numerals uuid d).store ≡ at k d.store
  unfolding remove_known
  remove_known-at numerals uuid d =
      ground (arith, l.at-delete (key_prefix ++ uuid) k d.store, outside_prefix uuid k outside)
