-- ===== src/Bundles/TopUp.antt =====
-- The server's count of one-time keys, and a first upload that fails: src/key_bundle.ts.
use secure_chat_client.Prelude.{
  ℕ, ◌+◌, ◌-◌, ◌≡◌, refl, ◌∙◌, Bool, true, false, Option, none, some, List, Text, leb, length,
  if◌then◌else◌, arith, inl, inr, Bool-cases,
}
use secure_chat_client.Bundles.{
  OneTimeKey, UploadBundle, CryptoAdapter, HttpClient, TopUpResult, ensure_key_bundle,
  top_up_if_needed,
}

module _ {S : Type 0} (crypto : CryptoAdapter S) (http : HttpClient S) (device_id : Text)
    (pool : S → ℕ) where
  -- A server that answers: it counts the keys of the device, and takes those that are sent; the
  -- adapter makes as many as it is asked for.
  pub record IsServing : Type 0 where
    pub counts : (s : S) → http.otk_count device_id s ≡ (some (pool s), s)
    pub makes :
        (n : ℕ) (s : S)
        → (ks : List OneTimeKey) × (length ks ≡ n)
          × (s' : S) × (crypto.generate_one_time_keys n s ≡ (some ks, s'))
          × (pool s' ≡ pool s)
    pub takes :
        (ks : List OneTimeKey) (s : S)
        → (s' : S) × (http.topup_otks device_id ks s ≡ (some (pool s'), s'))
          × (pool s' ≡ pool s + length ks)

  -- With a server that answers, a top-up returns, says whether it sent keys, and leaves the server
  -- with 100 keys if it had fewer than 20, and with those that it had if not.
  pub top_up_if_needed_lem :
      (s : S)
      → IsServing
      → (r : TopUpResult) × ((top_up_if_needed crypto http device_id s).0 ≡ some r)
        × (r.topped ≡ (if leb 20 (pool s) then false else true))
        × (pool (top_up_if_needed crypto http device_id s).1
            ≡ (if leb 20 (pool s) then pool s else 100))
  unfolding top_up_if_needed
  top_up_if_needed_lem s h = elim (Bool-cases (leb 20 (pool s))) [
    | inl enough ↦
        rw (h.counts s, top_up_if_needed, enough)
          (record { topped = false; new_count = none }, refl, refl, refl)
    | inr few ↦
        let (ks, many, s1, made, same) = h.makes (100 - pool s) s in
        let (s2, taken, more) = h.takes ks s1 in
        rw (h.counts s, top_up_if_needed, few, made, taken)
          (record { topped = true; new_count = some (pool s2) }, refl, refl, ground arith)
  ]

module _ {S : Type 0} (crypto : CryptoAdapter S) (http : HttpClient S) (device_id : Text)
    (known : S → Bool) (uploads : S → ℕ) where
  -- An adapter that keeps its account once it has one, and makes no request of its own; an upload,
  -- which may fail, does not touch the account.
  pub record IsKeeping : Type 0 where
    pub starts :
        (s : S)
        → (s' : S) × (crypto.init s ≡ (some tt, s'))
          × (known s' ≡ known s)
          × (uploads s' ≡ uploads s)
    pub tells : (s : S) → crypto.has_account s ≡ (some (known s), s)
    pub makes_account :
        (n : ℕ) (s : S)
        → (b : UploadBundle) × (s' : S) × (crypto.generate_account n s ≡ (some b, s'))
          × (known s' ≡ true)
    pub keeps :
        (b : UploadBundle) (s : S) → known (http.upload_key_bundle device_id b s).1 ≡ known s

  ensure_known :
      (n : Option ℕ) (s : S)
      → IsKeeping
      → known (ensure_key_bundle crypto http device_id n s).1 ≡ true
  unfolding ensure_key_bundle
  ensure_known n s h =
      let (s1, started, same, _) = h.starts s in
      elim (Bool-cases (known s1)) [
        | inl there ↦ rw (started, ensure_key_bundle, h.tells s1, there) there
        | inr new ↦
            let (b, s2, made, now) = h.makes_account (elim n [ none ↦ 100 | some k ↦ k ]) s1 in
            rw (started, ensure_key_bundle, h.tells s1, new, made) (h.keeps b s2 ∙ now)
      ]

  again :
      (k : Option ℕ) (s : S)
      → IsKeeping
      → known s ≡ true
      → ((ensure_key_bundle crypto http device_id k s).0 ≡ some tt)
        × (uploads (ensure_key_bundle crypto http device_id k s).1 ≡ uploads s)
  unfolding ensure_key_bundle
  again k s h there =
      let (s1, started, same, quiet) = h.starts s in
      rw (started, ensure_key_bundle, h.tells s1, same ∙ there) (refl, quiet)

  -- Once `ensureKeyBundle` was called, whether its upload succeeded or was rejected, a further call
  -- succeeds and uploads nothing.
  pub ensure_key_bundle_again :
      (n k : Option ℕ) (s : S)
      → IsKeeping
      → ((ensure_key_bundle crypto http device_id k
            (ensure_key_bundle crypto http device_id n s).1).0
          ≡ some tt)
        × (uploads
              (ensure_key_bundle crypto http device_id k
                (ensure_key_bundle crypto http device_id n s).1).1
            ≡ uploads (ensure_key_bundle crypto http device_id n s).1)
  ensure_key_bundle_again n k s h =
      again k (ensure_key_bundle crypto http device_id n s).1 h (ensure_known n s h)
