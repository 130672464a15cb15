-- ===== src/Bundles.antt =====
-- The life of the device keys: src/key_bundle.ts, class `KeyBundleManager`, over the interface of
-- src/crypto/interface.ts and the HTTP client as records of operations on a state. An operation
-- gives nothing where its promise is rejected. Calls come one after the other, so `inflightTopup`
-- is null when a call starts.
pub mod TopUp
use secure_chat_client.Prelude.{
  ℕ, ◌-◌, Bool, true, false, Option, none, some, List, Text, leb, if◌then◌else◌,
}

pub record OneTimeKey : Type 0 where
  pub id : Text
  pub public_key : Text

pub record UploadBundle : Type 0 where
  pub identity_key_curve : Text
  pub identity_key_ed : Text
  pub signed_prekey : Text
  pub signed_prekey_sig : Text
  pub fallback_prekey : Text
  pub fallback_prekey_sig : Text
  pub fingerprint : Text
  pub one_time_keys : List OneTimeKey

abbrev pub Action : Type 0 → Type 0 → Type 0
Action S A = S → Option A × S

pub record CryptoAdapter (S : Type 0) : Type 0 where
  pub init : Action S Unit
  pub has_account : Action S Bool
  pub generate_account : ℕ → Action S UploadBundle
  pub get_current_bundle : Action S UploadBundle
  pub generate_one_time_keys : ℕ → Action S (List OneTimeKey)

pub record HttpClient (S : Type 0) : Type 0 where
  pub upload_key_bundle : Text → UploadBundle → Action S Unit
  pub otk_count : Text → Action S ℕ
  pub topup_otks : Text → List OneTimeKey → Action S ℕ

pub record TopUpResult : Type 0 where
  pub topped : Bool
  pub new_count : Option ℕ

abbrev pub default_otk_count : ℕ
default_otk_count = 100

abbrev pub otk_topup_watermark : ℕ
otk_topup_watermark = 20

abbrev pub otk_topup_target : ℕ
otk_topup_target = 100

-- `await`: a rejection ends the call.
abbrev pub await :
    {S Value Result : Type 0} → Option Value × S → (Value → Action S Result) → Option Result × S
await (none, s) next = (none, s)
await (some value, s) next = next value s

module _ {S : Type 0} (crypto : CryptoAdapter S) (http : HttpClient S) (device_id : Text) where
  unfoldable pub ensure_key_bundle : Option ℕ → Action S Unit
  ensure_key_bundle initial_otk_count s = await (crypto.init s) (λ _ s1.
      await (crypto.has_account s1) (λ known s2.
        if known
        then (some tt, s2)
        else await
            (crypto.generate_account
              (elim initial_otk_count [ none ↦ default_otk_count | some n ↦ n ]) s2)
            (λ bundle s3. http.upload_key_bundle device_id bundle s3)))

  unfoldable pub reupload_current_bundle : Action S Unit
  reupload_current_bundle s = await (crypto.init s) (λ _ s1.
      await (crypto.has_account s1) (λ known s2.
        if known
        then await (crypto.get_current_bundle s2)
            (λ bundle s3. http.upload_key_bundle device_id bundle s3)
        else (none, s2)))

  unfoldable pub top_up_if_needed : Action S TopUpResult
  top_up_if_needed s = await (http.otk_count device_id s) (λ count s1.
      if leb otk_topup_watermark count
      then (some (record { topped = false; new_count = none }), s1)
      else await (crypto.generate_one_time_keys (otk_topup_target - count) s1) (λ fresh s2.
        await (http.topup_otks device_id fresh s2)
          (λ current s3. (some (record { topped = true; new_count = some current }), s3))))
