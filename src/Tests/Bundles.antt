-- ===== src/Tests/Bundles.antt =====
-- A server that rejects every upload and counts the keys: src/key_bundle.ts.
use secure_chat_client.Prelude.{
  ℕ, zero, suc, ◌+◌, ◌≡◌, refl, Bool, true, false, none, some, List, [], ◌∷◌, lit, length, arith,
}
use secure_chat_client.Bundles.{
  OneTimeKey, UploadBundle, CryptoAdapter, HttpClient, ensure_key_bundle,
}
use secure_chat_client.Bundles.TopUp.{IsServing, IsKeeping, ensure_key_bundle_again}

-- The account, the keys on the server, and the number of uploads.
record Phone : Type 0 where
  account : Bool
  keys : ℕ
  uploads : ℕ

abbrev one_key : OneTimeKey
one_key = record { id = lit "k"; public_key = lit "p" }

abbrev make : ℕ → List OneTimeKey
make zero = []
make (suc n) = one_key ∷ make n

length-make : (n : ℕ) → length (make n) ≡ n
length-make zero = refl
length-make (suc n) = omega (arith, length-make n)

abbrev bundle : UploadBundle
bundle = record {
  identity_key_curve = lit "c";
  identity_key_ed = lit "e";
  signed_prekey = lit "s";
  signed_prekey_sig = lit "t";
  fallback_prekey = lit "b";
  fallback_prekey_sig = lit "u";
  fingerprint = lit "f";
  one_time_keys = [];
}

abbrev crypto : CryptoAdapter Phone
crypto = record {
  init = λ s. (some tt, s);
  has_account = λ s. (some s.account, s);
  generate_account = λ n s. (some bundle, record s { account = true });
  get_current_bundle = λ s. (some bundle, s);
  generate_one_time_keys = λ n s. (some (make n), s);
}

abbrev http : HttpClient Phone
http = record {
  upload_key_bundle = λ d b s. (none, record s { uploads = s.uploads + 1 });
  otk_count = λ d s. (some s.keys, s);
  topup_otks = λ d ks s. (some (s.keys + length ks), record s { keys = s.keys + length ks });
}

abbrev phone : Phone
phone = record { account = false; keys = 7; uploads = 0 }

serving : IsServing crypto http (lit "d1") (λ s. s.keys)
serving = record {
  counts = λ s. refl;
  makes = λ n s. (make n, length-make n, s, refl, refl);
  takes = λ ks s. (record s { keys = s.keys + length ks }, refl, refl);
}

keeping : IsKeeping crypto http (lit "d1") (λ s. s.account) (λ s. s.uploads)
keeping = record {
  starts = λ s. (s, refl, refl, refl);
  tells = λ s. refl;
  makes_account = λ n s. (bundle, record s { account = true }, refl, refl);
  keeps = λ b s. refl;
}

ensure_key_bundle_again_example :
    ((ensure_key_bundle crypto http
        (lit "d1")
        none
        (ensure_key_bundle crypto http (lit "d1") none phone).1).0
      ≡ some tt)
    × ((ensure_key_bundle crypto http
          (lit "d1")
          none
          (ensure_key_bundle crypto http (lit "d1") none phone).1).1.uploads
        ≡ (ensure_key_bundle crypto http (lit "d1") none phone).1.uploads)
ensure_key_bundle_again_example =
    ensure_key_bundle_again crypto http (lit "d1") (λ s. s.account) (λ s. s.uploads) none none phone
      keeping
