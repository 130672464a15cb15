-- ===== src/Tests/Storage.antt =====
-- Two users over one in-memory store: src/store/memory-adapter.ts and src/store/scoped-adapter.ts.
use secure_chat_client.Prelude.JsMap
use secure_chat_client.Prelude.{
  ◌≡◌, ◌≢◌, refl, ap, length, arith, none, [], ◌∷◌, ◌++◌, Text, lit, starts_with, if◌then◌else◌,
  ◌==◌,
}
use secure_chat_client.Store.{string, bytes, IsLawful}
use secure_chat_client.Store.Memory.{MemoryKvStore, memory_kv, memory-IsLawful}
use secure_chat_client.Store.Scoped.{
  scope_prefix, scoped_key, scoped_kv, scoped-IsLawful, NoSlash, put_string, write,
  scoped_isolation,
}
use secure_chat_client.Store.Migrate.{migrate_legacy_keys, wipe_scope}
use secure_chat_client.Store.Wipe.{wipe_scope_at}
use secure_chat_client.Store.Adoption.{IsAdopted, migrate-IsAdopted}

-- What an install from before the scopes left behind.
abbrev old_install : MemoryKvStore
old_install = (lit "identity", bytes (1 ∷ 2 ∷ [])) ∷ (lit "device", string (lit "d1")) ∷ []

scoped-IsLawful_example :
    IsLawful
      (scoped_kv memory_kv (lit "anna"))
      (λ k s. JsMap.lookup (scoped_key memory_kv (lit "anna") k) s)
scoped-IsLawful_example = scoped-IsLawful memory_kv JsMap.lookup (lit "anna") memory-IsLawful

apart : lit "anna" ≢ lit "bob"
apart e = absurd (omega (arith, ap length e))

NoSlash-ann : NoSlash (lit "anna")
NoSlash-ann = (omega arith, (omega arith, (omega arith, (omega arith, tt))))

NoSlash-bob : NoSlash (lit "bob")
NoSlash-bob = (omega arith, (omega arith, (omega arith, tt)))

scoped_isolation_example :
    JsMap.lookup
      (scoped_key memory_kv (lit "bob") (lit "device"))
      (write (scoped_kv memory_kv (lit "anna")) (put_string (lit "device") (lit "d2")) old_install)
    ≡ JsMap.lookup (scoped_key memory_kv (lit "bob") (lit "device")) old_install
scoped_isolation_example =
    scoped_isolation memory_kv JsMap.lookup (lit "anna") (lit "bob") (lit "device")
      (put_string (lit "device") (lit "d2")) old_install memory-IsLawful NoSlash-ann NoSlash-bob
      apart

wipe_scope_at_example :
    JsMap.lookup (lit "device") (wipe_scope memory_kv (lit "anna") old_install).1 ≡ (
      if starts_with (scope_prefix (lit "anna")) (lit "device")
      then none
      else JsMap.lookup (lit "device") old_install)
wipe_scope_at_example =
    wipe_scope_at memory_kv JsMap.lookup (lit "anna") memory-IsLawful (lit "device") old_install

unscoped : (k : Text) → JsMap.lookup (scope_prefix (lit "anna") ++ k) old_install ≡ none
unfolding JsMap.lookup ◌==◌
unscoped k = refl

migrate-IsAdopted_example :
    IsAdopted memory_kv JsMap.lookup
      (lit "anna")
      memory-IsLawful
      old_install
      (migrate_legacy_keys memory_kv (lit "anna") old_install).1
migrate-IsAdopted_example =
    migrate-IsAdopted memory_kv JsMap.lookup (lit "anna") memory-IsLawful old_install unscoped
