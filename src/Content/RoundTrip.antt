-- ===== src/Content/RoundTrip.antt =====
-- An event that was encoded is decoded as it was: src/content/protocol.ts, `encodeEvent` and
-- `decodeEvent`.
use secure_chat_client.Prelude.{
  ℕ, suc, ◌≡◌, refl, false, none, some, List, [], ◌∷◌, Text, ◌==◌, is_empty, lit, eqb, inl, inr,
  Bool-cases, arith,
}
use secure_chat_client.Content.{
  ContentEvent, SelfEchoableEvent, BaseEvent, Fields, Json, JsonText, decode_within, decode_event,
  every_text, text_items, original_at, filled_at, text_at, texts_at, number_at, member, header,
  decode_other, decode_echoable, base, echoable_base, echoable, received, typing, self_echo, app,
  text, edit, delete, read, chat_delete_self, chat_delete_all, obj, with_header, event_fields,
  echoable_fields, encode_event, started, stopped,
}

-- The members that `decodeEvent` wants filled.
abbrev pub IsFilledEchoable : SelfEchoableEvent → Type 0
IsFilledEchoable (chat_delete_self b p) = is_empty p ≡ false
IsFilledEchoable _ = Unit

abbrev pub IsFilled : ContentEvent → Type 0
IsFilled (echoable e) = IsFilledEchoable e
IsFilled (self_echo b p e) =
    (is_empty p ≡ false)
    × ((echoable_base e).v ≡ 1)
    × (is_empty (echoable_base e).id ≡ false)
    × IsFilledEchoable e
IsFilled (app b ns p) = is_empty ns ≡ false
IsFilled _ = Unit

every_text-text_items : (l : List Text) → every_text (text_items l) ≡ some l
unfolding every_text text_items
every_text-text_items [] = refl
every_text-text_items (s ∷ l) = rw (every_text-text_items l) refl

header-with_header :
    (b : BaseEvent) (type : Text) (fs : Fields)
    → b.v ≡ 1
    → is_empty b.id ≡ false
    → header (with_header b type fs) ≡ some (b, type)
unfolding header number_at filled_at text_at member ◌==◌
header-with_header b type fs v i = rw (v, i) refl

abbrev echoable_type : SelfEchoableEvent → Text
echoable_type (text b s r) = lit "text"
echoable_type (edit b k s) = lit "edit"
echoable_type (delete b k) = lit "delete"
echoable_type (read b k) = lit "read"
echoable_type (chat_delete_self b p) = lit "chatDeleteSelf"
echoable_type (chat_delete_all b) = lit "chatDeleteAll"

header-echoable_fields :
    (e : SelfEchoableEvent)
    → (echoable_base e).v ≡ 1
    → is_empty (echoable_base e).id ≡ false
    → header (echoable_fields e) ≡ some (echoable_base e, echoable_type e)
header-echoable_fields (text b s r) v i = header-with_header b (lit "text") _ v i
header-echoable_fields (edit b k s) v i = header-with_header b (lit "edit") _ v i
header-echoable_fields (delete b k) v i = header-with_header b (lit "delete") _ v i
header-echoable_fields (read b k) v i = header-with_header b (lit "read") _ v i
header-echoable_fields (chat_delete_self b p) v i =
    header-with_header b (lit "chatDeleteSelf") _ v i
header-echoable_fields (chat_delete_all b) v i = header-with_header b (lit "chatDeleteAll") _ v i

decode_other-echoable_fields :
    (e : SelfEchoableEvent)
    → IsFilledEchoable e
    → decode_other (echoable_base e) (echoable_type e) (echoable_fields e) ≡ some (echoable e)
unfolding decode_other decode_echoable text_at filled_at member ◌==◌
decode_other-echoable_fields (text b s none) h = refl
decode_other-echoable_fields (text b s (some r)) h = refl
decode_other-echoable_fields (edit b k s) h = refl
decode_other-echoable_fields (delete b k) h = refl
decode_other-echoable_fields (read b k) h = refl
decode_other-echoable_fields (chat_delete_self b p) h = rw h refl
decode_other-echoable_fields (chat_delete_all b) h = refl

echoable_type_no_echo : (e : SelfEchoableEvent) → (echoable_type e == lit "selfEcho") ≡ false
unfolding ◌==◌
echoable_type_no_echo (text b s r) = refl
echoable_type_no_echo (edit b k s) = refl
echoable_type_no_echo (delete b k) = refl
echoable_type_no_echo (read b k) = refl
echoable_type_no_echo (chat_delete_self b p) = refl
echoable_type_no_echo (chat_delete_all b) = refl

module _ (json : JsonText) where
  -- The text of the value reads back as the value.
  abbrev pub Survives : Json → Type 0
  Survives j = json.parse (json.stringify j) ≡ some j

  decode-echoable_fields :
      (n : ℕ) (e : SelfEchoableEvent)
      → Survives (obj (echoable_fields e))
      → (echoable_base e).v ≡ 1
      → is_empty (echoable_base e).id ≡ false
      → IsFilledEchoable e
      → decode_within json (suc n) (json.stringify (obj (echoable_fields e))) ≡ some (echoable e)
  unfolding decode_within
  decode-echoable_fields n e s v i h =
      rw (s, header-echoable_fields e v i, echoable_type_no_echo e)
        (decode_other-echoable_fields e h)

  -- The value that a self-echo carries inside of it.
  abbrev pub EchoSurvives : ContentEvent → Type 0
  EchoSurvives (self_echo b p e) = Survives (obj (echoable_fields e))
  EchoSurvives _ = Unit

  decode-event_fields :
      (e : ContentEvent)
      → Survives (obj (event_fields e))
      → EchoSurvives e
      → (base e).v ≡ 1
      → is_empty (base e).id ≡ false
      → IsFilled e
      → decode_event json (json.stringify (obj (event_fields e))) ≡ some e
  unfolding decode_within event_fields decode_other ◌==◌ text_at filled_at texts_at original_at
      member
  decode-event_fields (echoable e) s _ v i h = decode-echoable_fields 1 e s v i h
  decode-event_fields (received b l) s _ v i h =
      rw (s, header-with_header b (lit "received") _ v i, every_text-text_items l) refl
  decode-event_fields (typing b started) s _ v i h =
      rw (s, header-with_header b (lit "typing") _ v i) refl
  decode-event_fields (typing b stopped) s _ v i h =
      rw (s, header-with_header b (lit "typing") _ v i) refl
  decode-event_fields (self_echo b p e) s t v i h =
      rw
        (
          s,
          header-with_header b (lit "selfEcho") _ v i,
          h.0,
          t,
          header-echoable_fields e h.1 h.2,
          echoable_type_no_echo e,
          decode_other-echoable_fields e h.3,
        )
        refl
  decode-event_fields (app b ns p) s _ v i h =
      rw (s, header-with_header b (lit "app") _ v i, h) refl

  pub decode_event-encode_event :
      (e : ContentEvent) (plaintext : Text)
      → encode_event json e ≡ some plaintext
      → IsFilled e
      → Survives (obj (event_fields e))
      → EchoSurvives e
      → decode_event json plaintext ≡ some e
  unfolding encode_event
  decode_event-encode_event e plaintext ok h s t = elim (Bool-cases (eqb (base e).v 1)) [
    | inr v ↦ absurd (ground arith)
    | inl v ↦ elim (Bool-cases (is_empty (base e).id)) [
      | inl i ↦ absurd (ground arith)
      | inr i ↦ ground (arith, decode-event_fields e s t (ground arith) i h)
    ]
  ]
