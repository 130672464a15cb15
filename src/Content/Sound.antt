-- ===== src/Content/Sound.antt =====
-- What the receiver may rely on in an event: src/content/protocol.ts, `decodeEvent`.
use secure_chat_client.Prelude.{
  ℕ, zero, suc, ◌≡◌, refl, Bool, true, false, Option, none, some, Text, ◌==◌, is_empty, lit,
  if◌then◌else◌, inl, inr, Bool-cases,
}
use secure_chat_client.Content.{
  ContentEvent, SelfEchoableEvent, BaseEvent, Fields, JsonText, ◌>>=◌, decode_within, decode_event,
  as_echoable, as_fields, original_at, filled_at, text_at, texts_at, number_at, member, header,
  decode_other, decode_echoable, echoable_base, echoable, received, typing, self_echo, app,
  chat_delete_self, too_new, typing_mark,
}

-- A header has the version 1 and an id.
abbrev pub IsHeader : BaseEvent → Type 0
IsHeader b = (b.v ≡ 1) × (is_empty b.id ≡ false)

-- The thread that a deletion names is no empty id.
abbrev pub NamesThread : SelfEchoableEvent → Type 0
NamesThread (chat_delete_self b p) = is_empty p ≡ false
NamesThread _ = Unit

abbrev pub IsSoundEchoable : SelfEchoableEvent → Type 0
IsSoundEchoable e = IsHeader (echoable_base e) × NamesThread e

abbrev pub IsSound : ContentEvent → Type 0
IsSound (echoable e) = IsSoundEchoable e
IsSound (received b l) = IsHeader b
IsSound (typing b m) = IsHeader b
IsSound (self_echo b p e) = IsHeader b × (is_empty p ≡ false) × IsSoundEchoable e
IsSound (app b ns p) = IsHeader b × (is_empty ns ≡ false)

-- The result has the property, if there is one.
abbrev Ensures : {A : Type 0} → (A → Type 0) → Option A → Type 0
Ensures P none = Unit
Ensures P (some a) = P a

bind-Ensures :
    {A B : Type 0} (P : A → Type 0) (Q : B → Type 0) (m : Option A) (f : A → Option B)
    → Ensures P m
    → ((a : A) → P a → Ensures Q (f a))
    → Ensures Q (m >>= f)
bind-Ensures P Q none f p h = tt
bind-Ensures P Q (some a) f p h = h a p

-- Any result.
any-Ensures :
    {A B : Type 0} (Q : B → Type 0) (m : Option A) (f : A → Option B)
    → ((a : A) → Ensures Q (f a))
    → Ensures Q (m >>= f)
any-Ensures Q none f h = tt
any-Ensures Q (some a) f h = h a

filled :
    (m : Option Text)
    → Ensures
        (λ s. is_empty s ≡ false)
        (elim m [ none ↦ none | some s ↦ if is_empty s then none else some s ])
filled none = tt
filled (some s) = elim (Bool-cases (is_empty s)) [ inl e ↦ rw e tt | inr n ↦ rw n n ]

filled_at-Ensures :
    (name : Text) (fs : Fields) → Ensures (λ s. is_empty s ≡ false) (filled_at name fs)
unfolding filled_at
filled_at-Ensures name fs = filled (text_at name fs)

abbrev HasHeader : BaseEvent × Text → Type 0
HasHeader p = IsHeader p.0

filled_if_known :
    (new : Bool) (fs : Fields)
    → Ensures (λ s. is_empty s ≡ false) (if new then none else filled_at (lit "id") fs)
filled_if_known true fs = tt
filled_if_known false fs = filled_at-Ensures (lit "id") fs

header-Ensures : (fs : Fields) → Ensures HasHeader (header fs)
unfolding header
header-Ensures fs = any-Ensures HasHeader (number_at (lit "v") fs) _ (λ v.
    bind-Ensures (λ s. is_empty s ≡ false) HasHeader
      (if too_new v then none else filled_at (lit "id") fs) _ (filled_if_known (too_new v) fs)
      (λ id h.
        any-Ensures HasHeader (text_at (lit "type") fs) _
          (λ type. any-Ensures HasHeader (number_at (lit "clientSentAt") fs) _ (λ at. (refl, h)))))

if-Ensures :
    {A : Type 0} (P : A → Type 0) (test : Bool) (yes_result no_result : Option A)
    → Ensures P yes_result
    → Ensures P no_result
    → Ensures P (if test then yes_result else no_result)
if-Ensures P true s t h k = h
if-Ensures P false s t h k = k

decode_echoable-Ensures :
    (b : BaseEvent) (type : Text) (fs : Fields)
    → IsHeader b
    → Ensures IsSoundEchoable (decode_echoable b type fs)
unfolding decode_echoable
decode_echoable-Ensures b type fs h =
    if-Ensures IsSoundEchoable (type == lit "text") _ _
      (any-Ensures IsSoundEchoable (text_at (lit "text") fs) _ (λ s. (h, tt)))
      (if-Ensures IsSoundEchoable (type == lit "edit") _ _
        (any-Ensures IsSoundEchoable (text_at (lit "targetId") fs) _
          (λ k. any-Ensures IsSoundEchoable (text_at (lit "text") fs) _ (λ s. (h, tt))))
        (if-Ensures IsSoundEchoable (type == lit "delete") _ _
          (any-Ensures IsSoundEchoable (text_at (lit "targetId") fs) _ (λ k. (h, tt)))
          (if-Ensures IsSoundEchoable (type == lit "read") _ _
            (any-Ensures IsSoundEchoable (text_at (lit "upToId") fs) _ (λ k. (h, tt)))
            (if-Ensures IsSoundEchoable (type == lit "chatDeleteSelf") _ _
              (bind-Ensures (λ p. is_empty p ≡ false) IsSoundEchoable
                (filled_at (lit "peerUserId") fs) _ (filled_at-Ensures (lit "peerUserId") fs)
                (λ p named. (h, named)))
              (if-Ensures IsSoundEchoable (type == lit "chatDeleteAll") _ _ (h, tt) tt)))))

decode_other-Ensures :
    (b : BaseEvent) (type : Text) (fs : Fields)
    → IsHeader b
    → Ensures IsSound (decode_other b type fs)
unfolding decode_other
decode_other-Ensures b type fs h =
    if-Ensures IsSound (type == lit "received") _ _
      (any-Ensures IsSound (texts_at (lit "ids") fs) _ (λ l. h))
      (if-Ensures IsSound (type == lit "typing") _ _
        (any-Ensures IsSound (text_at (lit "state") fs) _
          (λ s. any-Ensures IsSound (typing_mark s) _ (λ m. h)))
        (if-Ensures IsSound (type == lit "app") _ _
          (bind-Ensures (λ ns. is_empty ns ≡ false) IsSound (filled_at (lit "ns") fs) _
            (filled_at-Ensures (lit "ns") fs)
            (λ ns named. any-Ensures IsSound (member (lit "payload") fs) _ (λ p. (h, named))))
          (bind-Ensures IsSoundEchoable IsSound (decode_echoable b type fs) _
            (decode_echoable-Ensures b type fs h) (λ e sound. sound))))

as_echoable-Ensures : (e : ContentEvent) → IsSound e → Ensures IsSoundEchoable (as_echoable e)
as_echoable-Ensures (echoable e) h = h
as_echoable-Ensures (received b l) h = tt
as_echoable-Ensures (typing b m) h = tt
as_echoable-Ensures (self_echo b p e) h = tt
as_echoable-Ensures (app b ns p) h = tt

module _ (json : JsonText) where
  decode_within-Ensures : (n : ℕ) (s : Text) → Ensures IsSound (decode_within json n s)
  unfolding decode_within
  decode_within-Ensures zero s = tt
  decode_within-Ensures (suc n) s = any-Ensures IsSound (json.parse s) _ (λ raw.
      any-Ensures IsSound (as_fields raw) _ (λ fs.
        bind-Ensures HasHeader IsSound (header fs) _ (header-Ensures fs) (λ (b, type) h.
          if-Ensures IsSound (type == lit "selfEcho") _ _
            (bind-Ensures (λ p. is_empty p ≡ false) IsSound (filled_at (lit "originalPeer") fs) _
              (filled_at-Ensures (lit "originalPeer") fs)
              (λ peer named. any-Ensures IsSound (original_at fs) _ (λ original.
                bind-Ensures IsSound IsSound (decode_within json n (json.stringify original)) _
                  (decode_within-Ensures n (json.stringify original))
                  (λ inner sound.
                    bind-Ensures IsSoundEchoable IsSound (as_echoable inner) _
                      (as_echoable-Ensures inner sound) (λ e ok. (h, named, ok))))))
            (decode_other-Ensures b type fs h))))

  -- Whatever text arrives and whatever `JSON.parse` makes of it: an event that `decodeEvent` returns
  -- has the version 1 and an id that is not empty, so has the event that it echoes, and the peer
  -- of an echo, the thread of a `chatDeleteSelf` and the namespace of an `app` are not empty.
  pub decode_event-IsSound :
      (plaintext : Text) (e : ContentEvent) → decode_event json plaintext ≡ some e → IsSound e
  decode_event-IsSound plaintext e h = rw h at (decode_within-Ensures 2 plaintext)
