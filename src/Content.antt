-- ===== src/Content.antt =====
-- The content protocol: src/content/protocol.ts, the events inside the ciphertext.
-- The two functions of `JSON` and the texts' UTF-8 coding are not of this repository: `parse` gives
-- the value of a text, or nothing where `JSON.parse` throws, and `stringify` is `JSON.stringify`.
pub mod RoundTrip
pub mod Decoding
pub mod Factories
pub mod Sound
use secure_chat_client.Prelude.{
  ℕ, zero, suc, ◌*◌, ◌^◌, Bool, true, false, not, ◌&&◌, ◌||◌, Option, none, some, List, [], ◌∷◌,
  Text, ◌==◌, is_empty, lit, ltb, eqb, if◌then◌else◌,
}

-- A number: `mantissa / 10 ^ scale`, below zero if `negative`.
pub record Number : Type 0 where
  pub negative : Bool
  pub mantissa : ℕ
  pub scale : ℕ

mutual
  pub data Json : Type 0 where
    null : Json
    bool : Bool → Json
    num : Number → Json
    str : Text → Json
    arr : Items → Json
    obj : Fields → Json

  pub data Items : Type 0 where
    nil : Items
    cons : Json → Items → Items

  pub data Fields : Type 0 where
    end : Fields
    field : Text → Json → Fields → Fields

pub record JsonText : Type 0 where
  pub parse : Text → Option Json
  pub stringify : Json → Text

abbrev pub content_protocol_version : ℕ
content_protocol_version = 1

abbrev pub edit_window_ms : ℕ
edit_window_ms = 86400000

-- The header of every event.
pub record BaseEvent : Type 0 where
  pub v : ℕ
  pub id : Text
  pub client_sent_at : Number

pub data TypingMark : Type 0 where
  started stopped : TypingMark

pub data SelfEchoableEvent : Type 0 where
  text : BaseEvent → Text → Option Text → SelfEchoableEvent
  edit : BaseEvent → Text → Text → SelfEchoableEvent
  delete : BaseEvent → Text → SelfEchoableEvent
  read : BaseEvent → Text → SelfEchoableEvent
  chat_delete_self : BaseEvent → Text → SelfEchoableEvent
  chat_delete_all : BaseEvent → SelfEchoableEvent

pub data ContentEvent : Type 0 where
  echoable : SelfEchoableEvent → ContentEvent
  received : BaseEvent → List Text → ContentEvent
  typing : BaseEvent → TypingMark → ContentEvent
  self_echo : BaseEvent → Text → SelfEchoableEvent → ContentEvent
  app : BaseEvent → Text → Json → ContentEvent

-- `obj[name]`, and nothing where it is `undefined`.
unfoldable pub member : Text → Fields → Option Json
member name end = none
member name (field k j fs) = if k == name then some j else member name fs

-- The member as a string; nothing if it is missing or of another type.
unfoldable pub text_at : Text → Fields → Option Text
unfolding member
text_at name fs = elim (member name fs) [ none ↦ none | some (str s) ↦ some s | some _ ↦ none ]

unfoldable pub number_at : Text → Fields → Option Number
unfolding member
number_at name fs = elim (member name fs) [ none ↦ none | some (num n) ↦ some n | some _ ↦ none ]

-- A string that is not empty.
unfoldable pub filled_at : Text → Fields → Option Text
unfolding text_at
filled_at name fs = elim (text_at name fs) [
  | none ↦ none
  | some s ↦ if is_empty s then none else some s
]

-- `n > CONTENT_PROTOCOL_VERSION`
abbrev pub too_new : Number → Bool
too_new n = not n.negative && ltb (content_protocol_version * 10 ^ n.scale) n.mantissa

-- The array as strings; nothing if an element is of another type.
unfoldable pub every_text : Items → Option (List Text)
every_text nil = some []
every_text (cons (str s) js) = elim (every_text js) [ none ↦ none | some l ↦ some (s ∷ l) ]
every_text (cons _ js) = none

unfoldable pub texts_at : Text → Fields → Option (List Text)
unfolding member every_text
texts_at name fs = elim (member name fs) [
  | none ↦ none
  | some (arr js) ↦ every_text js
  | some _ ↦ none
]

abbrev pub typing_mark : Text → Option TypingMark
typing_mark s =
    if s == lit "started" then some started else (if s == lit "stopped" then some stopped else none)

infixl 5 ◌>>=◌
-- An early `return null` ends the chain.
abbrev pub ◌>>=◌ : {Found Result : Type 0} → Option Found → (Found → Option Result) → Option Result
none >>= continue = none
some found >>= continue = continue found

-- The checks of the header: `v`, `id`, `type`, `clientSentAt`, in this order.
unfoldable pub header : Fields → Option (BaseEvent × Text)
unfolding number_at filled_at text_at
header fs = do
  v ← number_at (lit "v") fs
  id ← if too_new v then none else filled_at (lit "id") fs
  type ← text_at (lit "type") fs
  at ← number_at (lit "clientSentAt") fs
  some (record { v = 1; id = id; client_sent_at = at }, type)

-- The cases of `switch (obj.type)` whose events may stand in a self-echo.
unfoldable pub decode_echoable : BaseEvent → Text → Fields → Option SelfEchoableEvent
unfolding text_at filled_at
decode_echoable b type fs =
    if type == lit "text"
    then text_at (lit "text") fs >>= (λ s. some (text b s (text_at (lit "replyTo") fs)))
    else if type == lit "edit"
    then text_at (lit "targetId") fs >>= (λ k. text_at (lit "text") fs >>= (λ s. some (edit b k s)))
    else if type == lit "delete"
    then text_at (lit "targetId") fs >>= (λ k. some (delete b k))
    else if type == lit "read"
    then text_at (lit "upToId") fs >>= (λ k. some (read b k))
    else if type == lit "chatDeleteSelf"
    then filled_at (lit "peerUserId") fs >>= (λ p. some (chat_delete_self b p))
    else if type == lit "chatDeleteAll"
    then some (chat_delete_all b)
    else none

-- The other cases, but for the self-echo.
unfoldable pub decode_other : BaseEvent → Text → Fields → Option ContentEvent
unfolding text_at texts_at filled_at member decode_echoable
decode_other b type fs =
    if type == lit "received"
    then texts_at (lit "ids") fs >>= (λ ids. some (received b ids))
    else if type == lit "typing"
    then text_at (lit "state") fs >>= (λ s. typing_mark s >>= (λ m. some (typing b m)))
    else if type == lit "app"
    then filled_at (lit "ns") fs >>= (λ ns. member (lit "payload") fs >>= (λ p. some (app b ns p)))
    else decode_echoable b type fs >>= (λ e. some (echoable e))

-- The types that a self-echo carries.
abbrev pub as_echoable : ContentEvent → Option SelfEchoableEvent
as_echoable (echoable e) = some e
as_echoable _ = none

-- The member `original` as JSON: an object or an array, and not `null`.
unfoldable pub original_at : Fields → Option Json
unfolding member
original_at fs = elim (member (lit "original") fs) [
  | none ↦ none
  | some (obj gs) ↦ some (obj gs)
  | some (arr js) ↦ some (arr js)
  | some _ ↦ none
]

abbrev pub as_fields : Json → Option Fields
as_fields (obj fs) = some fs
as_fields _ = none

module _ (json : JsonText) where
  -- `decodeEvent`, which calls itself on the text of the echoed event, at most `fuel` deep.
  unfoldable pub decode_within : ℕ → Text → Option ContentEvent
  unfolding header decode_other filled_at original_at
  decode_within zero plaintext = none
  decode_within (suc fuel) plaintext = json.parse plaintext >>= (λ raw. as_fields raw >>= (λ fs.
      header fs >>= (λ (b, type).
        if type == lit "selfEcho"
        then filled_at (lit "originalPeer") fs >>= (λ peer. original_at fs >>= (λ original.
          decode_within fuel (json.stringify original)
          >>= (λ inner. as_echoable inner >>= (λ e. some (self_echo b peer e)))))
        else decode_other b type fs)))

  -- Two levels are enough, since what a self-echo carries is none.
  abbrev pub decode_event : Text → Option ContentEvent
  decode_event = decode_within 2

-- The members of every event, in front of its own.
abbrev pub with_header : BaseEvent → Text → Fields → Fields
with_header b type fs =
    field (lit "v") (num (record { negative = false; mantissa = b.v; scale = 0 })) (
      field (lit "id") (str b.id)
        (field (lit "type") (str type) (field (lit "clientSentAt") (num b.client_sent_at) fs)))

abbrev pub reply_field : Option Text → Fields
reply_field none = end
reply_field (some s) = field (lit "replyTo") (str s) end

abbrev pub echoable_fields : SelfEchoableEvent → Fields
echoable_fields (text b s r) =
    with_header b (lit "text") (field (lit "text") (str s) (reply_field r))
echoable_fields (edit b k s) =
    with_header b (lit "edit") (field (lit "targetId") (str k) (field (lit "text") (str s) end))
echoable_fields (delete b k) = with_header b (lit "delete") (field (lit "targetId") (str k) end)
echoable_fields (read b k) = with_header b (lit "read") (field (lit "upToId") (str k) end)
echoable_fields (chat_delete_self b p) =
    with_header b (lit "chatDeleteSelf") (field (lit "peerUserId") (str p) end)
echoable_fields (chat_delete_all b) = with_header b (lit "chatDeleteAll") end

unfoldable pub text_items : List Text → Items
text_items [] = nil
text_items (s ∷ l) = cons (str s) (text_items l)

abbrev pub mark_text : TypingMark → Text
mark_text started = lit "started"
mark_text stopped = lit "stopped"

-- The object that is the event.
unfoldable pub event_fields : ContentEvent → Fields
unfolding text_items
event_fields (echoable e) = echoable_fields e
event_fields (received b l) =
    with_header b (lit "received") (field (lit "ids") (arr (text_items l)) end)
event_fields (typing b m) =
    with_header b (lit "typing") (field (lit "state") (str (mark_text m)) end)
event_fields (self_echo b p e) =
    with_header b (lit "selfEcho")
      (field (lit "originalPeer") (str p) (field (lit "original") (obj (echoable_fields e)) end))
event_fields (app b ns p) =
    with_header b (lit "app") (field (lit "ns") (str ns) (field (lit "payload") p end))

abbrev pub echoable_base : SelfEchoableEvent → BaseEvent
echoable_base (text b s r) = b
echoable_base (edit b k s) = b
echoable_base (delete b k) = b
echoable_base (read b k) = b
echoable_base (chat_delete_self b p) = b
echoable_base (chat_delete_all b) = b

abbrev pub base : ContentEvent → BaseEvent
base (echoable e) = echoable_base e
base (received b l) = b
base (typing b m) = b
base (self_echo b p e) = b
base (app b ns p) = b

-- `encodeEvent`: nothing where it throws; the type of an event is never empty.
unfoldable pub encode_event : JsonText → ContentEvent → Option Text
unfolding event_fields
encode_event json e =
    if not (eqb (base e).v content_protocol_version) || is_empty (base e).id
    then none
    else some (json.stringify (obj (event_fields e)))
