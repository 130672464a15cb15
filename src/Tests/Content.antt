-- ===== src/Tests/Content.antt =====
-- A message and its echo to the user's other devices: src/content/protocol.ts. The texts of JSON
-- values are a code by lengths and tags.
use secure_chat_client.Prelude.{
  ℕ, zero, suc, Bool, true, false, ◌≡◌, refl, Option, none, some, [], ◌∷◌, ◌++◌, Text, lit, length,
  take, drop,
}
use secure_chat_client.Content.{
  JsonText, Json, null, bool, num, str, arr, obj, Items, nil, cons, Fields, end, field, Number,
  ContentEvent, self_echo, SelfEchoableEvent, text, encode_event, event_fields, decode_event, ◌>>=◌,
}
use secure_chat_client.Content.RoundTrip.{Survives, EchoSurvives, decode_event-encode_event}
use secure_chat_client.Content.Sound.{IsSound, decode_event-IsSound}

abbrev bit : Bool → ℕ
bit true = 1
bit false = 0

mutual
  pub write : Json → Text
  write null = 0 ∷ []
  write (bool b) = 1 ∷ bit b ∷ []
  write (num n) = 2 ∷ bit n.negative ∷ n.mantissa ∷ n.scale ∷ []
  write (str s) = 3 ∷ length s ∷ s
  write (arr js) = 4 ∷ write_items js
  write (obj fs) = 5 ∷ write_fields fs

  write_items : Items → Text
  write_items nil = 0 ∷ []
  write_items (cons j js) = 1 ∷ (write j ++ write_items js)

  write_fields : Fields → Text
  write_fields end = 0 ∷ []
  write_fields (field k j fs) = 1 ∷ length k ∷ (k ++ (write j ++ write_fields fs))

abbrev unbit : ℕ → Bool
unbit zero = false
unbit (suc n) = true

mutual
  pub read : ℕ → Text → Option (Json × Text)
  read zero s = none
  read (suc f) (zero ∷ s) = some (null, s)
  read (suc f) (suc zero ∷ b ∷ s) = some (bool (unbit b), s)
  read (suc f) (suc (suc zero) ∷ b ∷ m ∷ k ∷ s) =
      some (num (record { negative = unbit b; mantissa = m; scale = k }), s)
  read (suc f) (suc (suc (suc zero)) ∷ n ∷ s) = some (str (take n s), drop n s)
  read (suc f) (suc (suc (suc (suc zero))) ∷ s) = read_items f s >>= (λ (js, s'). some (arr js, s'))
  read (suc f) (suc (suc (suc (suc (suc zero)))) ∷ s) =
      read_fields f s >>= (λ (fs, s'). some (obj fs, s'))
  read (suc f) _ = none

  read_items : ℕ → Text → Option (Items × Text)
  read_items zero s = none
  read_items (suc f) (zero ∷ s) = some (nil, s)
  read_items (suc f) (suc k ∷ s) =
      read f s >>= (λ (j, s'). read_items f s' >>= (λ (js, s''). some (cons j js, s'')))
  read_items (suc f) [] = none

  read_fields : ℕ → Text → Option (Fields × Text)
  read_fields zero s = none
  read_fields (suc f) (zero ∷ s) = some (end, s)
  read_fields (suc f) (suc k ∷ n ∷ s) =
      read f (drop n s)
      >>= (λ (j, s'). read_fields f s' >>= (λ (fs, s''). some (field (take n s) j fs, s'')))
  read_fields (suc f) _ = none

abbrev pub json : JsonText
json = record { parse = λ s. read 20 s >>= (λ (j, rest). some j); stringify = write }

abbrev time : ℕ → Number
time n = record { negative = false; mantissa = n; scale = 0 }

abbrev greeting : SelfEchoableEvent
greeting = text (record { v = 1; id = lit "m1"; client_sent_at = time 1000 }) (lit "hi") none

abbrev echo : ContentEvent
echo = self_echo (record { v = 1; id = lit "s1"; client_sent_at = time 1001 }) (lit "bob") greeting

abbrev pub plaintext : Text
plaintext = write (obj (event_fields echo))

encoded : encode_event json echo ≡ some plaintext
unfolding encode_event write
encoded = refl

echo-Survives : Survives json (obj (event_fields echo))
unfolding event_fields write read
echo-Survives = refl

greeting-EchoSurvives : EchoSurvives json echo
unfolding write read
greeting-EchoSurvives = refl

-- The echo as the other devices of the user read it.
echo_read : decode_event json plaintext ≡ some echo
echo_read =
    decode_event-encode_event json echo plaintext encoded (refl, refl, refl, tt) echo-Survives
      greeting-EchoSurvives

decode_event-IsSound_example : IsSound echo
decode_event-IsSound_example = decode_event-IsSound json plaintext echo echo_read
