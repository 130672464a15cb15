-- ===== src/Tests/Samples.antt =====
-- A codec of messages that meets what is asked of one: every field is written with its length.
use secure_chat_client.Prelude.{
  ℕ, zero, suc, ◌≡◌, refl, Option, none, some, [], ◌∷◌, ◌++◌, Text, length, take, drop,
  drop-length-append,
}
use secure_chat_client.Status.{MessageStatus, pending, sent, delivered, delivered_all, read, failed}
use secure_chat_client.Messages.{StoredMessage, Codec, IsFaithful}

abbrev Reader : Type 0 → Type 0
Reader A = Text → Option (A × Text)

abbrev chain : {A B : Type 0} → Option (A × Text) → (A → Text → Option B) → Option B
chain none k = none
chain (some (a, rest)) k = k a rest

unfoldable write_text : Text → Text → Text
write_text s rest = length s ∷ (s ++ rest)

unfoldable read_text : Reader Text
read_text [] = none
read_text (n ∷ rest) = some (take n rest, drop n rest)

abbrev read_number : Reader ℕ
read_number [] = none
read_number (n ∷ rest) = some (n, rest)

unfoldable write_time : Option ℕ → Text → Text
write_time none rest = 0 ∷ rest
write_time (some n) rest = 1 ∷ n ∷ rest

unfoldable read_time : Reader (Option ℕ)
read_time [] = none
read_time (zero ∷ rest) = some (none, rest)
read_time (suc k ∷ rest) = chain (read_number rest) (λ n rest'. some (some n, rest'))

unfoldable write_reply : Option Text → Text → Text
unfolding write_text
write_reply none rest = 0 ∷ rest
write_reply (some s) rest = 1 ∷ write_text s rest

unfoldable read_reply : Reader (Option Text)
unfolding read_text
read_reply [] = none
read_reply (zero ∷ rest) = some (none, rest)
read_reply (suc k ∷ rest) = chain (read_text rest) (λ s rest'. some (some s, rest'))

unfoldable write_status : Option MessageStatus → Text
write_status none = 6 ∷ []
write_status (some pending) = 0 ∷ []
write_status (some sent) = 1 ∷ []
write_status (some delivered) = 2 ∷ []
write_status (some delivered_all) = 3 ∷ []
write_status (some read) = 4 ∷ []
write_status (some failed) = 5 ∷ []

unfoldable read_status : Text → Option MessageStatus
read_status (zero ∷ _) = some pending
read_status (suc zero ∷ _) = some sent
read_status (suc (suc zero) ∷ _) = some delivered
read_status (suc (suc (suc zero)) ∷ _) = some delivered_all
read_status (suc (suc (suc (suc zero))) ∷ _) = some read
read_status (suc (suc (suc (suc (suc zero)))) ∷ _) = some failed
read_status _ = none

abbrev stringify : StoredMessage → Text
stringify m = write_text m.id (
    write_text m.peer_user_id (
      write_text m.sender_user_id (
        write_text m.text (
          m.sent_at
          ∷ write_time m.edited_at
              (write_time m.deleted_at (write_reply m.reply_to (write_status m.status)))))))

abbrev parse : Text → Option StoredMessage
parse raw = chain (read_text raw) (λ id raw1. chain (read_text raw1) (λ peer raw2.
    chain (read_text raw2) (λ sender raw3. chain (read_text raw3) (λ text raw4.
      chain (read_number raw4) (λ sent_at raw5. chain (read_time raw5) (λ edited_at raw6.
        chain (read_time raw6) (λ deleted_at raw7. chain (read_reply raw7) (λ reply_to raw8.
          some (record {
            id = id;
            peer_user_id = peer;
            sender_user_id = sender;
            text = text;
            sent_at = sent_at;
            edited_at = edited_at;
            deleted_at = deleted_at;
            reply_to = reply_to;
            status = read_status raw8;
          })))))))))

pub take-length-append : (s t : Text) → take (length s) (s ++ t) ≡ s
take-length-append [] t = refl
take-length-append (x ∷ s) t = rw (take-length-append s t) refl

read_text-write : (s rest : Text) → read_text (write_text s rest) ≡ some (s, rest)
unfolding read_text write_text
read_text-write s rest = rw (take-length-append s rest, drop-length-append s rest) refl

read_time-write : (t : Option ℕ) (rest : Text) → read_time (write_time t rest) ≡ some (t, rest)
unfolding read_time write_time
read_time-write none rest = refl
read_time-write (some n) rest = refl

read_reply-write :
    (t : Option Text) (rest : Text) → read_reply (write_reply t rest) ≡ some (t, rest)
unfolding read_reply write_reply read_text write_text
read_reply-write none rest = refl
read_reply-write (some s) rest = rw (take-length-append s rest, drop-length-append s rest) refl

read_status-write : (s : Option MessageStatus) → read_status (write_status s) ≡ s
unfolding read_status write_status
read_status-write none = refl
read_status-write (some pending) = refl
read_status-write (some sent) = refl
read_status-write (some delivered) = refl
read_status-write (some delivered_all) = refl
read_status-write (some read) = refl
read_status-write (some failed) = refl

unfoldable pub codec : Codec
unfolding write_text write_time write_reply write_status read_text read_time read_reply read_status
codec = record {
  stringify = stringify;
  parse = parse;
  print_number = λ n. n ∷ [];
  parse_number = λ s. elim s [ [] ↦ none | n ∷ _ ↦ some n ];
}

parse-stringify : (m : StoredMessage) → parse (stringify m) ≡ some m
parse-stringify m = simp (read_text-write, read_time-write, read_reply-write, read_status-write)

parse-nil : parse [] ≡ none
unfolding read_text
parse-nil = refl

pub codec-IsFaithful : IsFaithful codec
unfolding codec
codec-IsFaithful = record {
  parse-stringify = parse-stringify;
  parse-nil = parse-nil;
  parse_number-print = λ n. refl;
}
