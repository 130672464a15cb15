-- ===== src/Content/Decoding.antt =====
-- Two levels of `decodeEvent` are enough: src/content/protocol.ts.
use secure_chat_client.Prelude.{
  ℕ, suc, ◌≡◌, refl, Option, none, some, Text, ◌==◌, lit, inl, inr, Bool-cases,
}
use secure_chat_client.Content.{
  ContentEvent, SelfEchoableEvent, BaseEvent, JsonText, ◌>>=◌, decode_within, decode_event,
  as_echoable, as_fields, original_at, filled_at, header, echoable, received, typing, self_echo,
  app,
}

-- Two chains that agree behind each result agree.
bind_bind_cong :
    {A B C : Type 0} (m : Option A) (f g : A → Option B) (k : B → Option C)
    → ((a : A) → (f a >>= k) ≡ (g a >>= k))
    → ((m >>= f) >>= k) ≡ ((m >>= g) >>= k)
bind_bind_cong none f g k h = refl
bind_bind_cong (some a) f g k h = h a

bind_cong :
    {A B : Type 0} (m : Option A) (f g : A → Option B)
    → ((a : A) → f a ≡ g a)
    → (m >>= f) ≡ (m >>= g)
bind_cong none f g h = refl
bind_cong (some a) f g h = h a

-- A self-echo is not what is echoed.
echo_of_echo :
    (m : Option ContentEvent) (b : BaseEvent) (peer : Text)
    (k : SelfEchoableEvent → Option ContentEvent)
    → ((m >>= (λ inner. as_echoable inner >>= (λ e. some (self_echo b peer e))))
        >>= (λ e. as_echoable e >>= k))
      ≡ none
echo_of_echo none b peer k = refl
echo_of_echo (some (echoable e)) b peer k = refl
echo_of_echo (some (received c l)) b peer k = refl
echo_of_echo (some (typing c m)) b peer k = refl
echo_of_echo (some (self_echo c p e)) b peer k = refl
echo_of_echo (some (app c ns p)) b peer k = refl

module _ (json : JsonText) where
  -- What is echoed is no self-echo, so the second level asks for no third.
  echoed :
      (n : ℕ) (s : Text) (k : SelfEchoableEvent → Option ContentEvent)
      → (decode_within json (suc n) s >>= (λ e. as_echoable e >>= k))
        ≡ (decode_within json 1 s >>= (λ e. as_echoable e >>= k))
  unfolding decode_within
  echoed n s k = bind_bind_cong (json.parse s) _ _ _ (λ raw.
      bind_bind_cong (as_fields raw) _ _ _ (λ fs. bind_bind_cong (header fs) _ _ _ (λ (b, type).
        elim (Bool-cases (type == lit "selfEcho")) [
          | inl t ↦ rw t (
              bind_bind_cong (filled_at (lit "originalPeer") fs) _ _ _ (λ peer.
                bind_bind_cong (original_at fs) _ _ _
                  (λ o. echo_of_echo (decode_within json n (json.stringify o)) b peer k)))
          | inr t ↦ rw t refl
        ])))

  -- However deep the calls of itself may go, `decodeEvent` gives what two levels of it give.
  pub decode_within_enough :
      (n : ℕ) (plaintext : Text)
      → decode_within json (suc (suc n)) plaintext ≡ decode_event json plaintext
  unfolding decode_within
  decode_within_enough n plaintext = bind_cong (json.parse plaintext) _ _ (λ raw.
      bind_cong (as_fields raw) _ _ (λ fs. bind_cong (header fs) _ _ (λ (b, type).
        elim (Bool-cases (type == lit "selfEcho")) [
          | inl t ↦ rw t (
              bind_cong (filled_at (lit "originalPeer") fs) _ _ (λ peer.
                bind_cong (original_at fs) _ _
                  (λ o. echoed n (json.stringify o) (λ e. some (self_echo b peer e)))))
          | inr t ↦ rw t refl
        ])))
