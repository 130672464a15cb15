-- ===== src/Client/Again.antt =====
-- No envelope is processed twice: src/index.ts, `handleInboundCiphertext`, over
-- src/envelope_dedup.ts.
use mathlib.Core.Path.{subst}
use secure_chat_client.Client.Inbound.{
  InboundEnv, Receiver, Envelope, Handled, handled, interrupted, thrown_unknown_otk, thrown, Times,
  dedup_of, ack_live, settle, handle_new, handle_inbound_ciphertext, decrypt_or_recover,
  accept_plaintext, mark, unmark,
}
use secure_chat_client.Client.Once.{
  Decrypted-cases, IsRemembered, is_processed, handle_known, handle_unknown, mark-initialized,
  unmark-initialized, decrypt_or_recover-IsRemembered, accept_plaintext-IsRemembered,
  ack_live-IsRemembered,
}
use secure_chat_client.Dedup.{cap, add, remove}
use secure_chat_client.Dedup.Capacity.{init_ready}
use secure_chat_client.Dedup.Recency.{
  Keeps, Keeps-has, add_known-newest, Keeps-add_known, Keeps-remove_known,
}
use secure_chat_client.Prelude.{
  ℕ, suc, ◌+◌, ◌<◌, ◌≡◌, sym, ap, ◌∙◌, true, false, List, [], ◌∷◌, Text, ◌==◌, eq_iff, length,
  arith, inl, inr, Bool-cases,
}

module _ {S K : Type 0} (ie : InboundEnv S K) where
  -- The envelopes, one after the other, with what `Date.now()` gives in the course of each.
  unfoldable pub handle_all : List (Envelope × Times) → Receiver S K → Receiver S K
  unfolding handle_inbound_ciphertext
  handle_all [] r = r
  handle_all ((e, t) ∷ es) r = handle_all es (handle_inbound_ciphertext ie e t r).1

  -- The memory is loaded, and the id is in it with at most `n` newer ones.
  record Stays (k : Text) (n : ℕ) (r : Receiver S K) : Type 0 where
    ready : r.initialized ≡ true
    kept : Keeps k n r.processed

  Stays-IsRemembered :
      (k : Text) (n : ℕ) (r r' : Receiver S K) → IsRemembered ie r r' → Stays k n r → Stays k n r'
  Stays-IsRemembered k n r r' same h = record {
    ready = same.initialized ∙ h.ready;
    kept = subst (Keeps k n) (sym same.processed) h.kept;
  }

  Stays-unmark :
      (k uuid : Text) (n : ℕ) (r : Receiver S K)
      → (uuid == k) ≡ false
      → Stays k n r
      → Stays k n (unmark ie uuid r)
  unfolding remove
  Stays-unmark k uuid n r other h = record {
    ready = unmark-initialized ie uuid r h.ready;
    kept =
        rw (remove, init_ready ie.env.kv ie.env.numerals (dedup_of r) h.ready)
          (Keeps-remove_known ie.env.kv ie.env.numerals k uuid n (dedup_of r) other h.kept);
  }

  Stays-settle :
      (k uuid : Text) (n : ℕ) (out : Handled) (r : Receiver S K)
      → (uuid == k) ≡ false
      → Stays k n r
      → Stays k n (settle ie uuid (out, r)).1
  Stays-settle k uuid n handled r other h = h
  Stays-settle k uuid n interrupted r other h = Stays-unmark k uuid n r other h
  Stays-settle k uuid n thrown_unknown_otk r other h = Stays-unmark k uuid n r other h
  Stays-settle k uuid n thrown r other h = Stays-unmark k uuid n r other h

  -- An envelope that is handled without an error leaves its note.
  settle-handled :
      (k : Text) (out : Handled) (r : Receiver S K)
      → (settle ie k (out, r)).0 ≡ handled
      → Stays k 0 r
      → Stays k 0 (settle ie k (out, r)).1
  settle-handled k handled r fine h = h
  settle-handled k interrupted r fine h = ground (arith, fine)
  settle-handled k thrown_unknown_otk r fine h = ground (arith, fine)
  settle-handled k thrown r fine h = ground (arith, fine)

  -- The state in which the plaintext is taken, or in which the decryption failed.
  abbrev decrypted : Envelope → Times → Receiver S K → Receiver S K
  decrypted e t r = (decrypt_or_recover ie e t (mark ie e.envelope_uuid t.added_at r)).1

  accepted-Stays :
      (k : Text) (n : ℕ) (e : Envelope) (plaintext : Text) (t : Times) (r : Receiver S K)
      → Stays k n r
      → Stays k n (accept_plaintext ie e plaintext t r).1
  accepted-Stays k n e plaintext t r =
      Stays-IsRemembered k n r (accept_plaintext ie e plaintext t r).1
        (accept_plaintext-IsRemembered ie e plaintext t r)

  handle_new-Stays :
      (k : Text) (n : ℕ) (e : Envelope) (t : Times) (r : Receiver S K)
      → (e.envelope_uuid == k) ≡ false
      → Stays k n (decrypted e t r)
      → Stays k n (handle_new ie e t r).1
  unfolding handle_new
  handle_new-Stays k n e t r other h =
      let r1 : Receiver S K = decrypted e t r in
      elim (Decrypted-cases (decrypt_or_recover ie e t (mark ie e.envelope_uuid t.added_at r)).0) [
        | inl (plaintext, fine) ↦
            rw (handle_new, fine)
              (Stays-settle k e.envelope_uuid n (accept_plaintext ie e plaintext t r1).0
                (accept_plaintext ie e plaintext t r1).1 other
                (accepted-Stays k n e plaintext t r1 h))
        | inr (inl gone) ↦ rw (handle_new, gone) (Stays-unmark k e.envelope_uuid n r1 other h)
        | inr (inr bad) ↦ rw (handle_new, bad) (Stays-unmark k e.envelope_uuid n r1 other h)
      ]

  handle_new-handled :
      (e : Envelope) (t : Times) (r : Receiver S K)
      → (handle_new ie e t r).0 ≡ handled
      → Stays e.envelope_uuid 0 (decrypted e t r)
      → Stays e.envelope_uuid 0 (handle_new ie e t r).1
  unfolding handle_new
  handle_new-handled e t r ended h =
      let r1 : Receiver S K = decrypted e t r in
      let k : Text = e.envelope_uuid in
      elim (Decrypted-cases (decrypt_or_recover ie e t (mark ie k t.added_at r)).0) [
        | inl (plaintext, fine) ↦
            rw (handle_new, fine)
              (settle-handled k (accept_plaintext ie e plaintext t r1).0
                (accept_plaintext ie e plaintext t r1).1 (rw (handle_new, fine) at ended)
                (accepted-Stays k 0 e plaintext t r1 h))
        | inr (inl gone) ↦ ground (arith, rw (handle_new, gone) at ended)
        | inr (inr bad) ↦ ground (arith, rw (handle_new, bad) at ended)
      ]

  mark-Stays :
      (k uuid : Text) (now n : ℕ) (r : Receiver S K)
      → is_processed ie uuid r ≡ false
      → suc n < cap
      → Stays k n r
      → Stays k (suc n) (mark ie uuid now r)
  unfolding add
  mark-Stays k uuid now n r new room h = record {
    ready = mark-initialized ie uuid now r h.ready;
    kept =
        rw (add, init_ready ie.env.kv ie.env.numerals (dedup_of r) h.ready)
          (Keeps-add_known ie.env.kv ie.env.numerals k uuid now n (dedup_of r) new room h.kept);
  }

  mark-newest :
      (k : Text) (now : ℕ) (r : Receiver S K)
      → r.initialized ≡ true
      → is_processed ie k r ≡ false
      → Stays k 0 (mark ie k now r)
  unfolding add
  mark-newest k now r ready new = record {
    ready = mark-initialized ie k now r ready;
    kept =
        rw (add, init_ready ie.env.kv ie.env.numerals (dedup_of r) ready)
          (add_known-newest ie.env.kv ie.env.numerals k now (dedup_of r) new);
  }

  Stays-more : (k : Text) (n : ℕ) (r : Receiver S K) → Stays k n r → Stays k (suc n) r
  Stays-more k n r h = record {
    ready = h.ready;
    kept = record {
      older = h.kept.older;
      noted_at = h.kept.noted_at;
      newer = h.kept.newer;
      split = h.kept.split;
      few = omega (arith, h.kept.few);
    };
  }

  -- Each further envelope adds one newer id at most.
  handle-Stays :
      (k : Text) (n : ℕ) (e : Envelope) (t : Times) (r : Receiver S K)
      → suc n < cap
      → Stays k n r
      → Stays k (suc n) (handle_inbound_ciphertext ie e t r).1
  handle-Stays k n e t r room h =
      let uuid : Text = e.envelope_uuid in
      elim (Bool-cases (is_processed ie uuid r)) [
        | inl known ↦ rw (handle_known ie e t r h.ready known) (
            Stays-IsRemembered k (suc n) r (ack_live e r) (ack_live-IsRemembered ie e r)
              (Stays-more k n r h))
        | inr new ↦
            let other : (uuid == k) ≡ false =
              ground (arith, new, Keeps-has k n r.processed h.kept, eq_iff uuid k) in
            let r0 : Receiver S K = mark ie uuid t.added_at r in
            rw (handle_unknown ie e t r h.ready new) (
              handle_new-Stays k (suc n) e t r other (
                Stays-IsRemembered k (suc n) r0 (decrypted e t r)
                  (decrypt_or_recover-IsRemembered ie e t r0)
                  (mark-Stays k uuid t.added_at n r new room h)))
      ]

  handle_all-Stays :
      (k : Text) (es : List (Envelope × Times)) (n : ℕ) (r : Receiver S K)
      → length es + n < cap
      → Stays k n r
      → Stays k (length es + n) (handle_all es r)
  unfolding handle_all
  handle_all-Stays k [] n r room h =
      let same : n ≡ length {A = Envelope × Times} [] + n = omega arith in
      subst (λ j. Stays k j r) same h
  handle_all-Stays k ((e, t) ∷ es) n r room h =
      let same : length es + suc n ≡ length ((e, t) ∷ es) + n = omega arith in
      subst (λ j. Stays k j (handle_all ((e, t) ∷ es) r)) same
        (handle_all-Stays k es (suc n) (handle_inbound_ciphertext ie e t r).1 (omega (arith, room))
          (handle-Stays k n e t r (omega (arith, room)) h))

  -- Once the memory of envelopes is loaded, an envelope that is new and whose handling ends without
  -- an error is not processed again for as long as fewer than 1000 envelopes are handled after it,
  -- whatever they are and however their handling ends: a further delivery of it, from the socket or
  -- from the server, at any time and with any content, does nothing but to repeat the
  -- acknowledgement on the socket.
  pub handle_inbound_ciphertext_again :
      (e again : Envelope) (t t' : Times) (between : List (Envelope × Times)) (r : Receiver S K)
      → r.initialized ≡ true
      → is_processed ie e.envelope_uuid r ≡ false
      → (handle_inbound_ciphertext ie e t r).0 ≡ handled
      → again.envelope_uuid ≡ e.envelope_uuid
      → length between < 1000
      → handle_inbound_ciphertext ie again t'
          (handle_all between (handle_inbound_ciphertext ie e t r).1)
        ≡ (handled, ack_live again (handle_all between (handle_inbound_ciphertext ie e t r).1))
  handle_inbound_ciphertext_again e again t t' between r ready new fine same few =
      let k : Text = e.envelope_uuid in
      let r0 : Receiver S K = mark ie k t.added_at r in
      let first : handle_inbound_ciphertext ie e t r ≡ handle_new ie e t r =
        handle_unknown ie e t r ready new in
      let noted : Stays k 0 (decrypted e t r) =
        Stays-IsRemembered k 0 r0 (decrypted e t r) (decrypt_or_recover-IsRemembered ie e t r0)
          (mark-newest k t.added_at r ready new) in
      let h : Stays k 0 (handle_inbound_ciphertext ie e t r).1 =
        rw first (handle_new-handled e t r (rw first at fine) noted) in
      let end : Receiver S K = handle_all between (handle_inbound_ciphertext ie e t r).1 in
      let still : Stays k (length between + 0) end =
        handle_all-Stays k between 0 (handle_inbound_ciphertext ie e t r).1 (omega (arith, few))
          h in
      handle_known ie again t' end still.ready (
        ap (λ uuid. is_processed ie uuid end) same
        ∙ Keeps-has k (length between + 0) end.processed still.kept)
