-- ===== src/Conversations/Unread.antt =====
-- How the count of unread messages depends on the watermark: src/conversations.ts,
-- `countUnreadFromPeer`.
use secure_chat_client.Prelude.{ℕ, ◌≤◌, ◌≡◌, refl, false, List, [], ◌∷◌, Text, arith, All}
use secure_chat_client.Conversations.{is_unread, count_unread}
use secure_chat_client.Messages.{StoredMessage}

-- Everything that the peer sent lies at or below the time.
abbrev pub CoveredBy : Text → ℕ → List StoredMessage → Type 0
CoveredBy self up_to = All (λ m. is_unread self up_to m ≡ false)

count_unread_covered :
    (self : Text) (up_to : ℕ) (ms : List StoredMessage)
    → CoveredBy self up_to ms
    → count_unread self up_to ms ≡ 0
unfolding count_unread
count_unread_covered self up_to [] h = refl
count_unread_covered self up_to (m ∷ ms) h = ground (arith, count_unread_covered self up_to ms h.1)

-- A later watermark never counts more messages.
pub count_unread_anti :
    (self : Text) (a b : ℕ) (ms : List StoredMessage)
    → a ≤ b
    → count_unread self b ms ≤ count_unread self a ms
unfolding count_unread
count_unread_anti self a b [] h = omega arith
count_unread_anti self a b (m ∷ ms) h = ground (arith, count_unread_anti self a b ms h)
