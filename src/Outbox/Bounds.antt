-- ===== src/Outbox/Bounds.antt =====
-- The waiting time before a retry: src/outbox.ts, `computeBackoff`.
use secure_chat_client.Prelude.{ℕ, ◌+◌, ◌-◌, ◌*◌, ◌/◌, ◌^◌, ◌≤◌, ◌<◌, ◌⊎◌, arith}
use secure_chat_client.Outbox.{compute_backoff}

scaled_bounds :
    (b k : ℕ)
    → k < 2 ^ 53
    → (4 * b ≤ 5 * (b * (8 * 2 ^ 53 + 4 * k) / (10 * 2 ^ 53)) + 5)
      × (5 * (b * (8 * 2 ^ 53 + 4 * k) / (10 * 2 ^ 53)) ≤ 6 * b)
scaled_bounds b k h = grind arith

-- The wait before the retry of an attempt is never below 100 ms, and it lies within 20 % of
-- `base * 2 ^ (attempt - 1)`, rounded down, where that is at least 100 ms: not more than 1 ms
-- below four fifths of it, and not above six fifths of it unless it is 100 ms.
pub compute_backoff_bounds :
    (base attempt k : ℕ)
    → k < 2 ^ 53
    → (100 ≤ compute_backoff base attempt k)
      × (4 * (base * 2 ^ (attempt - 1)) ≤ 5 * compute_backoff base attempt k + 5)
      × (compute_backoff base attempt k ≤ 100
          ⊎ 5 * compute_backoff base attempt k ≤ 6 * (base * 2 ^ (attempt - 1)))
unfolding compute_backoff
compute_backoff_bounds base attempt k h =
    ground (arith, scaled_bounds (base * 2 ^ (attempt - 1)) k h)
