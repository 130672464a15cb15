-- ===== src/Ws/Backoff.antt =====
-- The waiting time before a reconnection: src/transport/ws.ts, `backoffMs`.
use secure_chat_client.Prelude.{ℕ, zero, suc, ◌+◌, ◌*◌, ◌/◌, ◌^◌, ◌≤◌, ◌<◌, arith}
use secure_chat_client.Ws.{backoff_base, backoff_ms, min}

scaled_bounds :
    (b k : ℕ)
    → k < 2 ^ 53
    → (4 * b ≤ 5 * (b * (8 * 2 ^ 53 + 4 * k) / (10 * 2 ^ 53)) + 5)
      × (5 * (b * (8 * 2 ^ 53 + 4 * k) / (10 * 2 ^ 53)) ≤ 6 * b)
scaled_bounds b k h = grind arith

power_pos : (n : ℕ) → 1 ≤ 2 ^ n
power_pos zero = omega arith
power_pos (suc n) = omega (arith, power_pos n)

backoff_base-bounds : (attempt : ℕ) → (500 ≤ backoff_base attempt) × (backoff_base attempt ≤ 30000)
backoff_base-bounds attempt = ground (arith, power_pos attempt)

-- The wait before a reconnection is between 399 ms and 36 s, and within 20 % of the smaller one of
-- `500 * 2 ^ attempt` and 30 s, rounded down to a whole millisecond: the lower limit of 250 ms never
-- acts.
pub backoff_ms-bounds :
    (attempt k : ℕ)
    → k < 2 ^ 53
    → (399 ≤ backoff_ms attempt k)
      × (backoff_ms attempt k ≤ 36000)
      × (4 * min (500 * 2 ^ attempt) 30000 ≤ 5 * backoff_ms attempt k + 5)
      × (5 * backoff_ms attempt k ≤ 6 * min (500 * 2 ^ attempt) 30000)
unfolding backoff_ms
backoff_ms-bounds attempt k h =
    ground (arith, scaled_bounds (backoff_base attempt) k h, backoff_base-bounds attempt)
