-- ===== src/Outbox/Drain.antt =====
-- The queue drains, and no message is lost on the way: src/outbox.ts, `tick`.
use secure_chat_client.Prelude.{
  ℕ, suc, ◌+◌, ◌≤◌, ◌<◌, ◌≡◌, refl, false, List, [], ◌∷◌, leb, ltb, length, arith, All, All-append,
  inl, inr, Bool-cases,
}
use secure_chat_client.Outbox.{
  OutboxEntry, Outbox, World, Verdict, keep, deliver, give_up, judge, Round, settle, tick_loop,
  tick, first_round, succeeded,
}
use secure_chat_client.Outbox.Accounts.{IsConsistent, tick-IsConsistent}

unfoldable pub ticks : World → List ℕ → Outbox → Outbox
unfolding tick
ticks w [] ob = ob
ticks w (now ∷ later) ob = ticks w later (tick w now ob).1

-- Each tick comes when every entry of the queue is due.
abbrev pub DueThroughout : World → List ℕ → Outbox → Type 0
DueThroughout w [] ob = Unit
DueThroughout w (now ∷ later) ob =
    All (λ e. e.next_retry_at ≤ now) ob.queue × DueThroughout w later (tick w now ob).1

KeptTried : ℕ → Verdict → Type 0
KeptTried n (keep e) = n ≤ e.attempts
KeptTried n _ = Unit

judge_tried :
    (w : World) (now cap base n : ℕ) (e : OutboxEntry)
    → e.next_retry_at ≤ now
    → n ≤ e.attempts
    → KeptTried (suc n) (judge w now cap base e)
unfolding judge KeptTried
judge_tried w now cap base n e due h =
    let late : ltb now e.next_retry_at ≡ false = ground arith in
    elim (Bool-cases (succeeded (w.outcomes e.message_id (suc e.attempts)))) [
      | inl done ↦ rw (late, judge, done) tt
      | inr bad ↦ elim (Bool-cases (leb cap (suc e.attempts))) [
        | inl last ↦ rw (late, judge, bad, last) tt
        | inr more ↦ rw (late, judge, bad, more) (omega arith)
      ]
    ]

settle_tried :
    (n : ℕ) (v : Verdict) (r : Round)
    → KeptTried n v
    → All (λ e. n ≤ e.attempts) r.still_pending
    → All (λ e. n ≤ e.attempts) (settle v r).still_pending
unfolding settle KeptTried
settle_tried n (keep e) r h all =
    All-append (λ e. n ≤ e.attempts) r.still_pending (e ∷ []) all (h, tt)
settle_tried n (deliver e) r h all = all
settle_tried n (give_up e) r h all = all

tick_loop_tried :
    (w : World) (now cap base n : ℕ) (es : List OutboxEntry) (r : Round)
    → All (λ e. e.next_retry_at ≤ now) es
    → All (λ e. n ≤ e.attempts) es
    → All (λ e. suc n ≤ e.attempts) r.still_pending
    → All (λ e. suc n ≤ e.attempts) (tick_loop w now cap base es r).still_pending
unfolding tick_loop
tick_loop_tried w now cap base n [] r due tried all = all
tick_loop_tried w now cap base n (e ∷ es) r due tried all =
    tick_loop_tried w now cap base n es (settle (judge w now cap base e) r) due.1 tried.1 (
      settle_tried (suc n) (judge w now cap base e) r (judge_tried w now cap base n e due.0 tried.0)
        all)

tick-max_attempts :
    (w : World) (now : ℕ) (ob : Outbox) → (tick w now ob).1.max_attempts ≡ ob.max_attempts
unfolding tick
tick-max_attempts w now ob = refl

nil_of_spent :
    (n cap : ℕ) (es : List OutboxEntry)
    → cap ≤ n
    → All (λ e. n ≤ e.attempts) es
    → All (λ e. e.attempts < cap) es
    → es ≡ []
nil_of_spent n cap [] le h k = refl
nil_of_spent n cap (e ∷ es) le h k = absurd (omega arith)

ticks_spent :
    (w : World) (n : ℕ) (ts : List ℕ) (ob : Outbox)
    → IsConsistent ob
    → DueThroughout w ts ob
    → All (λ e. n ≤ e.attempts) ob.queue
    → n + length ts ≡ ob.max_attempts
    → (ticks w ts ob).queue ≡ []
unfolding ticks
ticks_spent w n [] ob c due tried enough =
    nil_of_spent n ob.max_attempts ob.queue (omega arith) tried c.attempts_left
ticks_spent w n (now ∷ ts) ob c due tried enough =
    ticks_spent w (suc n) ts (tick w now ob).1 (tick-IsConsistent w now ob c) due.1
      (tick_loop_tried w now ob.max_attempts ob.base_backoff_ms n ob.queue (first_round ob) due.0
        tried tt)
      (omega arith)

all_tried : (es : List OutboxEntry) → All (λ e. 0 ≤ e.attempts) es
all_tried [] = tt
all_tried (e ∷ es) = (omega arith, all_tried es)

-- Whatever the network answers, `max_attempts` ticks at times when every queued entry is due
-- empty the queue of a consistent outbox.
pub ticks-drained :
    (w : World) (ts : List ℕ) (ob : Outbox)
    → IsConsistent ob
    → DueThroughout w ts ob
    → length ts ≡ ob.max_attempts
    → (ticks w ts ob).queue ≡ []
ticks-drained w ts ob c due enough = ticks_spent w 0 ts ob c due (all_tried ob.queue) (omega arith)
