-- ===== src/Tests/Outbox.antt =====
-- Two messages, one of which never gets through: src/outbox.ts.
use secure_chat_client.Prelude.JsSet
use secure_chat_client.Prelude.{
  ℕ, ◌≡◌, ◌⊎◌, refl, arith, true, false, none, some, List, [], ◌∷◌, lit, length, if◌then◌else◌,
  ◌==◌,
}
use secure_chat_client.Status.{live, error}
use secure_chat_client.Outbox.{Outbox, World, new_outbox, enqueue, tick, compute_backoff}
use secure_chat_client.Outbox.Accounts.{ids, IsConsistent, tick-IsConsistent, enqueue-IsConsistent}
use secure_chat_client.Outbox.Drain.{ticks, DueThroughout, ticks-drained}
use secure_chat_client.Outbox.Kept.{Delivered, tick_keeps}

-- Bob is reached, and nobody else.
abbrev world : World
world = record {
  outcomes = λ id n.
      if id == lit "m1" then some ((lit "e1", live) ∷ []) else some ((lit "e2", error) ∷ []);
  random = λ id n. 0;
}

abbrev start : Outbox
start = new_outbox (some 2) none

start-IsConsistent : IsConsistent start
unfolding new_outbox JsSet.contains
start-IsConsistent = record {
  distinct = tt;
  tracked = λ a. refl;
  positive = omega arith;
  attempts_left = tt;
}

abbrev queued : Outbox
queued = enqueue (lit "m2") (lit "eve") false (enqueue (lit "m1") (lit "bob") false start)

queued-IsConsistent : IsConsistent queued
queued-IsConsistent =
    (enqueue-IsConsistent (lit "m2") (lit "eve") false (enqueue (lit "m1") (lit "bob") false start)
      (enqueue-IsConsistent (lit "m1") (lit "bob") false start start-IsConsistent).0).0

tick-IsConsistent_example : IsConsistent (tick world 10 queued).1
tick-IsConsistent_example = tick-IsConsistent world 10 queued queued-IsConsistent

abbrev times : List ℕ
times = 10 ∷ 5000 ∷ []

due : DueThroughout world times queued
unfolding enqueue new_outbox tick JsSet.add JsSet.contains ◌==◌ compute_backoff
due = ((omega arith, (omega arith, tt)), ((omega arith, tt), tt))

max_is_two : length times ≡ queued.max_attempts
unfolding enqueue new_outbox JsSet.contains JsSet.add ◌==◌
max_is_two = refl

ticks-drained_example : (ticks world times queued).queue ≡ []
ticks-drained_example = ticks-drained world times queued queued-IsConsistent due max_is_two

queued_m2 : JsSet.contains (lit "m2") (ids queued.queue) ≡ true
unfolding enqueue new_outbox JsSet.contains JsSet.add ◌==◌
queued_m2 = refl

tick_keeps_example :
    (JsSet.contains (lit "m2") (ids (tick world 10 queued).1.queue) ≡ true)
    ⊎ (JsSet.contains (lit "m2") (ids (tick world 10 queued).1.failures) ≡ true)
    ⊎ Delivered world (lit "m2")
tick_keeps_example = tick_keeps world 10 (lit "m2") queued queued_m2
