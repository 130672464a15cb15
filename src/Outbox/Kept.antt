-- ===== src/Outbox/Kept.antt =====
-- No message is lost on the way: src/outbox.ts, `tick`.
use mathlib.Core.Path.{subst}
use secure_chat_client.Prelude.JsMap
use secure_chat_client.Prelude.JsMap.{JsMap}
use secure_chat_client.Prelude.JsSet
use secure_chat_client.Prelude.{
  ℕ, suc, ◌≡◌, ◌⊎◌, refl, sym, ap, ◌∙◌, some, Option-cases, true, ◌||◌, List, [], ◌∷◌, ◌++◌, Text,
  ◌==◌, eq_iff, eq_refl, leb, ltb, arith, inl, inr, Bool-cases,
}
use secure_chat_client.Outbox.{
  OutboxEntry, Outbox, World, Verdict, keep, deliver, give_up, judge, Round, settle, tick_loop,
  tick, first_round, succeeded, any_ok,
}
use secure_chat_client.Outbox.Accounts.{ids}
use secure_chat_client.Status.{SendStatus, live, stored, dropped, error}

-- Some target has the message, or the server keeps it for the target.
abbrev pub IsTaken : JsMap SendStatus → Type 0
IsTaken [] = ⊥
IsTaken ((target, status) ∷ m) = ((status ≡ live) ⊎ (status ≡ stored)) ⊎ IsTaken m

-- A message was delivered: some attempt of it had a target that took it.
abbrev pub Delivered : World → Text → Type 0
Delivered w id = (n : ℕ) × ((m : JsMap SendStatus) × ((w.outcomes id n ≡ some m) × IsTaken m))

any_ok-IsTaken : (m : JsMap SendStatus) → any_ok (JsMap.values m) ≡ true → IsTaken m
any_ok-IsTaken [] h = ground (arith, h)
any_ok-IsTaken ((target, live) ∷ m) h = inl (inl refl)
any_ok-IsTaken ((target, stored) ∷ m) h = inl (inr refl)
any_ok-IsTaken ((target, dropped) ∷ m) h = inr (any_ok-IsTaken m h)
any_ok-IsTaken ((target, error) ∷ m) h = inr (any_ok-IsTaken m h)

succeeded-Delivered :
    (w : World) (id : Text) (n : ℕ) → succeeded (w.outcomes id n) ≡ true → Delivered w id
succeeded-Delivered w id n h = elim (Option-cases (w.outcomes id n)) [
  | inl threw ↦ ground (arith, h, ap succeeded threw)
  | inr (m, answered) ↦ (n, (m, (answered, any_ok-IsTaken m (sym (ap succeeded answered) ∙ h))))
]

-- A message is still queued, was reported as failed, or was delivered.
data Settled (w : World) (id : Text) (r : Round) : Type 0 where
  queued : JsSet.contains id (ids r.still_pending) ≡ true → Settled w id r
  reported : JsSet.contains id (ids r.failed) ≡ true → Settled w id r
  delivered : Delivered w id → Settled w id r

contains-ids_append :
    (a : Text) (es fs : List OutboxEntry)
    → JsSet.contains a (ids (es ++ fs)) ≡ (JsSet.contains a (ids es) || JsSet.contains a (ids fs))
unfolding JsSet.contains
contains-ids_append a [] fs = refl
contains-ids_append a (e ∷ es) fs = ground (arith, contains-ids_append a es fs)

settle_keeps :
    (w : World) (id : Text) (v : Verdict) (r : Round) → Settled w id r → Settled w id (settle v r)
unfolding settle
settle_keeps w id (keep e) r (queued h) =
    queued (ground (arith, contains-ids_append id r.still_pending (e ∷ [])))
settle_keeps w id (keep e) r (reported h) = reported h
settle_keeps w id (deliver e) r (queued h) = queued h
settle_keeps w id (deliver e) r (reported h) = reported h
settle_keeps w id (give_up e) r (queued h) = queued h
settle_keeps w id (give_up e) r (reported h) =
    reported (ground (arith, contains-ids_append id r.failed (e ∷ [])))
settle_keeps w id v r (delivered d) = delivered d

judge_settles :
    (w : World) (now cap base : ℕ) (e : OutboxEntry) (r : Round)
    → Settled w e.message_id (settle (judge w now cap base e) r)
unfolding judge settle JsSet.contains
judge_settles w now cap base e r =
    let id : Text = e.message_id in
    let last_queued : (x : OutboxEntry)
        → x.message_id ≡ id
        → JsSet.contains id (ids (r.still_pending ++ x ∷ [])) ≡ true =
      λ x same.
        ground (arith, contains-ids_append id r.still_pending (x ∷ []), eq_iff x.message_id id) in
    elim (Bool-cases (ltb now e.next_retry_at)) [
      | inl early ↦ rw (early, judge) (queued (last_queued e refl))
      | inr due ↦ elim (Bool-cases (succeeded (w.outcomes id (suc e.attempts)))) [
        | inl done ↦
            rw (due, judge, done) (delivered (succeeded-Delivered w id (suc e.attempts) done))
        | inr bad ↦ elim (Bool-cases (leb cap (suc e.attempts))) [
          | inl last ↦
              rw (due, judge, bad, last)
                (reported (
                  ground (
                    arith,
                    contains-ids_append id r.failed (record e { attempts = suc e.attempts } ∷ []),
                    eq_refl id,
                  )))
          | inr more ↦ rw (due, judge, bad, more) (queued (last_queued _ refl))
        ]
      ]
    ]

tick_loop-Settled :
    (w : World) (now cap base : ℕ) (id : Text) (es : List OutboxEntry) (r : Round)
    → Settled w id r ⊎ (JsSet.contains id (ids es) ≡ true)
    → Settled w id (tick_loop w now cap base es r)
unfolding tick_loop JsSet.contains
tick_loop-Settled w now cap base id [] r (inl h) = h
tick_loop-Settled w now cap base id [] r (inr h) = cc
tick_loop-Settled w now cap base id (e ∷ es) r (inl h) =
    tick_loop-Settled w now cap base id es (settle (judge w now cap base e) r)
      (inl (settle_keeps w id (judge w now cap base e) r h))
tick_loop-Settled w now cap base id (e ∷ es) r (inr h) =
    tick_loop-Settled w now cap base id es (settle (judge w now cap base e) r)
      (elim (Bool-cases (e.message_id == id)) [
        | inl same ↦ inl (
            subst (λ x. Settled w x (settle (judge w now cap base e) r))
              ((eq_iff e.message_id id).0 same) (judge_settles w now cap base e r))
        | inr other ↦ inr (ground arith)
      ])

-- A tick loses no message: one that was queued is still queued, was reported by
-- `onTerminalFailure`, or had an attempt that a target took.
pub tick_keeps :
    (w : World) (now : ℕ) (id : Text) (ob : Outbox)
    → JsSet.contains id (ids ob.queue) ≡ true
    → (JsSet.contains id (ids (tick w now ob).1.queue) ≡ true)
      ⊎ (JsSet.contains id (ids (tick w now ob).1.failures) ≡ true)
      ⊎ Delivered w id
unfolding tick
tick_keeps w now id ob h =
    elim (tick_loop-Settled w now ob.max_attempts ob.base_backoff_ms id ob.queue (first_round ob)
      (inr h)) [ queued q ↦ inl q | reported f ↦ inr (inl f) | delivered d ↦ inr (inr d) ]
