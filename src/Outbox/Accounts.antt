-- ===== src/Outbox/Accounts.antt =====
-- What the queue and the set of ids hold between calls: src/outbox.ts.
use mathlib.Core.List.{append-nil}
use secure_chat_client.Prelude.JsSet
use secure_chat_client.Prelude.JsSet.{Distinct}
use secure_chat_client.Prelude.{
  ℕ, suc, ◌+◌, ◌<◌, ◌≡◌, refl, sym, ap, ◌∙◌, Bool, true, List, [], ◌∷◌, ◌++◌, map, Text, eq_iff,
  eq_refl, leb, ltb, length, length-append, arith, All, All-append, inl, inr, Bool-cases,
}
use secure_chat_client.Outbox.{
  OutboxEntry, Outbox, World, Verdict, keep, deliver, give_up, judge, Round, settle, tick_loop,
  tick, enqueue, new_entry, first_round, succeeded,
}

abbrev pub ids : List OutboxEntry → List Text
ids = map (λ e. e.message_id)

-- The queue and the set of ids agree, no message stands twice, and every queued entry has
-- attempts left.
pub record IsConsistent (ob : Outbox) : Type 0 where
  pub distinct : Distinct (ids ob.queue)
  pub tracked : (a : Text) → JsSet.contains a ob.inflight_ids ≡ JsSet.contains a (ids ob.queue)
  pub positive : 0 < ob.max_attempts
  pub attempts_left : All (λ e. e.attempts < ob.max_attempts) ob.queue

-- The entry that a verdict is about.
abbrev subject : Verdict → OutboxEntry
subject (keep e) = e
subject (deliver e) = e
subject (give_up e) = e

judge-subject :
    (w : World) (now cap base : ℕ) (e : OutboxEntry)
    → (subject (judge w now cap base e)).message_id ≡ e.message_id
unfolding judge
judge-subject w now cap base e = ground arith

-- The loop, with the entries that are still to come.
record IsAgreed (cap : ℕ) (r : Round) (rest : List Text) : Type 0 where
  distinct : Distinct (ids r.still_pending ++ rest)
  tracked :
      (a : Text) → JsSet.contains a r.inflight ≡ JsSet.contains a (ids r.still_pending ++ rest)
  attempts_left : All (λ e. e.attempts < cap) r.still_pending

KeptLeft : ℕ → Verdict → Type 0
KeptLeft cap (keep e) = e.attempts < cap
KeptLeft cap _ = Unit

ids-concat :
    (es : List OutboxEntry) (e : OutboxEntry) (rest : List Text)
    → ids (es ++ e ∷ []) ++ rest ≡ ids es ++ (e.message_id ∷ rest)
ids-concat [] e rest = refl
ids-concat (x ∷ es) e rest = ap (◌∷◌ x.message_id) (ids-concat es e rest)

ids-snoc :
    (es : List OutboxEntry) (e : OutboxEntry) → ids (es ++ e ∷ []) ≡ ids es ++ (e.message_id ∷ [])
ids-snoc [] e = refl
ids-snoc (x ∷ es) e = ap (◌∷◌ x.message_id) (ids-snoc es e)

remove-tracked :
    (x : Text) (inflight xs rest : List Text)
    → Distinct (xs ++ (x ∷ rest))
    → ((a : Text) → JsSet.contains a inflight ≡ JsSet.contains a (xs ++ (x ∷ rest)))
    → (a : Text) → JsSet.contains a (JsSet.remove x inflight) ≡ JsSet.contains a (xs ++ rest)
unfolding JsSet.contains
remove-tracked x inflight xs rest d h a = ground (
  arith,
  JsSet.contains-remove x a inflight,
  h a,
  JsSet.contains-append a xs (x ∷ rest),
  JsSet.contains-append a xs rest,
  (JsSet.Distinct-middle x xs rest d).1,
  eq_iff x a,
)

settle-IsAgreed :
    (cap : ℕ) (v : Verdict) (r : Round) (rest : List Text)
    → KeptLeft cap v
    → IsAgreed cap r ((subject v).message_id ∷ rest)
    → IsAgreed cap (settle v r) rest
unfolding settle KeptLeft
settle-IsAgreed cap (keep e) r rest left h = record {
  distinct = rw (ids-concat r.still_pending e rest) h.distinct;
  tracked = λ a. rw (ids-concat r.still_pending e rest) (h.tracked a);
  attempts_left =
      All-append (λ e. e.attempts < cap) r.still_pending (e ∷ []) h.attempts_left (left, tt);
}
settle-IsAgreed cap (deliver e) r rest left h = record {
  distinct = (JsSet.Distinct-middle e.message_id (ids r.still_pending) rest h.distinct).0;
  tracked = remove-tracked e.message_id r.inflight (ids r.still_pending) rest h.distinct h.tracked;
  attempts_left = h.attempts_left;
}
settle-IsAgreed cap (give_up e) r rest left h = record {
  distinct = (JsSet.Distinct-middle e.message_id (ids r.still_pending) rest h.distinct).0;
  tracked = remove-tracked e.message_id r.inflight (ids r.still_pending) rest h.distinct h.tracked;
  attempts_left = h.attempts_left;
}

settle-count :
    (v : Verdict) (r : Round)
    → (settle v r).completed + length (settle v r).still_pending
      ≡ suc (r.completed + length r.still_pending)
unfolding settle
settle-count (keep e) r = omega (arith, length-append r.still_pending (e ∷ []))
settle-count (deliver e) r = omega arith
settle-count (give_up e) r = omega arith

judge_left :
    (w : World) (now cap base : ℕ) (e : OutboxEntry)
    → e.attempts < cap
    → KeptLeft cap (judge w now cap base e)
unfolding judge KeptLeft
judge_left w now cap base e h = elim (Bool-cases (ltb now e.next_retry_at)) [
  | inl early ↦ rw (early, judge) h
  | inr due ↦ elim (Bool-cases (succeeded (w.outcomes e.message_id (suc e.attempts)))) [
    | inl done ↦ rw (due, judge, done) tt
    | inr bad ↦ elim (Bool-cases (leb cap (suc e.attempts))) [
      | inl last ↦ rw (due, judge, bad, last) tt
      | inr more ↦ rw (due, judge, bad, more) (ground arith)
    ]
  ]
]

tick_loop-IsAgreed :
    (w : World) (now cap base : ℕ) (es : List OutboxEntry) (r : Round)
    → All (λ e. e.attempts < cap) es
    → IsAgreed cap r (ids es)
    → IsAgreed cap (tick_loop w now cap base es r) []
unfolding tick_loop
tick_loop-IsAgreed w now cap base [] r left h = h
tick_loop-IsAgreed w now cap base (e ∷ es) r left h =
    let v : Verdict = judge w now cap base e in
    tick_loop-IsAgreed w now cap base es (settle v r) left.1 (
      settle-IsAgreed cap v r (ids es) (judge_left w now cap base e left.0)
        (rw (judge-subject w now cap base e) h))

tick_loop-count :
    (w : World) (now cap base : ℕ) (es : List OutboxEntry) (r : Round)
    → (tick_loop w now cap base es r).completed
        + length (tick_loop w now cap base es r).still_pending
      ≡ r.completed + length r.still_pending + length es
unfolding tick_loop
tick_loop-count w now cap base [] r = omega arith
tick_loop-count w now cap base (e ∷ es) r =
    let v : Verdict = judge w now cap base e in
    omega (arith, tick_loop-count w now cap base es (settle v r), settle-count v r)

-- A tick of a consistent outbox leaves it consistent: the ids in flight are exactly those of the
-- queue, no message stands twice, and every queued entry has attempts left.
pub tick-IsConsistent :
    (w : World) (now : ℕ) (ob : Outbox) → IsConsistent ob → IsConsistent (tick w now ob).1
unfolding tick
tick-IsConsistent w now ob c =
    let r : Round = tick_loop w now ob.max_attempts ob.base_backoff_ms ob.queue (first_round ob) in
    let h : IsAgreed ob.max_attempts r [] =
      tick_loop-IsAgreed w now ob.max_attempts ob.base_backoff_ms ob.queue (first_round ob)
        c.attempts_left
        (record { distinct = c.distinct; tracked = c.tracked; attempts_left = tt }) in
    record {
      distinct = rw (append-nil (ids r.still_pending)) at h.distinct;
      tracked = λ a. h.tracked a ∙ ap (JsSet.contains a) (append-nil (ids r.still_pending));
      positive = c.positive;
      attempts_left = h.attempts_left;
    }

-- An `enqueue` leaves a consistent outbox consistent, and the message is in the queue after it.
pub enqueue-IsConsistent :
    (id peer : Text) (ephemeral : Bool) (ob : Outbox)
    → IsConsistent ob
    → IsConsistent (enqueue id peer ephemeral ob)
      × (JsSet.contains id (ids (enqueue id peer ephemeral ob).queue) ≡ true)
unfolding enqueue JsSet.contains
enqueue-IsConsistent id peer ephemeral ob c =
    let e : OutboxEntry = new_entry id peer ephemeral in
    elim (Bool-cases (JsSet.contains id ob.inflight_ids)) [
      | inl old ↦ rw old (c, sym (c.tracked id) ∙ old)
      | inr new ↦ rw new (
        record {
          distinct =
              rw (ids-snoc ob.queue e)
                (JsSet.Distinct-concat id (ids ob.queue) c.distinct (sym (c.tracked id) ∙ new));
          tracked = λ a. rw (ids-snoc ob.queue e) (
              ground (
                arith,
                JsSet.contains-add id a ob.inflight_ids,
                JsSet.contains-append a (ids ob.queue) (id ∷ []),
                c.tracked a,
              ));
          positive = c.positive;
          attempts_left =
              All-append (λ x. x.attempts < ob.max_attempts) ob.queue (e ∷ []) c.attempts_left
                (c.positive, tt);
        },
        rw (ids-snoc ob.queue e)
            (ground (arith, JsSet.contains-append id (ids ob.queue) (id ∷ []), eq_refl id)),
      )
    ]

-- The number that a tick returns is the number of entries that left the queue.
pub tick-count :
    (w : World) (now : ℕ) (ob : Outbox)
    → (tick w now ob).0 + length (tick w now ob).1.queue ≡ length ob.queue
unfolding tick
tick-count w now ob =
    omega
      (arith, tick_loop-count w now ob.max_attempts ob.base_backoff_ms ob.queue (first_round ob))
