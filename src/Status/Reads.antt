-- ===== src/Status/Reads.antt =====
-- What a `read` watermark does to every message: src/status.ts, `onRead`.
use secure_chat_client.Prelude.JsMap
use secure_chat_client.Prelude.JsSet
use secure_chat_client.Prelude.{
  ◌≡◌, refl, Bool, false, ◌&&◌, ◌||◌, not, Option, none, some, List, [], ◌∷◌, Text, ◌==◌, eq_iff,
  arith, if◌then◌else◌, inl, inr, Option-cases, is_some,
}
use secure_chat_client.Status.{
  MessageStatus, pending, read, failed, StatusTracker, bump, read_one, read_all, on_read, upto,
  list_at, buffer_read,
}
use secure_chat_client.Status.Track.{get_status}

-- The watermark `up_to_id` covers `id` in a thread: `id` stands there, not behind the first
-- `up_to_id`.
unfoldable pub covers : Text → Text → List Text → Bool
unfolding JsSet.contains
covers up_to_id id [] = false
covers up_to_id id (x ∷ xs) =
    JsSet.contains up_to_id (x ∷ xs)
    && ((x == id) || (not (x == up_to_id) && covers up_to_id id xs))

-- The status that a message has once it is read.
abbrev pub after_read : Option MessageStatus → Option MessageStatus
after_read none = none
after_read (some failed) = some failed
after_read (some s) = some read

after_read_idem : (s : Option MessageStatus) → after_read (after_read s) ≡ after_read s
after_read_idem none = refl
after_read_idem (some pending) = refl
after_read_idem (some _) = refl

-- One round of the loop marks one message and leaves the others.
get_status-read_one :
    (id k : Text) (t : StatusTracker)
    → get_status id (read_one t k)
      ≡ (if k == id then after_read (get_status id t) else get_status id t)
unfolding get_status read_one bump
get_status-read_one id k t = elim (Option-cases (JsMap.lookup k t.outbound)) [
  | inl unknown ↦ rw (unknown, read_one) (ground (arith, eq_iff k id))
  | inr (o, found) ↦
      rw (found, read_one)
        (ground
          (arith, eq_iff k id, JsMap.lookup-insert k id (record o { status = read }) t.outbound))
]

get_status-read_all :
    (id : Text) (ids : List Text) (t : StatusTracker)
    → get_status id (read_all ids t)
      ≡ (if JsSet.contains id ids then after_read (get_status id t) else get_status id t)
unfolding read_all JsSet.contains
get_status-read_all id [] t = refl
get_status-read_all id (k ∷ ids) t = ground (
  arith,
  get_status-read_one id k t,
  get_status-read_all id ids (read_one t k),
  after_read_idem (get_status id t),
)

is_some-upto :
    (up_to_id : Text) (l : List Text) → is_some (upto up_to_id l) ≡ JsSet.contains up_to_id l
unfolding upto JsSet.contains
is_some-upto up_to_id [] = refl
is_some-upto up_to_id (x ∷ xs) = ground (arith, is_some-upto up_to_id xs)

get_status-buffer_read :
    (id peer up_to_id : Text) (t : StatusTracker)
    → get_status id (buffer_read peer up_to_id t) ≡ get_status id t
unfolding get_status buffer_read
get_status-buffer_read id peer up_to_id t = refl

-- The ids that `onRead` walks over are those that the watermark covers.
upto-covers :
    (up_to_id id : Text) (l : List Text)
    → (elim (upto up_to_id l) [ none ↦ false | some ids ↦ JsSet.contains id ids ])
      ≡ covers up_to_id id l
unfolding upto covers
upto-covers up_to_id id [] = refl
upto-covers up_to_id id (x ∷ xs) =
    ground (arith, is_some-upto up_to_id xs, upto-covers up_to_id id xs)

-- A `read` event marks as read exactly the tracked messages of the thread that its watermark
-- covers, but for failed ones, and leaves the status of every other message; a watermark that is
-- not in the thread changes no status.
pub get_status-on_read :
    (id peer up_to_id : Text) (t : StatusTracker)
    → get_status id (on_read peer up_to_id t) ≡ (
        if covers up_to_id id (list_at peer t.by_peer)
        then after_read (get_status id t)
        else get_status id t)
unfolding on_read
get_status-on_read id peer up_to_id t =
    let thread : List Text = list_at peer t.by_peer in
    elim (Option-cases (upto up_to_id thread)) [
      | inl unknown ↦
          rw (unknown, on_read)
            (ground
              (arith, upto-covers up_to_id id thread, get_status-buffer_read id peer up_to_id t))
      | inr (ids, known) ↦
          rw (known, on_read)
            (ground (arith, upto-covers up_to_id id thread, get_status-read_all id ids t))
    ]
