-- ===== src/Client/Frames.antt =====
-- The frames of a message: src/index.ts, `sendContentInner`, the groups by `msgType`.
use mathlib.Core.List.{append-nil, append_assoc}
use secure_chat_client.Client.Outgoing.{
  ChatSendTarget, ChatSendFrame, SendOptions, Buckets, same_type, put_in_bucket, by_msg_type,
  frames_of,
}
use secure_chat_client.Prelude.{
  ◌≡◌, refl, sym, ap, ◌∙◌, Bool, true, false, ◌&&◌, not, List, [], ◌∷◌, ◌++◌, Text, if◌then◌else◌,
  arith,
}
use secure_chat_client.Sessions.{MsgType, prekey, normal}

-- The targets of the first frame of a type.
unfoldable pub targets_at : MsgType → List ChatSendFrame → List ChatSendTarget
targets_at type [] = []
targets_at type (f ∷ fs) =
    let rest = targets_at type fs in if same_type f.msg_type type then f.targets else rest

unfoldable pub has_type : MsgType → List ChatSendFrame → Bool
has_type type [] = false
has_type type (f ∷ fs) =
    let rest = has_type type fs in if same_type f.msg_type type then true else rest

-- No two frames have one type.
unfoldable pub one_each : List ChatSendFrame → Bool
unfolding has_type
one_each [] = true
one_each (f ∷ fs) = not (has_type f.msg_type fs) && one_each fs

-- The targets whose ciphertext is of a type, in order.
unfoldable pub of_type : MsgType → List (MsgType × ChatSendTarget) → List ChatSendTarget
of_type type [] = []
of_type type ((b, t) ∷ es) =
    let rest = of_type type es in if same_type b type then t ∷ rest else rest

same_type_trans : (a b c : MsgType) → same_type a b ≡ true → same_type a c ≡ same_type b c
same_type_trans prekey prekey c e = refl
same_type_trans normal normal c e = refl
same_type_trans prekey normal c e = cc
same_type_trans normal prekey c e = cc

same_type_comm : (a b : MsgType) → same_type a b ≡ same_type b a
same_type_comm prekey prekey = refl
same_type_comm prekey normal = refl
same_type_comm normal prekey = refl
same_type_comm normal normal = refl

joined :
    (a type : MsgType) (t : ChatSendTarget) (es : List (MsgType × ChatSendTarget))
    → (if same_type type a then t ∷ [] else []) ++ of_type a es ≡ of_type a ((type, t) ∷ es)
unfolding of_type
joined a type t es = ground arith

module _ (peer : Text) (o : SendOptions) where
  targets_at-put :
      (a type : MsgType) (t : ChatSendTarget) (bs : Buckets)
      → targets_at a (frames_of peer o (put_in_bucket type t bs))
        ≡ targets_at a (frames_of peer o bs) ++ (if same_type type a then t ∷ [] else [])
  unfolding targets_at frames_of put_in_bucket
  targets_at-put a type t [] = ground arith
  targets_at-put a type t ((b, ts) ∷ bs) = ground (
    arith,
    targets_at-put a type t bs,
    same_type_trans b type a,
    same_type_trans b a type,
    same_type_comm a type,
    append-nil ts,
    append-nil (targets_at a (frames_of peer o bs)),
  )

  has_type-put :
      (a type : MsgType) (t : ChatSendTarget) (bs : Buckets)
      → has_type a (frames_of peer o (put_in_bucket type t bs))
        ≡ (if same_type type a then true else has_type a (frames_of peer o bs))
  unfolding has_type frames_of put_in_bucket
  has_type-put a type t [] = refl
  has_type-put a type t ((b, ts) ∷ bs) =
      ground (arith, has_type-put a type t bs, same_type_trans b type a)

  one_each-put :
      (type : MsgType) (t : ChatSendTarget) (bs : Buckets)
      → one_each (frames_of peer o bs) ≡ true
      → one_each (frames_of peer o (put_in_bucket type t bs)) ≡ true
  unfolding one_each has_type frames_of put_in_bucket
  one_each-put type t [] h = refl
  one_each-put type t ((b, ts) ∷ bs) h =
      ground (arith, h, one_each-put type t bs, has_type-put b type t bs)

  targets_at-by_msg_type :
      (a : MsgType) (es : List (MsgType × ChatSendTarget)) (bs : Buckets)
      → targets_at a (frames_of peer o (by_msg_type es bs))
        ≡ targets_at a (frames_of peer o bs) ++ of_type a es
  unfolding by_msg_type of_type
  targets_at-by_msg_type a [] bs = sym (append-nil (targets_at a (frames_of peer o bs)))
  targets_at-by_msg_type a ((type, t) ∷ es) bs =
      targets_at-by_msg_type a es (put_in_bucket type t bs)
      ∙ ap (λ l. l ++ of_type a es) (targets_at-put a type t bs)
      ∙ append_assoc (targets_at a (frames_of peer o bs)) (if same_type type a then t ∷ [] else [])
          (of_type a es)
      ∙ ap (λ l. targets_at a (frames_of peer o bs) ++ l) (joined a type t es)

  one_each-by_msg_type :
      (es : List (MsgType × ChatSendTarget)) (bs : Buckets)
      → one_each (frames_of peer o bs) ≡ true
      → one_each (frames_of peer o (by_msg_type es bs)) ≡ true
  unfolding by_msg_type
  one_each-by_msg_type [] bs h = h
  one_each-by_msg_type ((type, t) ∷ es) bs h =
      one_each-by_msg_type es (put_in_bucket type t bs) (one_each-put type t bs h)

  -- The frames of a message carry each target exactly once, in a frame of the type of its own
  -- ciphertext and in the order of the encryption, and no two frames have one type.
  pub by_msg_type_lem :
      (es : List (MsgType × ChatSendTarget))
      → (targets_at prekey (frames_of peer o (by_msg_type es [])) ≡ of_type prekey es)
        × (targets_at normal (frames_of peer o (by_msg_type es [])) ≡ of_type normal es)
        × (one_each (frames_of peer o (by_msg_type es [])) ≡ true)
  unfolding targets_at frames_of one_each
  by_msg_type_lem es = (
    targets_at-by_msg_type prekey es [],
    targets_at-by_msg_type normal es [],
    one_each-by_msg_type es [] refl,
  )
