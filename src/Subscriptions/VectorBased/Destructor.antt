-- ===== src/Subscriptions/VectorBased/Destructor.antt =====
-- The destructor of the storage over a vector.
use android_vendor_sobjectiz.Common.{
  ℕ, suc, ◌≡◌, ◌==◌, if◌then◌else◌, true, false, not, ◌&&◌, ◌||◌, Bool, List, [], ◌∷◌, arith, refl,
  Bool-cases, inl, inr,
}
use android_vendor_sobjectiz.Subscriptions.Data.{
  MboxCall, subscribe_event_handler, unsubscribe_event_handlers,
}
use android_vendor_sobjectiz.Subscriptions.VectorBased.{
  Held, MboxMsgTypePair, pair_lt, pair_eq, insert, sort, is_first, unique, pairs_of,
  unsubscribe_all, destroy_all_subscriptions,
}

-- The calls of the object at address `m` about messages of type `t`.
abbrev pub calls_to : ℕ → ℕ → List MboxCall → List MboxCall
calls_to m t [] = []
calls_to m t (subscribe_event_handler m' t' l ∷ cs) =
    if (m' == m) && (t' == t)
    then subscribe_event_handler m' t' l ∷ calls_to m t cs
    else calls_to m t cs
calls_to m t (unsubscribe_event_handlers m' t' ∷ cs) =
    if (m' == m) && (t' == t)
    then unsubscribe_event_handlers m' t' ∷ calls_to m t cs
    else calls_to m t cs

-- How often a pair is in a list.
abbrev times : ℕ → ℕ → List MboxMsgTypePair → ℕ
times m t [] = 0
times m t (p ∷ ps) =
    if (p.pair_mbox == m) && (p.pair_msg_type == t) then suc (times m t ps) else times m t ps

abbrev AllFrom : MboxMsgTypePair → List MboxMsgTypePair → Type 0
AllFrom p [] = Unit
AllFrom p (q ∷ qs) = (pair_lt q p ≡ false) × AllFrom p qs

abbrev IsSorted : List MboxMsgTypePair → Type 0
IsSorted [] = Unit
IsSorted (p ∷ ps) = AllFrom p ps × IsSorted ps

AllFrom-below :
    (p q : MboxMsgTypePair) (qs : List MboxMsgTypePair)
    → pair_lt q p ≡ false
    → AllFrom q qs
    → AllFrom p qs
AllFrom-below p q [] h a = tt
AllFrom-below p q (r ∷ qs) h a = (ground (arith, h, a.0), AllFrom-below p q qs h a.1)

AllFrom-insert :
    (p q : MboxMsgTypePair) (qs : List MboxMsgTypePair)
    → pair_lt q p ≡ false
    → AllFrom p qs
    → AllFrom p (insert q qs)
unfolding insert
AllFrom-insert p q [] h a = (h, tt)
AllFrom-insert p q (r ∷ qs) h a = ground (arith, AllFrom-insert p q qs)

insert-IsSorted :
    (p : MboxMsgTypePair) (ps : List MboxMsgTypePair) → IsSorted ps → IsSorted (insert p ps)
unfolding insert
insert-IsSorted p [] s = (tt, tt)
insert-IsSorted p (q ∷ qs) s = elim (Bool-cases (pair_lt q p)) [
  | inl lt ↦
      let back : pair_lt p q ≡ false = ground arith in
      rw lt (AllFrom-insert q p qs back s.0, insert-IsSorted p qs s.1)
  | inr ge ↦ rw ge ((ge, AllFrom-below p q qs ge s.0), s)
]

sort-IsSorted : (ps : List MboxMsgTypePair) → IsSorted (sort ps)
unfolding sort
sort-IsSorted [] = tt
sort-IsSorted (p ∷ ps) = insert-IsSorted p (sort ps) (sort-IsSorted ps)

module _ (m t : ℕ) where
  times-insert :
      (p : MboxMsgTypePair) (ps : List MboxMsgTypePair)
      → times m t (insert p ps) ≡ times m t (p ∷ ps)
  unfolding insert
  times-insert p [] = refl
  times-insert p (q ∷ qs) = ground (arith, times-insert p qs)

  times-sort : (ps : List MboxMsgTypePair) → times m t (sort ps) ≡ times m t ps
  unfolding sort
  times-sort [] = refl
  times-sort (p ∷ ps) = ground (arith, times-insert p (sort ps), times-sort ps)

  -- Whether a subscription is of type `t` and holds the object at address `m`.
  abbrev pub is_held_by : List Held → Bool
  is_held_by [] = false
  is_held_by (h ∷ hs) = ((h.address == m) && (h.info.msg_type == t)) || is_held_by hs

  times-pairs_of : (es : List Held) → not (times m t (pairs_of es) == 0) ≡ is_held_by es
  unfolding pairs_of
  times-pairs_of [] = refl
  times-pairs_of (i ∷ es) = ground (arith, times-pairs_of es)

  -- Past a pair that comes after (m, t) there is no (m, t).
  past_pair :
      (q : MboxMsgTypePair) (qs : List MboxMsgTypePair)
      → pair_lt (record { pair_mbox = m; pair_msg_type = t }) q ≡ true
      → AllFrom q qs
      → times m t qs ≡ 0
  past_pair q [] h a = refl
  past_pair q (r ∷ qs) h a = ground (arith, past_pair q qs h a.1)

  next_lem :
      (p : MboxMsgTypePair) (ps : List MboxMsgTypePair)
      → (p.pair_mbox == m) && (p.pair_msg_type == t) ≡ true
      → AllFrom p ps
      → IsSorted ps
      → is_first p ps ≡ not (times m t ps == 0)
  next_lem p [] h a s = refl
  next_lem p (q ∷ qs) h a s = elim (Bool-cases (pair_eq p q)) [
    | inl same ↦ ground arith
    | inr other ↦
        let after : pair_lt (record { pair_mbox = m; pair_msg_type = t }) q ≡ true =
          ground (arith, a.0) in
        ground (arith, past_pair q qs after s.0)
  ]

  calls-unique :
      (ps : List MboxMsgTypePair)
      → IsSorted ps
      → calls_to m t (unsubscribe_all (unique ps))
        ≡ (if times m t ps == 0 then [] else unsubscribe_event_handlers m t ∷ [])
  unfolding unique unsubscribe_all
  calls-unique [] s = refl
  calls-unique (p ∷ ps) s = elim (Bool-cases ((p.pair_mbox == m) && (p.pair_msg_type == t))) [
    | inl same ↦ ground (arith, calls-unique ps s.1, next_lem p ps same s.0 s.1)
    | inr other ↦ ground (arith, calls-unique ps s.1)
  ]

  -- The destructor of a storage over a vector calls each mbox object, told from others by its address,
  -- exactly once for each message type of which there is a subscription that holds this object, to
  -- unsubscribe from it, and makes no other call.
  pub calls-destroy_all_subscriptions :
      (es : List Held)
      → calls_to m t (destroy_all_subscriptions es)
        ≡ (if is_held_by es then unsubscribe_event_handlers m t ∷ [] else [])
  unfolding destroy_all_subscriptions
  calls-destroy_all_subscriptions es =
      let same = times-sort (pairs_of es) in
      ground (
        arith,
        calls-unique (sort (pairs_of es)) (sort-IsSorted (pairs_of es)),
        same,
        times-pairs_of es,
      )
