-- ===== src/Subscriptions/Mboxes.antt =====
-- What an mbox hears of an agent's subscriptions, from any storage that keeps its promises.
use android_vendor_sobjectiz.Common.{
  ℕ, ◌+◌, ◌≡◌, ◌≤◌, ◌==◌, if◌then◌else◌, Bool, true, false, not, ◌&&◌, Option, none, some, List, [],
  ◌∷◌, arith, refl, sym, ap, ◌∙◌,
}
use android_vendor_sobjectiz.Subscriptions.Data.{
  Info, MboxCall, subscribe_event_handler, unsubscribe_event_handlers, Thrown, mbox_exception,
  same_key, is_same_mbox_msg,
}
use android_vendor_sobjectiz.Subscriptions.Content.{
  count, without, has, Same, create_content, create_reply, drop_calls, drop_all_calls, count-le,
}
use android_vendor_sobjectiz.Subscriptions.Storage.{StorageOps, StorageLaws}
use android_vendor_sobjectiz.Subscriptions.Equivalence.{
  Request, create_event_subscription, drop_subscription, drop_subscription_for_all_states,
  find_handler, query_subscriptions_count, drop_content, Answer, created, dropped, answer, answers,
  after,
}

-- A watcher of the calls for mbox `m` and type `t`: it knows whether the agent is subscribed, and
-- refuses a second subscription and an unsubscription without one.
abbrev pub hear : ℕ → ℕ → Bool → List MboxCall → Option Bool
hear m t u [] = some u
hear m t u (subscribe_event_handler m' t' l ∷ cs) =
    if (m' == m) && (t' == t) then (if u then none else hear m t true cs) else hear m t u cs
hear m t u (unsubscribe_event_handlers m' t' ∷ cs) =
    if (m' == m) && (t' == t) then (if u then hear m t false cs else none) else hear m t u cs

-- A call that throws leaves the subscription as it was.
abbrev pub after_throw : Option Thrown → Bool → Option Bool → Option Bool
after_throw thrown u none = none
after_throw (some mbox_exception) u (some v) = some u
after_throw _ u (some v) = some v

abbrev pub hear_answer : ℕ → ℕ → Bool → Answer → Option Bool
hear_answer m t u (created r) = after_throw r.thrown u (hear m t u r.calls)
hear_answer m t u (dropped cs) = hear m t u cs
hear_answer m t u _ = some u

unfoldable pub hear_all : ℕ → ℕ → Bool → List Answer → Option Bool
hear_all m t u [] = some u
hear_all m t u (a ∷ as_) = elim (hear_answer m t u a) [ none ↦ none | some v ↦ hear_all m t v as_ ]

-- Requests without drop_content, which tells mboxes nothing.
abbrev pub Keeps : List Request → Type 0
Keeps [] = Unit
Keeps (drop_content ∷ rs) = ⊥
Keeps (r ∷ rs) = Keeps rs

hear-create :
    (m t : ℕ) (i : Info) (l : ℕ) (b : Bool) (xs : List Info)
    → hear_answer m t (has (is_same_mbox_msg m t) xs) (created (create_reply i l b xs))
      ≡ some (has (is_same_mbox_msg m t) (create_content i b xs))
hear-create m t i l b xs = ground arith

-- Removing subscriptions of one key, which the watched pair has or has not.
pair-without :
    (m t m' t' k : ℕ) (xs : List Info)
    → count (is_same_mbox_msg m t) (without (same_key m' t' k) xs)
        + (if (m' == m) && (t' == t) then count (same_key m' t' k) xs else 0)
      ≡ count (is_same_mbox_msg m t) xs
pair-without m t m' t' k [] = ground arith
pair-without m t m' t' k (x ∷ xs) = ground (arith, pair-without m t m' t' k xs)

pair-without_pair :
    (m t m' t' : ℕ) (xs : List Info)
    → count (is_same_mbox_msg m t) (without (is_same_mbox_msg m' t') xs)
      ≡ (if (m' == m) && (t' == t) then 0 else count (is_same_mbox_msg m t) xs)
pair-without_pair m t m' t' [] = ground arith
pair-without_pair m t m' t' (x ∷ xs) = ground (arith, pair-without_pair m t m' t' xs)

hear-drop :
    (m t m' t' k : ℕ) (xs : List Info)
    → count (same_key m' t' k) xs ≤ 1
    → hear m t (has (is_same_mbox_msg m t) xs) (drop_calls m' t' k xs)
      ≡ some (has (is_same_mbox_msg m t) (without (same_key m' t' k) xs))
hear-drop m t m' t' k xs u = ground (
  arith,
  pair-without m t m' t' k xs,
  count-le (same_key m' t' k) (is_same_mbox_msg m' t') xs (λ i e. ground arith),
)

hear-drop_all :
    (m t m' t' : ℕ) (xs : List Info)
    → hear m t (has (is_same_mbox_msg m t) xs) (drop_all_calls m' t' xs)
      ≡ some (has (is_same_mbox_msg m t) (without (is_same_mbox_msg m' t') xs))
hear-drop_all m t m' t' xs = ground (arith, pair-without_pair m t m' t' xs)

module _ {S : Type 0} {ops : StorageOps S} (laws : StorageLaws ops) (m t : ℕ) where
  abbrev pub is_held : S → Bool
  is_held s = has (is_same_mbox_msg m t) (ops.query_content s)

  abbrev Hears : S → S × Answer → Type 0
  Hears s r = laws.IsValid r.0 × (hear_answer m t (is_held s) r.1 ≡ some (is_held r.0))

  Same-is_held :
      (xs ys : List Info)
      → Same xs ys
      → has (is_same_mbox_msg m t) ys ≡ has (is_same_mbox_msg m t) xs
  Same-is_held xs ys h = ap (λ n. not (n == 0)) (sym (h (is_same_mbox_msg m t)))

  answer-Hears : (s : S) (r : Request) → Keeps (r ∷ []) → laws.IsValid s → Hears s (answer ops s r)
  unfolding answer
  answer-Hears s (create_event_subscription i l b) k v =
      let (v', e, same) = laws.create_lem i l b s v in
      (
        v',
        ap (λ r. hear_answer m t (is_held s) (created r)) e
            ∙ (hear-create m t i l b (ops.query_content s) ∙ ap some (Same-is_held _ _ same)),
      )
  answer-Hears s (drop_subscription m' t' q) k v =
      let (v', e, same) = laws.drop_lem m' t' q s v in
      (
        v',
        ap (hear m t (is_held s)) e
            ∙ (hear-drop m t m' t' q (ops.query_content s) (laws.unique s v m' t' q)
                ∙ ap some (Same-is_held _ _ same)),
      )
  answer-Hears s (drop_subscription_for_all_states m' t') k v =
      let (v', e, same) = laws.drop_all_lem m' t' s v in
      (
        v',
        ap (hear m t (is_held s)) e
            ∙ (hear-drop_all m t m' t' (ops.query_content s) ∙ ap some (Same-is_held _ _ same)),
      )
  answer-Hears s (find_handler m' t' q) k v = (v, refl)
  answer-Hears s query_subscriptions_count k v = (v, refl)
  answer-Hears s drop_content k v = absurd k

  Keeps-cons : (r : Request) (rs : List Request) → Keeps (r ∷ rs) → Keeps (r ∷ []) × Keeps rs
  Keeps-cons (create_event_subscription i l b) rs k = (tt, k)
  Keeps-cons (drop_subscription m' t' q) rs k = (tt, k)
  Keeps-cons (drop_subscription_for_all_states m' t') rs k = (tt, k)
  Keeps-cons (find_handler m' t' q) rs k = (tt, k)
  Keeps-cons query_subscriptions_count rs k = (tt, k)
  Keeps-cons drop_content rs k = absurd k

  -- From a storage that keeps its promises, over any requests but drop_content, every mbox hears of
  -- each message type a subscription when the first state subscribes, and an unsubscription when the
  -- last one is dropped: never a second one of either, and at the end it holds the agent exactly if
  -- the storage has a subscription of that mbox and type.
  pub hear_all-answers :
      (s : S) (rs : List Request)
      → Keeps rs
      → laws.IsValid s
      → hear_all m t (is_held s) (answers ops s rs) ≡ some (is_held (after ops s rs))
  unfolding hear_all answers after
  hear_all-answers s [] k v = refl
  hear_all-answers s (r ∷ rs) k v =
      let (one, more) = Keeps-cons r rs k in
      let (v', e) = answer-Hears s r one v in
      rw (e, hear_all) (hear_all-answers (answer ops s r).0 rs more v')

  pub after-IsValid :
      (s : S) (rs : List Request) → Keeps rs → laws.IsValid s → laws.IsValid (after ops s rs)
  unfolding after
  after-IsValid s [] k v = v
  after-IsValid s (r ∷ rs) k v =
      let (one, more) = Keeps-cons r rs k in
      after-IsValid (answer ops s r).0 rs more (answer-Hears s r one v).0
