-- ===== src/Subscriptions/MapBased/Laws.antt =====
-- The storage over a map keeps the promises of a subscription storage.
use android_vendor_sobjectiz.Common.{
  ℕ, ◌+◌, ◌≡◌, ◌≤◌, ◌<◌, Bool, not, ◌&&◌, none, some, List, [], ◌∷◌, arith, refl, ap, ◌∙◌,
  Option-cases, inl, inr,
}
use android_vendor_sobjectiz.Subscriptions.Data.{Info, MboxCall, Reply, same_key, is_same_mbox_msg}
use android_vendor_sobjectiz.Subscriptions.Content.{
  count, without, has, lookup, Same, create_content, create_reply, drop_calls, drop_all_calls,
  count-without, without-none, count-le,
}
use android_vendor_sobjectiz.Subscriptions.Storage.{StorageLaws}
use android_vendor_sobjectiz.Subscriptions.MapBased.{
  MapStorage, find, emplace, erase, is_known_mbox_msg_pair, create_event_subscription,
  drop_subscription, drop_subscription_for_all_states, find_handler, insert_all, ops,
}
use android_vendor_sobjectiz.Subscriptions.MapBased.Order.{
  IsAscending, IsAscending-emplace, IsAscending-IsUnique, count-emplace, IsAscending-erase,
}
use android_vendor_sobjectiz.Subscriptions.MapBased.Neighbours.{
  known_lem, erase_from_lower_bound-without, lower_bound-has, IsAscending-erase_from_lower_bound,
}

module _ (m t s : ℕ) where
  find-none : (es : List Info) → find m t s es ≡ none → count (same_key m t s) es ≡ 0
  unfolding find
  find-none [] e = refl
  find-none (i ∷ es) e = ground (arith, find-none es)

  find-some : (i : Info) (es : List Info) → find m t s es ≡ some i → 0 < count (same_key m t s) es
  unfolding find
  find-some i [] e = absurd cc
  find-some i (j ∷ es) e = ground (arith, find-some i es)

  find_handler-lookup : (es : List Info) → find_handler m t s es ≡ lookup m t s es
  unfolding find_handler find
  find_handler-lookup [] = refl
  find_handler-lookup (i ∷ es) = ground (arith, find_handler-lookup es)

  erase-without :
      (es : List Info)
      → count (same_key m t s) es ≤ 1
      → erase m t s es ≡ without (same_key m t s) es
  unfolding erase
  erase-without [] u = refl
  erase-without (i ∷ es) u = ground (arith, erase-without es, without-none (same_key m t s) es)

  key-pair : (es : List Info) → count (same_key m t s) es ≤ count (is_same_mbox_msg m t) es
  key-pair es = count-le (same_key m t s) (is_same_mbox_msg m t) es (λ i e. ground arith)

  abbrev Drops : MapStorage → MapStorage × List MboxCall → Type 0
  Drops es r =
      IsAscending r.0 × (r.1 ≡ drop_calls m t s es) × Same r.0 (without (same_key m t s) es)

  drop_subscription_lem : (es : List Info) → IsAscending es → Drops es (drop_subscription m t s es)
  unfolding drop_subscription
  drop_subscription_lem es asc = elim (Option-cases (find m t s es)) [
    | inl e ↦
        let gone = find-none es e in
        rw (e, drop_subscription)
          (asc, ground (arith, gone), λ P. ground (arith, without-none (same_key m t s) es gone))
    | inr (i, e) ↦
        let here = find-some i es e in
        rw (e, drop_subscription)
          (
            IsAscending-erase m t s es asc,
            ground (arith, here, key-pair es, known_lem m t s none es tt asc here),
            λ P. ap (count P) (erase-without es (IsAscending-IsUnique es asc m t s)),
          )
  ]

module _ (i : Info) (l : ℕ) (b : Bool) (es : List Info) (asc : IsAscending es) where
  abbrev key : Info → Bool
  key = same_key i.mbox i.msg_type i.state

  abbrev events : List Info
  events = emplace i es

  module _ (new : count key es ≡ 0) where
    known_new :
        is_known_mbox_msg_pair i.mbox i.msg_type i.state none events
        ≡ has (is_same_mbox_msg i.mbox i.msg_type) es
    known_new =
        let here : 0 < count key events = ground (arith, count-emplace key i es asc new) in
        ground (
          arith,
          count-emplace (is_same_mbox_msg i.mbox i.msg_type) i es asc new,
          known_lem i.mbox i.msg_type i.state none events tt (IsAscending-emplace i es asc) here,
        )

    erase_new : Same (erase i.mbox i.msg_type i.state events) es
    erase_new P =
        ap (count P) (
          erase-without i.mbox i.msg_type i.state events
            (IsAscending-IsUnique events (IsAscending-emplace i es asc) i.mbox i.msg_type i.state))
        ∙ ground (
          arith,
          count-without P key events,
          count-without P key es,
          without-none key es new,
          count-emplace (λ j. P j && not (key j)) i es asc new,
        )

  abbrev Creates : MapStorage × Reply → Type 0
  Creates r = IsAscending r.0 × (r.1 ≡ create_reply i l b es) × Same r.0 (create_content i b es)

  create_lem : Creates (create_event_subscription i l b es)
  unfolding create_event_subscription
  create_lem = elim (Option-cases (find i.mbox i.msg_type i.state es)) [
    | inl e ↦
        let new = find-none i.mbox i.msg_type i.state es e in
        rw (e, create_event_subscription)
          (
            ground (
              arith,
              IsAscending-emplace i es asc,
              IsAscending-erase i.mbox i.msg_type i.state events,
            ),
            ground (arith, new, known_new new),
            λ P. ground (arith, new, known_new new, erase_new new P, count-emplace P i es asc new),
          )
    | inr (j, e) ↦
        let here = find-some i.mbox i.msg_type i.state j es e in
        rw (e, create_event_subscription) (asc, ground (arith, here), λ P. ground (arith, here))
  ]

IsAscending-insert_all : (xs es : List Info) → IsAscending es → IsAscending (insert_all xs es)
unfolding insert_all
IsAscending-insert_all [] es asc = asc
IsAscending-insert_all (x ∷ xs) es asc =
    IsAscending-insert_all xs (emplace x es) (IsAscending-emplace x es asc)

count-insert_all :
    (P : Info → Bool) (xs es : List Info)
    → IsAscending es
    → ((m t s : ℕ) → count (same_key m t s) xs + count (same_key m t s) es ≤ 1)
    → count P (insert_all xs es) ≡ count P xs + count P es
unfolding insert_all
count-insert_all P [] es asc u = omega arith
count-insert_all P (x ∷ xs) es asc u =
    let new : count (same_key x.mbox x.msg_type x.state) es ≡ 0 =
      ground (arith, u x.mbox x.msg_type x.state) in
    let rest =
      count-insert_all P xs (emplace x es) (IsAscending-emplace x es asc)
        (λ m t s. ground (arith, u m t s, count-emplace (same_key m t s) x es asc new)) in
    ground (arith, rest, count-emplace P x es asc new)

drop_all_lem :
    (m t : ℕ) (es : List Info)
    → IsAscending es
    → IsAscending (drop_subscription_for_all_states m t es).0
      × ((drop_subscription_for_all_states m t es).1 ≡ drop_all_calls m t es)
      × Same (drop_subscription_for_all_states m t es).0 (without (is_same_mbox_msg m t) es)
unfolding drop_subscription_for_all_states
drop_all_lem m t es asc = (
  ground (arith, asc, IsAscending-erase_from_lower_bound m t es asc),
  ground (arith, lower_bound-has m t es asc),
  λ P. ground (
    arith,
    lower_bound-has m t es asc,
    erase_from_lower_bound-without m t es asc P,
    without-none (is_same_mbox_msg m t) es,
  ),
)

pub laws : StorageLaws ops
unfolding ops
laws = record {
  IsValid = IsAscending;
  unique = λ es asc. IsAscending-IsUnique es asc;
  count_lem = λ es asc. refl;
  find_lem = λ m t s es asc. find_handler-lookup m t s es;
  create_lem = λ i l b es asc. create_lem i l b es asc;
  drop_lem = λ m t s es asc. drop_subscription_lem m t s es asc;
  drop_all_lem = λ m t es asc. drop_all_lem m t es asc;
  drop_content_lem = λ es asc. (tt, refl);
  setup_lem = λ xs es asc u e. (
    IsAscending-insert_all xs [] tt,
    λ P. omega (arith, count-insert_all P xs [] tt (λ m t s. omega (arith, u m t s))),
  );
}

-- A new storage is valid and empty.
pub make-IsValid : laws.IsValid [] × (ops.query_content [] ≡ [])
unfolding laws ops
make-IsValid = (tt, refl)

pub IsValid-IsAscending : (es : List Info) → laws.IsValid es → IsAscending es
unfolding laws
IsValid-IsAscending es v = v
