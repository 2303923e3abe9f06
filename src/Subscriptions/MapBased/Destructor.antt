-- ===== src/Subscriptions/MapBased/Destructor.antt =====
-- The destructor of the storage over a map.
use android_vendor_sobjectiz.Common.{
  ℕ, ◌≡◌, Bool, false, some, List, [], ◌∷◌, arith, refl, Bool-cases, inl, inr, ◌∙◌, ◌++◌,
  Option-cases,
}
use android_vendor_sobjectiz.Subscriptions.Data.{Info, is_same_mbox_msg}
use android_vendor_sobjectiz.Subscriptions.Content.{has}
use android_vendor_sobjectiz.Subscriptions.Equivalence.{Request, Answer, dropped, answers, after}
use android_vendor_sobjectiz.Subscriptions.Mboxes.{
  hear, hear_answer, hear_all, is_held, Keeps, hear_all-answers, after-IsValid,
}
use android_vendor_sobjectiz.Subscriptions.MapBased.{ops, destroy_all_subscriptions}
use android_vendor_sobjectiz.Subscriptions.MapBased.Order.{IsAscending}
use android_vendor_sobjectiz.Subscriptions.MapBased.Neighbours.{next_lem}
use android_vendor_sobjectiz.Subscriptions.MapBased.Laws.{laws, make-IsValid, IsValid-IsAscending}

hear-destroy :
    (m t : ℕ) (es : List Info)
    → IsAscending es
    → hear m t (has (is_same_mbox_msg m t) es) (destroy_all_subscriptions es) ≡ some false
unfolding destroy_all_subscriptions
hear-destroy m t [] asc = refl
hear-destroy m t (i ∷ es) asc = elim (Bool-cases (is_same_mbox_msg m t i)) [
  | inl same ↦ ground (arith, hear-destroy m t es asc.1, next_lem m t 0 i es same asc.0 asc.1)
  | inr other ↦ ground (arith, hear-destroy m t es asc.1)
]

hear_all-append :
    (m t : ℕ) (u v : Bool) (as_ bs : List Answer)
    → hear_all m t u as_ ≡ some v
    → hear_all m t u (as_ ++ bs) ≡ hear_all m t v bs
unfolding hear_all
hear_all-append m t u v [] bs e = ground (arith, e)
hear_all-append m t u v (a ∷ as_) bs e = elim (Option-cases (hear_answer m t u a)) [
  | inl n ↦ absurd (let f = rw (n, hear_all) at e in cc)
  | inr (w, n) ↦ rw (n, hear_all) (hear_all-append m t w v as_ bs (rw (n, hear_all) at e))
]

held-destroy :
    (m t : ℕ) (es : List Info)
    → laws.IsValid es
    → hear_all m t (is_held laws m t es) (dropped (destroy_all_subscriptions es) ∷ []) ≡ some false
unfolding hear_all ops
held-destroy m t es v =
    let e = hear-destroy m t es (IsValid-IsAscending es v) in rw (e, hear_all) refl

-- In the whole life of a storage over a map, new at the start, then with any requests but
-- drop_content, and destroyed at the end, every mbox hears of each message type subscriptions and
-- unsubscriptions in turn, and is left without the agent.
pub life-destroy :
    (m t : ℕ) (rs : List Request)
    → Keeps rs
    → hear_all m t false
        (answers ops [] rs ++ dropped (destroy_all_subscriptions (after ops [] rs)) ∷ [])
      ≡ some false
life-destroy m t rs k =
    hear_all-append m t false (is_held laws m t (after ops [] rs)) (answers ops [] rs) _ heard
    ∙ held-destroy m t (after ops [] rs) (after-IsValid laws m t [] rs k make-IsValid.0)
  where
    heard : hear_all m t false (answers ops [] rs) ≡ some (is_held laws m t (after ops [] rs))
    heard = let e = hear_all-answers laws m t [] rs k make-IsValid.0 in rw make-IsValid.1 at e
