-- ===== src/Subscriptions/VectorBased/Laws.antt =====
-- The storage over a vector keeps the promises of a subscription storage.
use mathlib.Core.Path.{subst}
use android_vendor_sobjectiz.Common.{
  ℕ, ◌+◌, ◌≡◌, ◌≤◌, ◌==◌, Bool, not, ◌&&◌, List, [], ◌∷◌, ◌++◌, length, arith, refl, sym, ap,
  Bool-cases, inl, inr,
}
use android_vendor_sobjectiz.Subscriptions.Data.{Info, MboxCall, same_key, is_same_mbox_msg}
use android_vendor_sobjectiz.Subscriptions.Content.{
  count, without, has, lookup, Same, IsUnique, create_content, create_reply, drop_calls,
  drop_all_calls, count-append, without-none, count-without,
}
use android_vendor_sobjectiz.Subscriptions.Lookup.{
  Same-IsUnique, without-IsUnique, create_content-IsUnique,
}
use android_vendor_sobjectiz.Subscriptions.Storage.{StorageLaws}
use android_vendor_sobjectiz.Subscriptions.VectorBased.{
  find_if, is_end, find, erase, remove_if, pop_back, create_event_subscription, drop_subscription,
  drop_subscription_for_all_states, find_handler, ops,
}

find_if-has : (P : Info → Bool) (es : List Info) → is_end (find_if P es) ≡ not (has P es)
unfolding find_if
find_if-has P [] = refl
find_if-has P (i ∷ es) = ground (arith, find_if-has P es)

pop_back-append : (es : List Info) (i : Info) → pop_back (es ++ i ∷ []) ≡ es
unfolding pop_back
pop_back-append [] i = refl
pop_back-append (x ∷ []) i = refl
pop_back-append (x ∷ y ∷ es) i = ap (λ l. x ∷ l) (pop_back-append (y ∷ es) i)

module _ (m t s : ℕ) where
  erase-without :
      (es : List Info)
      → count (same_key m t s) es ≤ 1
      → erase m t s es ≡ without (same_key m t s) es
  unfolding erase
  erase-without [] u = refl
  erase-without (i ∷ es) u = ground (arith, erase-without es, without-none (same_key m t s) es)

  pair-split :
      (es : List Info)
      → count (is_same_mbox_msg m t) es
        ≡ count (λ i. is_same_mbox_msg m t i && not (same_key m t s i)) es
          + count (same_key m t s) es
  pair-split [] = refl
  pair-split (i ∷ es) = ground (arith, pair-split es)

  find_handler-lookup : (es : List Info) → find_handler m t s es ≡ lookup m t s es
  unfolding find_handler find find_if
  find_handler-lookup [] = refl
  find_handler-lookup (i ∷ es) = ground (arith, find_handler-lookup es)

  drop_subscription_lem :
      (es : List Info)
      → IsUnique es
      → drop_subscription m t s es ≡ (without (same_key m t s) es, drop_calls m t s es)
  unfolding drop_subscription find
  drop_subscription_lem es u = elim (Bool-cases (has (same_key m t s) es)) [
    | inl here ↦
        rw
          (
            find_if-has (same_key m t s) es,
            here,
            erase-without es (u m t s),
            find_if-has (is_same_mbox_msg m t) (without (same_key m t s) es),
          )
          (ground (
            arith,
            u m t s,
            pair-split es,
            count-without (is_same_mbox_msg m t) (same_key m t s) es,
          ))
    | inr gone ↦
        rw (find_if-has (same_key m t s) es, gone, without-none (same_key m t s) es (ground arith))
          refl
  ]

module _ (m t : ℕ) where
  remove_if-without :
      (es : List Info)
      → remove_if (λ i. (i.mbox == m) && (i.msg_type == t)) es ≡ without (is_same_mbox_msg m t) es
  unfolding remove_if
  remove_if-without [] = refl
  remove_if-without (i ∷ es) = ground (arith, remove_if-without es)

  length-without :
      (Q : Info → Bool) (es : List Info) → length es ≡ length (without Q es) + count Q es
  length-without Q [] = refl
  length-without Q (i ∷ es) = ground (arith, length-without Q es)

  drop_all_lem :
      (es : List Info)
      → drop_subscription_for_all_states m t es
        ≡ (without (is_same_mbox_msg m t) es, drop_all_calls m t es)
  unfolding drop_subscription_for_all_states
  drop_all_lem es =
      rw (remove_if-without es) (ground (arith, length-without (is_same_mbox_msg m t) es))

create-reply :
    (i : Info) (l : ℕ) (b : Bool) (es : List Info)
    → (create_event_subscription i l b es).1 ≡ create_reply i l b es
unfolding create_event_subscription find
create-reply i l b es = ground (
  arith,
  find_if-has (same_key i.mbox i.msg_type i.state) es,
  find_if-has (is_same_mbox_msg i.mbox i.msg_type) es,
)

create-content :
    (i : Info) (l : ℕ) (b : Bool) (es : List Info)
    → Same (create_event_subscription i l b es).0 (create_content i b es)
unfolding create_event_subscription find
create-content i l b es P = ground (
  arith,
  find_if-has (same_key i.mbox i.msg_type i.state) es,
  find_if-has (is_same_mbox_msg i.mbox i.msg_type) es,
  pop_back-append es i,
  count-append P es (i ∷ []),
)

removed :
    (Q : Info → Bool) (es : List Info) {r : List Info × List MboxCall} {calls : List MboxCall}
    → IsUnique es
    → r ≡ (without Q es, calls)
    → IsUnique r.0 × (r.1 ≡ calls) × Same r.0 (without Q es)
removed Q es {r} {calls} u e =
    subst (λ k. IsUnique k.0 × (k.1 ≡ calls) × Same k.0 (without Q es)) (sym e)
      (without-IsUnique Q es u, refl, λ P. refl)

pub laws : StorageLaws ops
unfolding ops
laws = record {
  IsValid = IsUnique;
  unique = λ es u. u;
  count_lem = λ es u. refl;
  find_lem = λ m t s es u. find_handler-lookup m t s es;
  create_lem = λ i l b es u. (
    Same-IsUnique (create_event_subscription i l b es).0 (create_content i b es)
        (create-content i l b es) (create_content-IsUnique i b es u),
    create-reply i l b es,
    create-content i l b es,
  );
  drop_lem = λ m t s es u. removed (same_key m t s) es u (drop_subscription_lem m t s es u);
  drop_all_lem = λ m t es u. removed (is_same_mbox_msg m t) es u (drop_all_lem m t es);
  drop_content_lem = λ es u. (λ m t s. omega arith, refl);
  setup_lem = λ xs es v u e. (u, λ P. refl);
}

-- A new storage is valid and empty.
pub make-IsValid : laws.IsValid [] × (ops.query_content [] ≡ [])
unfolding laws ops
make-IsValid = (λ m t s. omega arith, refl)
