-- ===== src/Subscriptions/Content.antt =====
-- Contents of a subscription storage up to order, and what each operation of a storage promises of
-- them.
use android_vendor_sobjectiz.Common.{
  ℕ, suc, ◌+◌, ◌≡◌, ◌≤◌, ◌==◌, if◌then◌else◌, Bool, true, not, ◌&&◌, Option, none, some, List, [],
  ◌∷◌, ◌++◌, length, arith, refl, sym, ap, ◌∙◌,
}
use android_vendor_sobjectiz.Subscriptions.Data.{
  Info, MboxCall, subscribe_event_handler, unsubscribe_event_handlers, evt_handler_already_provided,
  mbox_exception, Reply, same_key, is_same_mbox_msg,
}

abbrev pub count : (Info → Bool) → List Info → ℕ
count P [] = 0
count P (i ∷ is_) = if P i then suc (count P is_) else count P is_

abbrev pub without : (Info → Bool) → List Info → List Info
without P [] = []
without P (i ∷ is_) = if P i then without P is_ else i ∷ without P is_

abbrev pub has : (Info → Bool) → List Info → Bool
has P is_ = not (count P is_ == 0)

abbrev pub lookup : ℕ → ℕ → ℕ → List Info → Option ℕ
lookup m t s [] = none
lookup m t s (i ∷ is_) = if same_key m t s i then some i.handler else lookup m t s is_

-- The same subscriptions, each as often.
abbrev pub Same : List Info → List Info → Type 0
Same xs ys = (P : Info → Bool) → count P xs ≡ count P ys

abbrev pub IsUnique : List Info → Type 0
IsUnique xs = (m t s : ℕ) → count (same_key m t s) xs ≤ 1

-- What subscribing makes of the contents, with `b` for an mbox that throws.
abbrev pub create_content : Info → Bool → List Info → List Info
create_content i b xs =
    if has (same_key i.mbox i.msg_type i.state) xs
    then xs
    else if has (is_same_mbox_msg i.mbox i.msg_type) xs
    then i ∷ xs
    else if b
    then xs
    else i ∷ xs

abbrev pub create_reply : Info → ℕ → Bool → List Info → Reply
create_reply i l b xs =
    if has (same_key i.mbox i.msg_type i.state) xs
    then record { calls = []; thrown = some evt_handler_already_provided }
    else if has (is_same_mbox_msg i.mbox i.msg_type) xs
    then record { calls = []; thrown = none }
    else record {
      calls = subscribe_event_handler i.mbox i.msg_type l ∷ [];
      thrown = if b then some mbox_exception else none;
    }

abbrev pub drop_calls : ℕ → ℕ → ℕ → List Info → List MboxCall
drop_calls m t s xs =
    if has (same_key m t s) xs && (count (is_same_mbox_msg m t) xs == 1)
    then unsubscribe_event_handlers m t ∷ []
    else []

abbrev pub drop_all_calls : ℕ → ℕ → List Info → List MboxCall
drop_all_calls m t xs =
    if has (is_same_mbox_msg m t) xs then unsubscribe_event_handlers m t ∷ [] else []

pub count-append :
    (P : Info → Bool) (xs ys : List Info) → count P (xs ++ ys) ≡ count P xs + count P ys
count-append P [] ys = omega arith
count-append P (x ∷ xs) ys = ground (arith, count-append P xs ys)

pub count-length : (xs : List Info) → count (λ i. true) xs ≡ length xs
count-length [] = refl
count-length (x ∷ xs) = ap suc (count-length xs)

-- A predicate that implies another one counts less.
pub count-le :
    (P Q : Info → Bool) (xs : List Info)
    → ((i : Info) → P i ≡ true → Q i ≡ true)
    → count P xs ≤ count Q xs
count-le P Q [] h = omega arith
count-le P Q (x ∷ xs) h = ground (arith, count-le P Q xs h, h x)

pub count-without :
    (P Q : Info → Bool) (xs : List Info) → count P (without Q xs) ≡ count (λ i. P i && not (Q i)) xs
count-without P Q [] = refl
count-without P Q (x ∷ xs) = ground (arith, count-without P Q xs)

pub Same-length : (xs ys : List Info) → Same xs ys → length xs ≡ length ys
Same-length xs ys h = sym (count-length xs) ∙ (h (λ i. true) ∙ count-length ys)

pub Same-without :
    (Q : Info → Bool) (xs ys : List Info) → Same xs ys → Same (without Q xs) (without Q ys)
Same-without Q xs ys h P =
    count-without P Q xs ∙ (h (λ i. P i && not (Q i)) ∙ sym (count-without P Q ys))

pub Same-create_content :
    (i : Info) (b : Bool) (xs ys : List Info)
    → Same xs ys
    → Same (create_content i b xs) (create_content i b ys)
Same-create_content i b xs ys h P =
    ground
      (arith, h P, h (same_key i.mbox i.msg_type i.state), h (is_same_mbox_msg i.mbox i.msg_type))

pub Same-create_reply :
    (i : Info) (l : ℕ) (b : Bool) (xs ys : List Info)
    → Same xs ys
    → create_reply i l b xs ≡ create_reply i l b ys
Same-create_reply i l b xs ys h =
    rw (h (same_key i.mbox i.msg_type i.state), h (is_same_mbox_msg i.mbox i.msg_type)) refl

pub Same-drop_calls :
    (m t s : ℕ) (xs ys : List Info) → Same xs ys → drop_calls m t s xs ≡ drop_calls m t s ys
Same-drop_calls m t s xs ys h = rw (h (same_key m t s), h (is_same_mbox_msg m t)) refl

pub Same-drop_all_calls :
    (m t : ℕ) (xs ys : List Info) → Same xs ys → drop_all_calls m t xs ≡ drop_all_calls m t ys
Same-drop_all_calls m t xs ys h = rw (h (is_same_mbox_msg m t)) refl

pub without-none : (Q : Info → Bool) (es : List Info) → count Q es ≡ 0 → without Q es ≡ es
without-none Q [] e = refl
without-none Q (i ∷ es) e = ground (arith, without-none Q es)
