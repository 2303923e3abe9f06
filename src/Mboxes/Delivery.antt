-- ===== src/Mboxes/Delivery.antt =====
-- The delivery of messages and service requests through mboxes with the control of message limits:
-- so_5/rt/impl/h/local_mbox.hpp, so_5/rt/impl/h/mpsc_mbox.hpp, try_to_deliver_to_agent of
-- so_5/rt/impl/h/message_limit_internals.hpp and the reactions of so_5/rt/message_limit.cpp. A reaction
-- may deliver to a further mbox, so that delivery runs on fuel. What comes of it is the counters of the
-- control blocks, the effects in their order, and how the call ends.
use android_vendor_sobjectiz.Common.{
  ℕ, zero, suc, ◌+◌, ◌-◌, ltb, leb, ◌==◌, if◌then◌else◌, Bool, Option, none, some, List, [], ◌∷◌,
  ◌++◌, RetCode, length, no_svc_handlers, more_than_one_svc_handler,
  svc_request_cannot_be_transfomred_on_overlimit,
}
use android_vendor_sobjectiz.Mchain.Demand.{InvocationType, event, service_request}
use android_vendor_sobjectiz.Mboxes.Subscriber.{
  SubscriberInfo, DeliveryPossibility, must_be_delivered, delivery_possibility,
}
use android_vendor_sobjectiz.Mboxes.Container.{elements}
use android_vendor_sobjectiz.Mboxes.Local.{MessagesTable}
use android_vendor_sobjectiz.Mboxes.Limits.{
  Reaction, drop_message, abort_app, redirect, transform, ControlBlock, InfoStorage, find,
}
pub mod Accounts
pub mod Attempts
pub mod Rounds
pub mod Faults
pub mod Counters
pub mod Reaching

-- The two mboxes with one consumer count its subscriptions; the second has its limits.
pub data Mbox : Type 0 where
  local : MessagesTable → Mbox
  limitless_mpsc : ℕ → ℕ → Mbox
  limitful_mpsc : ℕ → ℕ → InfoStorage → Mbox

-- The event queue of an agent: none is set before the agent is bound to its dispatcher and after its
-- last demand, and a queue may throw on a push.
pub data EventQueue : Type 0 where
  not_set ready throwing : EventQueue

pub data Effect : Type 0 where
  pushed : InvocationType → ℕ → Option ℕ → ℕ → ℕ → ℕ → Effect
  lost : ℕ → Option ℕ → Effect
  rejected : ℕ → DeliveryPossibility → Effect
  no_subscribers : ℕ → Effect
  dropped aborting too_deep : ℕ → Effect
  redirecting transforming : ℕ → ℕ → Effect
  replied : RetCode → Effect
  replied_exception : Effect

pub data Ending : Type 0 where
  returned : Ending
  thrown : RetCode → Ending
  push_exception aborted null_dereference out_of_fuel : Ending

abbrev pub Counts : Type 0
Counts = ℕ → ℕ

pub record Done : Type 0 where
  pub counts : Counts
  pub effects : List Effect
  pub ending : Ending

abbrev pub ends : Ending → List Effect → Counts → Done
ends e es c = record { counts = c; effects = es; ending = e }

abbrev pub after : List Effect → Done → Done
after es d = record d { effects = es ++ d.effects }

-- `m_count` is an atomic_uint of 32 bits.
abbrev pub uint_values : ℕ
uint_values = 4294967296

abbrev pub inc : ℕ → ℕ
inc n = if n + 1 == uint_values then 0 else n + 1

abbrev pub dec : ℕ → ℕ
dec n = if n == 0 then uint_values - 1 else n - 1

abbrev pub set_count : ℕ → ℕ → Counts → Counts
set_count k n c j = if k == j then n else c j

abbrev pub max_overlimit_reaction_deep : ℕ
max_overlimit_reaction_deep = 32

-- A call of a mbox's delivery: what, the mbox, the type, the message and the depth of reactions.
abbrev pub Deliver : Type 0
Deliver = InvocationType → ℕ → ℕ → ℕ → ℕ → Counts → Done

-- The destructor of decrement_on_exception_t, which reads the limit also where it is null.
unfoldable pub roll_back : Option ℕ → Done → Done
roll_back none d = record d { ending = null_dereference }
roll_back (some k) d = record d { counts = set_count k (dec (d.counts k)) d.counts }

unfoldable pub guarded : Option ℕ → Done → Done
guarded l d = elim d.ending [ returned ↦ d | _ ↦ roll_back l d ]

-- dispatch_wrapper: an exception becomes the reply to a service request.
unfoldable pub dispatch_wrapper : Done → Done
dispatch_wrapper d = elim d.ending [
  | thrown r ↦ record d { effects = d.effects ++ replied r ∷ []; ending = returned }
  | push_exception ↦ record d { effects = d.effects ++ replied_exception ∷ []; ending = returned }
  | _ ↦ d
]

unfoldable pub wrapped : InvocationType → Done → Done
wrapped event d = d
wrapped service_request d = dispatch_wrapper d

-- A loop goes on after what returns.
unfoldable pub and_then : Done → (Counts → Done) → Done
and_then d next = elim d.ending [ returned ↦ after d.effects (next d.counts) | _ ↦ d ]

-- `queue a` is the queue of the agent `a`.
unfoldable pub push_event :
    (ℕ → EventQueue) → InvocationType → ℕ → Option ℕ → ℕ → ℕ → ℕ → Counts → Done
push_event queue inv a l box ty msg c = elim (queue a) [
  | not_set ↦ ends returned (lost a l ∷ []) c
  | ready ↦ ends returned (pushed inv a l box ty msg ∷ []) c
  | throwing ↦ ends push_exception [] c
]

-- `block k` is a control block, `check f a m` the answer of a filter for an agent and a message.
module _ (queue : ℕ → EventQueue) (block : ℕ → ControlBlock) (check : ℕ → ℕ → ℕ → Bool) where
  module _ (self : Deliver) where
    unfoldable pub redirect_reaction : InvocationType → ℕ → ℕ → ℕ → ℕ → ℕ → Counts → Done
    redirect_reaction inv a to ty msg deep c =
        if leb max_overlimit_reaction_deep deep
        then ends returned (too_deep a ∷ []) c
        else after (redirecting a to ∷ []) (self inv to ty msg (deep + 1) c)

    unfoldable pub transform_reaction : ℕ → ℕ → ℕ → ℕ → ℕ → Counts → Done
    transform_reaction a to ty msg deep c =
        if leb max_overlimit_reaction_deep deep
        then ends returned (too_deep a ∷ []) c
        else after (transforming a to ∷ []) (self event to ty msg (deep + 1) c)

    unfoldable pub overlimit : Reaction → InvocationType → ℕ → ℕ → ℕ → ℕ → Counts → Done
    overlimit drop_message inv a ty msg deep c = ends returned (dropped a ∷ []) c
    overlimit abort_app inv a ty msg deep c = ends aborted (aborting a ∷ []) c
    overlimit (redirect to) inv a ty msg deep c = redirect_reaction inv a to ty msg deep c
    overlimit (transform ty' make) event a ty msg deep c =
        transform_reaction a (make msg).0 ty' (make msg).1 deep c
    overlimit (transform ty' make) service_request a ty msg deep c =
        ends (thrown svc_request_cannot_be_transfomred_on_overlimit) [] c

    unfoldable pub try_to_deliver_to_agent :
        InvocationType → ℕ → Option ℕ → ℕ → ℕ → ℕ → ℕ → Counts → Done
    try_to_deliver_to_agent inv a none box ty msg deep c =
        guarded none (push_event queue inv a none box ty msg c)
    try_to_deliver_to_agent inv a (some k) box ty msg deep c =
        let up = inc (c k) in
        if ltb (block k).limit up
        then overlimit (block k).action inv a ty msg deep (set_count k (dec up) (set_count k up c))
        else guarded (some k) (push_event queue inv a (some k) box ty msg (set_count k up c))

    -- What a local mbox does for one subscriber, with what it has to say to a rejection.
    unfoldable pub deliver_to_subscriber :
        InvocationType → Ending → ℕ → ℕ → ℕ → ℕ → SubscriberInfo → Counts → Done
    deliver_to_subscriber inv refusal box ty msg deep i c =
        elim (delivery_possibility (λ f. check f i.agent msg) i) [
          | none ↦ ends null_dereference [] c
          | some must_be_delivered ↦ try_to_deliver_to_agent inv i.agent i.limit box ty msg deep c
          | some p ↦ ends refusal (rejected i.agent p ∷ []) c
        ]

    unfoldable pub deliver_to_all : ℕ → ℕ → ℕ → ℕ → List SubscriberInfo → Counts → Done
    deliver_to_all box ty msg deep [] c = ends returned [] c
    deliver_to_all box ty msg deep (i ∷ es) c =
        and_then (deliver_to_subscriber event returned box ty msg deep i c)
          (deliver_to_all box ty msg deep es)

    unfoldable pub service_of : ℕ → ℕ → ℕ → ℕ → List SubscriberInfo → Counts → Done
    service_of box ty msg deep (i ∷ []) c =
        deliver_to_subscriber service_request (thrown no_svc_handlers) box ty msg deep i c
    service_of box ty msg deep _ c = ends (thrown more_than_one_svc_handler) [] c

    unfoldable pub local_delivery : InvocationType → MessagesTable → ℕ → ℕ → ℕ → ℕ → Counts → Done
    local_delivery event b box ty msg deep c = elim (b ty) [
      | none ↦ ends returned (no_subscribers box ∷ []) c
      | some es ↦ deliver_to_all box ty msg deep (elements es) c
    ]
    local_delivery service_request b box ty msg deep c = dispatch_wrapper (elim (b ty) [
      | none ↦ ends (thrown no_svc_handlers) (no_subscribers box ∷ []) c
      | some es ↦ service_of box ty msg deep (elements es) c
    ])

    unfoldable pub deliver_by : Mbox → InvocationType → ℕ → ℕ → ℕ → ℕ → Counts → Done
    deliver_by (local b) inv box ty msg deep c = local_delivery inv b box ty msg deep c
    deliver_by (limitless_mpsc a n) inv box ty msg deep c =
        if n == 0
        then ends returned (no_subscribers box ∷ []) c
        else wrapped inv (push_event queue inv a none box ty msg c)
    deliver_by (limitful_mpsc a n limits) inv box ty msg deep c =
        if n == 0
        then ends returned (no_subscribers box ∷ []) c
        else wrapped inv (try_to_deliver_to_agent inv a (find ty limits) box ty msg deep c)

  unfoldable pub deliver : (ℕ → Mbox) → ℕ → Deliver
  deliver boxes zero inv box ty msg deep c = ends out_of_fuel [] c
  deliver boxes (suc n) inv box ty msg deep c =
      deliver_by (deliver boxes n) (boxes box) inv box ty msg deep c
