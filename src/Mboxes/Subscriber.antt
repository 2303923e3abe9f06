-- ===== src/Mboxes/Subscriber.antt =====
-- so_5/rt/impl/h/local_mbox.hpp, subscriber_info_t: what a local mbox holds for an agent and a type
-- of message. Agents, control blocks of message limits and delivery filters are numbers that stand
-- for their addresses, and `none` is the null pointer.
use android_vendor_sobjectiz.Common.{ℕ, Bool, if◌then◌else◌, Option, none, some}

pub data SubscriberState : Type 0 where
  nothing only_subscriptions only_filter subscriptions_and_filter : SubscriberState

pub record SubscriberInfo : Type 0 where
  pub agent : ℕ
  pub limit : Option ℕ
  pub filter : Option ℕ
  pub state : SubscriberState

-- The two constructors that are used for an insertion.
unfoldable pub subscription_info : ℕ → Option ℕ → SubscriberInfo
subscription_info a l = record { agent = a; limit = l; filter = none; state = only_subscriptions }

unfoldable pub filter_info : ℕ → ℕ → SubscriberInfo
filter_info a f = record { agent = a; limit = none; filter = some f; state = only_filter }

unfoldable pub is_empty : SubscriberState → Bool
is_empty nothing = Bool.true
is_empty _ = Bool.false

unfoldable pub subscribed_state : SubscriberState → SubscriberState
subscribed_state nothing = only_subscriptions
subscribed_state _ = subscriptions_and_filter

unfoldable pub unsubscribed_state : SubscriberState → SubscriberState
unsubscribed_state only_subscriptions = nothing
unsubscribed_state _ = only_filter

unfoldable pub filtered_state : SubscriberState → SubscriberState
filtered_state nothing = only_filter
filtered_state _ = subscriptions_and_filter

unfoldable pub unfiltered_state : SubscriberState → SubscriberState
unfiltered_state only_filter = nothing
unfiltered_state _ = only_subscriptions

unfoldable pub set_limit : Option ℕ → SubscriberInfo → SubscriberInfo
unfolding subscribed_state
set_limit l i = record i { limit = l; state = subscribed_state i.state }

unfoldable pub drop_limit : SubscriberInfo → SubscriberInfo
unfolding unsubscribed_state
drop_limit i = record i { limit = none; state = unsubscribed_state i.state }

unfoldable pub set_filter : ℕ → SubscriberInfo → SubscriberInfo
unfolding filtered_state
set_filter f i = record i { filter = some f; state = filtered_state i.state }

unfoldable pub drop_filter : SubscriberInfo → SubscriberInfo
unfolding unfiltered_state
drop_filter i = record i { filter = none; state = unfiltered_state i.state }

pub data DeliveryPossibility : Type 0 where
  must_be_delivered no_subscription disabled_by_delivery_filter : DeliveryPossibility

-- The call of a filter through a null pointer has no result, `none`.
unfoldable pub filter_check : (ℕ → Bool) → Option ℕ → Option DeliveryPossibility
filter_check check none = none
filter_check check (some f) =
    some (if check f then must_be_delivered else disabled_by_delivery_filter)

unfoldable pub possibility : (ℕ → Bool) → Option ℕ → SubscriberState → Option DeliveryPossibility
unfolding filter_check
possibility check f only_filter = some no_subscription
possibility check f subscriptions_and_filter = filter_check check f
possibility check f _ = some must_be_delivered

-- `check f` is what the filter `f` says for the agent and the message.
unfoldable pub delivery_possibility : (ℕ → Bool) → SubscriberInfo → Option DeliveryPossibility
unfolding possibility
delivery_possibility check i = possibility check i.filter i.state
