-- ===== src/Mboxes/Single.antt =====
-- so_5/rt/impl/h/mpsc_mbox.hpp, limitless_mpsc_mbox_template: the subscriptions of a mbox with one
-- consumer are only counted, and it takes no delivery filters. Both mboxes with one consumer have these
-- operations.
use android_vendor_sobjectiz.Common.{
  ℕ, ◌+◌, ◌-◌, ◌==◌, if◌then◌else◌, Option, none, some, List, [], ◌∷◌, RetCode,
  illegal_subscriber_for_mpsc_mbox, delivery_filter_cannot_be_used_on_mpsc_mbox,
}
pub mod Subscribed

pub record Single : Type 0 where
  pub single_consumer : ℕ
  pub subscriptions_count : ℕ

unfoldable pub subscribe_event_handler : ℕ → Single → Single × Option RetCode
subscribe_event_handler a m =
    if a == m.single_consumer
    then (record m { subscriptions_count = m.subscriptions_count + 1 }, none)
    else (m, some illegal_subscriber_for_mpsc_mbox)

unfoldable pub unsubscribe_event_handlers : ℕ → Single → Single × Option RetCode
unsubscribe_event_handlers a m =
    if a == m.single_consumer
    then (
      (if m.subscriptions_count == 0
          then m
          else record m { subscriptions_count = m.subscriptions_count - 1 }),
      none,
    )
    else (m, some illegal_subscriber_for_mpsc_mbox)

unfoldable pub set_delivery_filter : ℕ → Single → Single × Option RetCode
set_delivery_filter a m = (m, some delivery_filter_cannot_be_used_on_mpsc_mbox)

unfoldable pub drop_delivery_filter : ℕ → Single → Single × Option RetCode
drop_delivery_filter a m = (m, none)
