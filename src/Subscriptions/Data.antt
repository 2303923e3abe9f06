-- ===== src/Subscriptions/Data.antt =====
-- so_5/rt/impl/h/subscription_storage_iface.hpp: what is known of a subscription, and what a storage
-- asks of mboxes. Mboxes, message types, states, limits and handlers (an event_handler_data_t, the
-- method with its thread safety) are numbers.
use android_vendor_sobjectiz.Common.{ℕ, ◌==◌, Bool, ◌&&◌, Option, List}

pub record Info : Type 0 where
  pub mbox : ℕ
  pub msg_type : ℕ
  pub state : ℕ
  pub handler : ℕ

-- Each call names the mbox and the message type, the first one also the limit.
pub data MboxCall : Type 0 where
  subscribe_event_handler : ℕ → ℕ → ℕ → MboxCall
  unsubscribe_event_handlers : ℕ → ℕ → MboxCall

pub data Thrown : Type 0 where
  evt_handler_already_provided mbox_exception : Thrown

pub record Reply : Type 0 where
  pub calls : List MboxCall
  pub thrown : Option Thrown

abbrev pub same_key : ℕ → ℕ → ℕ → Info → Bool
same_key m t s i = (i.mbox == m) && ((i.msg_type == t) && (i.state == s))

abbrev pub is_same_mbox_msg : ℕ → ℕ → Info → Bool
is_same_mbox_msg m t i = (m == i.mbox) && (t == i.msg_type)
