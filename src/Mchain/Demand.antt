-- ===== src/Mchain/Demand.antt =====
-- so_5/rt/h/mchain.hpp: the demands of a chain, its capacity and the enumerations of its interface.
use android_vendor_sobjectiz.Common.{ℕ, Option, none, Bool}

pub data InvocationType : Type 0 where
  event service_request : InvocationType

-- A `std::type_index` is a number, that of `void` being 0; a message reference is an optional
-- number. The default constructor leaves the demand's type alone: `event` stands for any value.
pub record Demand : Type 0 where
  pub msg_type : ℕ
  pub message_ref : Option ℕ
  pub demand_type : InvocationType

abbrev pub default_demand : Demand
default_demand = record { msg_type = 0; message_ref = none; demand_type = event }

pub data OverflowReaction : Type 0 where
  abort_app throw_exception drop_newest remove_oldest : OverflowReaction

pub data ExtractionStatus : Type 0 where
  no_messages msg_extracted chain_closed : ExtractionStatus

pub data CloseMode : Type 0 where
  drop_content retain_content : CloseMode

-- The parameters of a chain that its operations read: whether there is a wait on a full queue, the
-- reaction to a queue that is still full, and whether a not-empty notificator is set.
pub record Params : Type 0 where
  pub overflow_timeout_defined : Bool
  pub overflow_reaction : OverflowReaction
  pub not_empty_notificator : Bool
