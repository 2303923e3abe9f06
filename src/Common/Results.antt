-- ===== src/Common/Results.antt =====
-- so_5/h/ret_code.hpp, so_5/h/exception.hpp: an exception is its return code, and a call that may
-- throw returns a `Result`.

-- The codes that the modelled operations throw.
pub data RetCode : Type 0 where
  msg_chain_is_empty msg_chain_is_full msg_chain_overflow priority_quote_illegal_value : RetCode
  state_nesting_is_too_deep initial_substate_already_defined no_initial_substate : RetCode
  agent_unknown_state operation_enabled_only_on_agent_working_thread : RetCode
  coop_with_specified_name_is_already_registered coop_has_not_found_among_registered_coop : RetCode
  parent_coop_not_found agent_to_disp_binding_failed unable_to_register_coop_during_shutdown :
      RetCode
  no_svc_handlers more_than_one_svc_handler svc_request_cannot_be_transfomred_on_overlimit : RetCode
  several_limits_for_one_message_type zero_ptr_to_coop coop_define_agent_failed : RetCode
  illegal_subscriber_for_mpsc_mbox : RetCode
  delivery_filter_cannot_be_used_on_mpsc_mbox : RetCode

pub data Result {ℓ} (A : Type ℓ) : Type ℓ where
  ok : A → Result A
  err : RetCode → Result A
