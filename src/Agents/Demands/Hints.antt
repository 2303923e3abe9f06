-- ===== src/Agents/Demands/Hints.antt =====
-- An execution hint does what the handler of its demand does.
use android_vendor_sobjectiz.Common.{
  ℕ, if◌then◌else◌, Bool, Option, none, some, ◌≡◌, refl, sym, append-nil,
}
use android_vendor_sobjectiz.Agents.Switch.{Agent}
use android_vendor_sobjectiz.Agents.Demands.{
  DemandHandler, demand_handler_on_start, demand_handler_on_finish, demand_handler_on_message,
  service_request_handler_on_message, Demand, exec, call_handler, so_create_execution_hint,
  handler_of, run, handle, create_hint, decrement,
}
use android_vendor_sobjectiz.Subscriptions.Storage.{StorageOps}

-- The demands of start and finish have no limit.
abbrev pub IsMade : DemandHandler → Option ℕ → Type 0
IsMade demand_handler_on_start l = l ≡ none
IsMade demand_handler_on_finish l = l ≡ none
IsMade demand_handler_on_message l = Unit
IsMade service_request_handler_on_message l = Unit

module _ {S : Type 0} (ops : StorageOps S) (store : S) (a : Agent) (thread_safe : ℕ → Bool) where
  by_handler :
      (thread : ℕ) (d : Demand) (k : DemandHandler) (h : Option ℕ)
      → k ≡ d.demand_handler
      → h ≡ handler_of ops store a d
      → IsMade k d.limit
      → exec ops store a thread d (create_hint thread_safe k h)
        ≡ handle (if (create_hint thread_safe k h).is_thread_safe then 0 else thread) a d.limit k h
  unfolding exec run call_handler create_hint handle
  by_handler thread d demand_handler_on_start h e f made = rw (made, sym e) refl
  by_handler thread d demand_handler_on_finish h e f made = rw (made, sym e) refl
  by_handler thread d demand_handler_on_message none e f made = append-nil (decrement d.limit)
  by_handler thread d demand_handler_on_message (some h) e f made = refl
  by_handler thread d service_request_handler_on_message none e f made = refl
  by_handler thread d service_request_handler_on_message (some h) e f made = refl

  -- To execute the hint made for a demand does what the handler of the demand does, in the same
  -- order, for all four kinds of demands, if the demand of a start or of a finish has no message
  -- limit: on the thread given if the hint is not thread safe, else on the null thread.
  pub exec-so_create_execution_hint :
      (thread : ℕ) (d : Demand)
      → IsMade d.demand_handler d.limit
      → exec ops store a thread d (so_create_execution_hint ops store a thread_safe d)
        ≡ call_handler ops store a
            (if (so_create_execution_hint ops store a thread_safe d).is_thread_safe
              then 0
              else thread)
            d
  unfolding so_create_execution_hint call_handler
  exec-so_create_execution_hint thread d made =
      by_handler thread d d.demand_handler (handler_of ops store a d) refl refl made
