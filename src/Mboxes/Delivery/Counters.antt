-- ===== src/Mboxes/Delivery/Counters.antt =====
-- One counter of a message limit under many threads. try_to_deliver_to_agent counts a message before it
-- tests the limit, and takes one that is too many back after the test, with an atomic operation each,
-- so that the counter may be above the limit for a while. agent_t::push_event drops an event when
-- m_event_queue is null, and leaves it counted. A list of actions is an interleaving of these
-- operations, of the pushes between them, and of the handling of demands by the agent.
use android_vendor_sobjectiz.Common.{
  ℕ, ◌+◌, ◌-◌, ◌≤◌, ◌<◌, ◌≡◌, ◌↔◌, arith, ltb, ◌==◌, if◌then◌else◌, List, [], ◌∷◌,
}
use android_vendor_sobjectiz.Mboxes.Delivery.{inc, dec, uint_values}

-- `over` threads have counted a message too many and are to take it back, `pushing` threads are
-- between the test and the end of the push, `queued` demands wait for the agent, and `lost` messages
-- were counted and dropped, as the agent had no event queue.
pub record Traffic : Type 0 where
  pub count : ℕ
  pub over : ℕ
  pub pushing : ℕ
  pub queued : ℕ
  pub lost : ℕ

abbrev pub no_traffic : Traffic
no_traffic = record { count = 0; over = 0; pushing = 0; queued = 0; lost = 0 }

pub data Action : Type 0 where
  arrive back_off commit lose fail handle : Action

-- An action of a thread that is not there changes nothing. At most `threads` threads deliver.
module _ (threads limit : ℕ) where
  -- `limit->m_limit < ++(limit->m_count)`
  unfoldable pub count_up : Traffic → Traffic
  count_up t =
      let up = inc t.count in
      if ltb limit up
      then record t { count = up; over = t.over + 1 }
      else record t { count = up; pushing = t.pushing + 1 }

  unfoldable pub act : Action → Traffic → Traffic
  unfolding count_up
  act arrive t = if ltb (t.over + t.pushing) threads then count_up t else t
  act back_off t = if t.over == 0 then t else record t { count = dec t.count; over = t.over - 1 }
  act commit t =
      if t.pushing == 0 then t else record t { pushing = t.pushing - 1; queued = t.queued + 1 }
  act lose t = if t.pushing == 0 then t else record t { pushing = t.pushing - 1; lost = t.lost + 1 }
  act fail t =
      if t.pushing == 0 then t else record t { count = dec t.count; pushing = t.pushing - 1 }
  act handle t =
      if t.queued == 0 then t else record t { count = dec t.count; queued = t.queued - 1 }

  unfoldable pub run : List Action → Traffic → Traffic
  unfolding act count_up
  run [] t = t
  run (a ∷ as_) t = run as_ (act a t)

  pub record IsWithin (t : Traffic) : Type 0 where
    pub counted : t.count ≡ t.over + t.pushing + t.queued + t.lost
    pub crew : t.over + t.pushing ≤ threads
    pub within : t.pushing + t.queued + t.lost ≤ limit

  act-counted :
      (a : Action) (t : Traffic)
      → threads + limit < uint_values
      → IsWithin t
      → (act a t).count ≡ (act a t).over + (act a t).pushing + (act a t).queued + (act a t).lost
  unfolding act
  act-counted arrive t h s = ground arith
  act-counted back_off t h s = ground arith
  act-counted commit t h s = ground arith
  act-counted lose t h s = ground arith
  act-counted fail t h s = ground arith
  act-counted handle t h s = ground arith

  act-crew :
      (a : Action) (t : Traffic)
      → threads + limit < uint_values
      → IsWithin t
      → (act a t).over + (act a t).pushing ≤ threads
  unfolding act
  act-crew arrive t h s = ground arith
  act-crew back_off t h s = ground arith
  act-crew commit t h s = ground arith
  act-crew lose t h s = ground arith
  act-crew fail t h s = ground arith
  act-crew handle t h s = ground arith

  act-within :
      (a : Action) (t : Traffic)
      → threads + limit < uint_values
      → IsWithin t
      → (act a t).pushing + (act a t).queued + (act a t).lost ≤ limit
  unfolding act
  act-within arrive t h s = ground arith
  act-within back_off t h s = ground arith
  act-within commit t h s = ground arith
  act-within lose t h s = ground arith
  act-within fail t h s = ground arith
  act-within handle t h s = ground arith

  act-IsWithin :
      (a : Action) (t : Traffic) → threads + limit < uint_values → IsWithin t → IsWithin (act a t)
  act-IsWithin a t h s = record {
    counted = act-counted a t h s;
    crew = act-crew a t h s;
    within = act-within a t h s;
  }

  run-from :
      (as_ : List Action) (t : Traffic)
      → threads + limit < uint_values
      → IsWithin t
      → IsWithin (run as_ t)
  unfolding run
  run-from [] t h s = s
  run-from (a ∷ as_) t h s = run-from as_ (act a t) h (act-IsWithin a t h s)

  arrive-lets :
      (t : Traffic)
      → threads + limit < uint_values
      → IsWithin t
      → ((act arrive t).pushing ≡ t.pushing + 1)
        ↔ ((t.over + t.pushing < threads) × (t.count < limit))
  unfolding act
  arrive-lets t h s = (λ e. (ground arith, ground arith), λ e. ground (arith, e.0, e.1))

  -- Under every interleaving of deliveries, pushes that queue a demand, that throw or that drop the
  -- message as there is no event queue, and handled demands, from no traffic, with at most `threads`
  -- threads that deliver at a time and threads + limit below 2 ^ 32: the counter is the number of
  -- messages about to be taken back, in a push, in the queue, or dropped; those in a push, in the queue
  -- or dropped are never more than the limit; and a further message is let through to its push exactly
  -- if a thread is free for it and the counter is below the limit.
  pub run-IsWithin :
      (as_ : List Action)
      → threads + limit < uint_values
      → let t = run as_ no_traffic in
        IsWithin t
        × (((act arrive t).pushing ≡ t.pushing + 1)
            ↔ ((t.over + t.pushing < threads) × (t.count < limit)))
  run-IsWithin as_ h =
      let t = run as_ no_traffic in
      let s =
        run-from as_ no_traffic h
          (record { counted = omega arith; crew = omega arith; within = omega arith }) in
      (s, arrive-lets t h s)
