-- ===== src/ThreadPool/Workers/Jobs.antt =====
-- A working thread that processes a queue or switches to another one keeps a pool sound.
use android_vendor_sobjectiz.Common.{
  ℕ, suc, ◌+◌, ◌==◌, ltb, if◌then◌else◌, Bool, true, false, Option, none, some, List, [], ◌∷◌, ◌++◌,
  length, is_nil, ◌≡◌, refl, ap, arith, inl, inr, Bool-cases, times, one_if, times-append,
}
use android_vendor_sobjectiz.ThreadPool.{
  DispatcherQueue, try_switch_to_another, pop_demand, detect_continuation,
}
use android_vendor_sobjectiz.ThreadPool.Workers.{
  Pool, Job, pick, job, at, processes, switches_over, step,
}
use android_vendor_sobjectiz.ThreadPool.Workers.Invariant.{owners, Sound, PicksJob, pick-PicksJob}

abbrev pub Serves : Option Pool → Type 0
Serves none = ⊥
Serves (some p) = Sound p

module _ (p : Pool) (v : Sound p) where
  -- A job `j` that has the jobs `js` besides it.
  module _ (j : Job) (js : List Job)
      (h : (a : ℕ) → owners a p.jobs ≡ one_if (j.agent_queue == a) + owners a js)
      (l : length p.jobs ≡ suc (length js)) where
    -- The queue that it works on is not empty.
    some_demands : is_nil (p.demands j.agent_queue) ≡ false
    some_demands = ground (arith, h j.agent_queue, v.held j.agent_queue)

    goes_on_with :
        (rest : List ℕ) (n : ℕ) (s : Bool)
        → is_nil rest ≡ false
        → Sound (record p {
          demands = at j.agent_queue rest p.demands;
          jobs = job j.thread j.agent_queue n s ∷ js;
        })
    goes_on_with rest n s more = record {
      some_threads = v.some_threads;
      held = λ c.
          ground (arith, v.held c, v.held j.agent_queue, h c, h j.agent_queue, more, some_demands);
      kept = λ e c.
          ground
            (arith, v.kept e c, v.kept e j.agent_queue, h c, h j.agent_queue, more, some_demands);
      crew = omega (arith, v.crew, l);
      wakes = v.wakes;
      awake = λ e i. omega arith;
      shut = v.shut;
    }

    leaves :
        Sound (record p {
          demands = at j.agent_queue [] p.demands;
          jobs = js;
          idle = j.thread ∷ p.idle;
        })
    leaves = record {
      some_threads = v.some_threads;
      held =
          λ c. ground (arith, v.held c, v.held j.agent_queue, h c, h j.agent_queue, some_demands);
      kept = λ e c.
          ground (arith, v.kept e c, v.kept e j.agent_queue, h c, h j.agent_queue, some_demands);
      crew = omega (arith, v.crew, l);
      wakes = v.wakes;
      awake = λ e i. omega arith;
      shut = v.shut;
    }

    after_pop :
        (n : ℕ) (ds : List ℕ)
        → p.demands j.agent_queue ≡ ds
        → Serves (elim (pop_demand p.max_demands_at_once n ds) [
          | none ↦ none
          | some o ↦
              (let left = record p { demands = at j.agent_queue o.0 p.demands; jobs = js } in
                if o.1.is_enabled
                then some (record left { jobs = job j.thread j.agent_queue n false ∷ js })
                else if o.1.is_empty
                then some (record left { idle = j.thread ∷ p.idle })
                else some (record left { jobs = job j.thread j.agent_queue n true ∷ js }))
        ])
    unfolding pop_demand detect_continuation
    after_pop n [] e = absurd (ground (arith, some_demands, ap is_nil e))
    after_pop n (d ∷ []) e = leaves
    after_pop n (d ∷ x ∷ rest) e = elim (Bool-cases (ltb n p.max_demands_at_once)) [
      | inl more ↦ rw (more, detect_continuation) (goes_on_with (x ∷ rest) n false refl)
      | inr enough ↦ rw (enough, detect_continuation) (goes_on_with (x ∷ rest) n true refl)
    ]

    after_switch :
        (b : Bool) (q : List ℕ)
        → p.disp_queue.is_shutdown ≡ b
        → p.disp_queue.queue ≡ q
        → Serves (
            let s : Option ℕ × DispatcherQueue =
              (if b then (none, p.disp_queue) else elim q [
                | a ∷ rest ↦ (some a, record p.disp_queue { queue = rest ++ j.agent_queue ∷ [] })
                | [] ↦ (some j.agent_queue, p.disp_queue)
              ]) in
            elim s.0 [
              | none ↦ some (record p { disp_queue = s.1; jobs = js; idle = j.thread ∷ p.idle })
              | some a ↦ some (record p { disp_queue = s.1; jobs = job j.thread a 0 false ∷ js })
            ])
    after_switch true q b e = record {
      some_threads = v.some_threads;
      held = λ c. ground (arith, v.held c, h c);
      kept = λ f. absurd (ground (arith, b, f));
      crew = omega (arith, v.crew, l);
      wakes = v.wakes;
      awake = λ f. absurd (ground (arith, b, f));
      shut = v.shut;
    }
    after_switch false [] b e = record {
      some_threads = v.some_threads;
      held = λ c. ground (arith, v.held c, h c);
      kept = λ f c. ground (arith, v.kept f c, h c);
      crew = omega (arith, v.crew, l);
      wakes = v.wakes;
      awake = λ f i. omega arith;
      shut = v.shut;
    }
    after_switch false (a ∷ rest) b e = record {
      some_threads = v.some_threads;
      held = λ c.
          ground (arith, v.held c, h c, ap (times c) e, times-append c rest (j.agent_queue ∷ []));
      kept = λ f c.
          ground (arith, v.kept f c, h c, ap (times c) e, times-append c rest (j.agent_queue ∷ []));
      crew = omega (arith, v.crew, l);
      wakes = v.wakes;
      awake = λ f i. omega arith;
      shut = v.shut;
    }

  if-Serves : (b : Bool) (o : Option Pool) → Serves o → Serves (if b then some p else o)
  if-Serves true o g = v
  if-Serves false o g = g

  unless-Serves : (b : Bool) (o : Option Pool) → Serves o → Serves (if b then o else some p)
  unless-Serves true o g = g
  unless-Serves false o g = v

  pub processes-Serves : (i : ℕ) → Serves (step p (processes i))
  unfolding step
  processes-Serves i = by_pick (pick i p.jobs) (pick-PicksJob i p.jobs)
    where
      by_pick :
          (o : Option (Job × List Job))
          → PicksJob p.jobs o
          → Serves (elim o [
            | none ↦ some p
            | some r ↦
                if r.0.switches
                then some p
                else (let n = r.0.demands_processed + 1 in
                    elim (pop_demand p.max_demands_at_once n (p.demands r.0.agent_queue)) [
                      | none ↦ none
                      | some o ↦
                          let left = record p {
                            demands = at r.0.agent_queue o.0 p.demands;
                            jobs = r.1;
                          } in
                          if o.1.is_enabled
                          then some
                              (record left { jobs = job r.0.thread r.0.agent_queue n false ∷ r.1 })
                          else if o.1.is_empty
                          then some (record left { idle = r.0.thread ∷ p.idle })
                          else some
                              (record left { jobs = job r.0.thread r.0.agent_queue n true ∷ r.1 })
                    ])
          ])
      by_pick none h = v
      by_pick (some (j, js)) (h, l) =
          if-Serves j.switches _
            (after_pop j js h l (j.demands_processed + 1) (p.demands j.agent_queue) refl)

  pub switches-Serves : (i : ℕ) → Serves (step p (switches_over i))
  unfolding step try_switch_to_another
  switches-Serves i = by_pick (pick i p.jobs) (pick-PicksJob i p.jobs)
    where
      by_pick :
          (o : Option (Job × List Job))
          → PicksJob p.jobs o
          → Serves (elim o [
            | none ↦ some p
            | some r ↦
                if r.0.switches
                then (let s = try_switch_to_another r.0.agent_queue p.disp_queue in
                    elim s.0 [
                      | none ↦
                          some
                            (record p { disp_queue = s.1; jobs = r.1; idle = r.0.thread ∷ p.idle })
                      | some a ↦
                          some
                            (record p { disp_queue = s.1; jobs = job r.0.thread a 0 false ∷ r.1 })
                    ])
                else some p
          ])
      by_pick none h = v
      by_pick (some (j, js)) (h, l) =
          unless-Serves j.switches _
            (after_switch j js h l p.disp_queue.is_shutdown p.disp_queue.queue refl refl)
