-- ===== src/ThreadPool/Workers/Steps.antt =====
-- Every action keeps a pool sound.
use android_vendor_sobjectiz.Common.{
  ℕ, suc, ◌+◌, if◌then◌else◌, Bool, true, false, Option, none, some, List, [], ◌∷◌, ◌++◌, length,
  length-append, is_nil, ◌≡◌, ◌<◌, ◌≤◌, refl, sym, ap, ◌∙◌, arith, times, one_if, times-append,
}
use android_vendor_sobjectiz.ThreadPool.{
  DispatcherQueue, schedule, shutdown, nullptr, takes, waits, pop_round, resume, push_demand,
  try_wakeup_someone_if_possible,
}
use android_vendor_sobjectiz.ThreadPool.Workers.{
  Pool, pick, at, popped, Action, pushes, schedules, pops, resumes, processes, switches_over,
  shuts_down, step,
}
use android_vendor_sobjectiz.ThreadPool.Workers.Invariant.{
  hands, is_filled, working, Sound, try_wakeup-Wakes, shutdown-WakesAll, Picks, pick-Picks,
}
use android_vendor_sobjectiz.ThreadPool.Workers.Jobs.{Serves, processes-Serves, switches-Serves}

is_nil-append : (ds : List ℕ) (d : ℕ) → is_nil (ds ++ d ∷ []) ≡ false
is_nil-append [] d = refl
is_nil-append (x ∷ ds) d = refl

-- A pool whose thread goes on to a round of pop: it is in no list.
record IsReady (p : Pool) : Type 0 where
  some_threads : 0 < p.disp_queue.max_thread_count
  held : (a : ℕ) → hands p a ≤ is_filled (p.demands a)
  kept : p.disp_queue.is_shutdown ≡ false → (a : ℕ) → hands p a ≡ is_filled (p.demands a)
  crew :
      suc (working p + length p.disp_queue.waiting_customers + length p.finished)
      ≡ p.disp_queue.max_thread_count
  wakes :
      p.disp_queue.is_shutdown ≡ false
      → (length p.woken ≡ one_if p.disp_queue.wakeup_in_progress) × (length p.finished ≡ 0)
  shut : p.disp_queue.is_shutdown ≡ true → length p.disp_queue.waiting_customers ≡ 0

popped-Sound :
    (t : ℕ) (p : Pool) (r : IsReady p) (b : Bool) (l : List ℕ)
    → p.disp_queue.is_shutdown ≡ b
    → p.disp_queue.queue ≡ l
    → Sound (
        popped t p (
          if b then nullptr else elim l [
            | a ∷ rest ↦
                (let w = try_wakeup_someone_if_possible (record p.disp_queue { queue = rest }) in
                  takes a w.0 w.1)
            | [] ↦
                waits
                  (record p.disp_queue { waiting_customers = t ∷ p.disp_queue.waiting_customers })
          ]))
unfolding popped
popped-Sound t p r true l b q = record {
  some_threads = r.some_threads;
  held = r.held;
  kept = λ e. r.kept e;
  crew = omega (arith, r.crew);
  wakes = λ e. absurd (ground (arith, b, e));
  awake = λ e. absurd (ground (arith, b, e));
  shut = r.shut;
}
popped-Sound t p r false [] b q = record {
  some_threads = r.some_threads;
  held = r.held;
  kept = r.kept;
  crew = omega (arith, r.crew);
  wakes = r.wakes;
  awake = λ e h. absurd (omega (arith, h, ap length q));
  shut = λ e. absurd (ground (arith, b, e));
}
popped-Sound t p r false (a ∷ rest) b q =
    let w = try_wakeup-Wakes (record p.disp_queue { queue = rest }) in
    record {
      some_threads = rw w.same_max r.some_threads;
      held = λ c. ground (arith, r.held c, ap (times c) q, ap (times c) w.same_queue);
      kept = λ e c. ground (arith, r.kept b c, ap (times c) q, ap (times c) w.same_queue);
      crew = rw w.same_max (
          omega (
            arith,
            r.crew,
            w.moved,
            length-append p.woken
                (try_wakeup_someone_if_possible (record p.disp_queue { queue = rest })).1,
          ));
      wakes = λ e.
          let (n, f) = r.wakes b in
          (
            omega (
              arith,
              n,
              w.told,
              length-append p.woken
                  (try_wakeup_someone_if_possible (record p.disp_queue { queue = rest })).1,
            ),
            f,
          );
      awake = λ e h. omega arith;
      shut = λ e. absurd (ground (arith, b, e, w.same_shutdown));
    }

module _ (p : Pool) (v : Sound p) where
  pops-Serves :
      (o : Option (ℕ × List ℕ))
      → Picks p.idle o
      → Serves (elim o [
        | none ↦ some p
        | some r ↦ some (popped r.0 (record p { idle = r.1 }) (pop_round r.0 p.disp_queue))
      ])
  unfolding pop_round
  pops-Serves none h = v
  pops-Serves (some (t, rest)) (h, l) =
      popped-Sound t (record p { idle = rest })
        (record {
          some_threads = v.some_threads;
          held = v.held;
          kept = v.kept;
          crew = omega (arith, v.crew, l);
          wakes = v.wakes;
          shut = v.shut;
        })
        p.disp_queue.is_shutdown p.disp_queue.queue refl refl

  resumes-Serves :
      (o : Option (ℕ × List ℕ))
      → Picks p.woken o
      → Serves (elim o [
        | none ↦ some p
        | some r ↦ some (
            popped r.0
              (record p {
                woken = r.1;
                disp_queue = record p.disp_queue { wakeup_in_progress = false };
              })
              (resume r.0 p.disp_queue))
      ])
  unfolding resume pop_round
  resumes-Serves none h = v
  resumes-Serves (some (t, rest)) (h, l) =
      popped-Sound t
        (record p { woken = rest; disp_queue = record p.disp_queue { wakeup_in_progress = false } })
        (record {
          some_threads = v.some_threads;
          held = v.held;
          kept = v.kept;
          crew = omega (arith, v.crew, l);
          wakes = λ e. (ground (arith, v.wakes e, l), (v.wakes e).1);
          shut = v.shut;
        })
        p.disp_queue.is_shutdown p.disp_queue.queue refl refl

  pushes-Serves : (a d : ℕ) → Serves (step p (pushes a d))
  unfolding step push_demand
  pushes-Serves a d = by_test (is_nil (p.demands a)) refl
    where
      by_test :
          (b : Bool)
          → is_nil (p.demands a) ≡ b
          → Sound (record p {
            demands = at a (p.demands a ++ d ∷ []) p.demands;
            pushed = if b then a ∷ p.pushed else p.pushed;
          })
      by_test b e = record {
        some_threads = v.some_threads;
        held = λ c. ground (arith, v.held a, v.held c, e, is_nil-append (p.demands a) d);
        kept = λ s c. ground (arith, v.kept s a, v.kept s c, e, is_nil-append (p.demands a) d);
        crew = v.crew;
        wakes = v.wakes;
        awake = v.awake;
        shut = v.shut;
      }

  schedules-Serves :
      (o : Option (ℕ × List ℕ))
      → Picks p.pushed o
      → Serves (elim o [
        | none ↦ some p
        | some r ↦
            (let s = schedule r.0 p.disp_queue in
              some (record p { pushed = r.1; disp_queue = s.0; woken = p.woken ++ s.1 }))
      ])
  unfolding schedule
  schedules-Serves none h = v
  schedules-Serves (some (a, rest)) (h, l) =
      let q : DispatcherQueue = record p.disp_queue { queue = p.disp_queue.queue ++ a ∷ [] } in
      let w = try_wakeup-Wakes q in
      let ts = length-append p.woken (try_wakeup_someone_if_possible q).1 in
      let counts : (c : ℕ)
          → times c (try_wakeup_someone_if_possible q).0.queue
            ≡ times c p.disp_queue.queue + times c (a ∷ []) =
        λ c. ap (times c) w.same_queue ∙ times-append c p.disp_queue.queue (a ∷ []) in
      record {
        some_threads = rw w.same_max v.some_threads;
        held = λ c. ground (arith, v.held c, h c, counts c);
        kept = λ e c. ground (arith, v.kept (sym w.same_shutdown ∙ e) c, h c, counts c);
        crew = rw w.same_max (omega (arith, v.crew, w.moved, ts));
        wakes = λ e.
            let (n, f) = v.wakes (sym w.same_shutdown ∙ e) in (omega (arith, n, w.told, ts), f);
        awake = λ e i.
            let (n, f) = v.wakes (sym w.same_shutdown ∙ e) in
            ground (
              arith,
              n,
              f,
              w.told,
              ts,
              w.moved,
              w.same_max,
              v.crew,
              v.some_threads,
              w.enough,
              length-append p.disp_queue.queue (a ∷ []),
            );
        shut = λ e. omega (arith, v.shut (sym w.same_shutdown ∙ e), w.moved);
      }

  shuts-Serves : Serves (step p shuts_down)
  unfolding step
  shuts-Serves =
      let w = shutdown-WakesAll p.disp_queue in
      record {
        some_threads = rw w.same_max v.some_threads;
        held = λ c. ground (arith, v.held c, ap (times c) w.same_queue);
        kept = λ e. absurd (ground (arith, e, w.closed));
        crew = rw w.same_max (
            omega (
              arith,
              v.crew,
              w.moved,
              w.none_left,
              length-append p.woken (shutdown p.disp_queue).1,
            ));
        wakes = λ e. absurd (ground (arith, e, w.closed));
        awake = λ e. absurd (ground (arith, e, w.closed));
        shut = λ e. w.none_left;
      }

  pub step-Serves : (a : Action) → Serves (step p a)
  unfolding step
  step-Serves (pushes a d) = pushes-Serves a d
  step-Serves (schedules i) = schedules-Serves (pick i p.pushed) (pick-Picks i p.pushed)
  step-Serves (pops i) = pops-Serves (pick i p.idle) (pick-Picks i p.idle)
  step-Serves (resumes i) = resumes-Serves (pick i p.woken) (pick-Picks i p.woken)
  step-Serves (processes i) = processes-Serves p v i
  step-Serves (switches_over i) = switches-Serves p v i
  step-Serves shuts_down = shuts-Serves
