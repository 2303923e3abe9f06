-- ===== src/ThreadPool/Workers/Invariant.antt =====
-- What holds of a pool between any two steps.
use android_vendor_sobjectiz.Common.{
  ℕ, zero, suc, ◌+◌, ◌==◌, ltb, if◌then◌else◌, Bool, true, false, not, ◌||◌, Option, none, some,
  List, [], ◌∷◌, length, is_nil, ◌≡◌, ◌<◌, ◌≤◌, refl, ap, arith, inl, inr, Bool-cases, times,
  one_if,
}
use android_vendor_sobjectiz.ThreadPool.{
  DispatcherQueue, pop_and_notify_one_waiting_customer, try_wakeup_someone_if_possible, notify_all,
  shutdown,
}
use android_vendor_sobjectiz.ThreadPool.Workers.{Pool, Job, pick}

abbrev pub owners : ℕ → List Job → ℕ
owners a [] = 0
owners a (j ∷ js) = if j.agent_queue == a then suc (owners a js) else owners a js

-- In how many hands a queue of an agent is: of a thread that has pushed to it and schedules it, of the
-- queue of the dispatcher, and of working threads.
abbrev pub hands : Pool → ℕ → ℕ
hands p a = times a p.pushed + times a p.disp_queue.queue + owners a p.jobs

abbrev pub is_filled : List ℕ → ℕ
is_filled ds = one_if (not (is_nil ds))

abbrev pub working : Pool → ℕ
working p = length p.idle + length p.woken + length p.jobs

pub record Sound (p : Pool) : Type 0 where
  pub some_threads : 0 < p.disp_queue.max_thread_count
  pub held : (a : ℕ) → hands p a ≤ is_filled (p.demands a)
  pub kept : p.disp_queue.is_shutdown ≡ false → (a : ℕ) → hands p a ≡ is_filled (p.demands a)
  pub crew :
      working p + length p.disp_queue.waiting_customers + length p.finished
      ≡ p.disp_queue.max_thread_count
  pub wakes :
      p.disp_queue.is_shutdown ≡ false
      → (length p.woken ≡ one_if p.disp_queue.wakeup_in_progress) × (length p.finished ≡ 0)
  pub awake : p.disp_queue.is_shutdown ≡ false → 0 < length p.disp_queue.queue → 0 < working p
  pub shut : p.disp_queue.is_shutdown ≡ true → length p.disp_queue.waiting_customers ≡ 0

-- What a wakeup does to a queue `q`, with `ts` the threads it notifies.
pub record Wakes (q q' : DispatcherQueue) (ts : List ℕ) : Type 0 where
  pub same_queue : q'.queue ≡ q.queue
  pub same_shutdown : q'.is_shutdown ≡ q.is_shutdown
  pub same_max : q'.max_thread_count ≡ q.max_thread_count
  pub moved : length q'.waiting_customers + length ts ≡ length q.waiting_customers
  pub told : one_if q'.wakeup_in_progress ≡ one_if q.wakeup_in_progress + length ts
  pub enough :
      0 < length q.queue
      → 0 < length q.waiting_customers
      → one_if q'.wakeup_in_progress ≡ 0
      → (length q'.waiting_customers == q'.max_thread_count) ≡ false

abbrev whole : Bool → List ℕ → Bool → ℕ → ℕ → List ℕ → DispatcherQueue
whole s l b m k w = record {
  is_shutdown = s;
  queue = l;
  wakeup_in_progress = b;
  max_thread_count = m;
  next_thread_wakeup_threshold = k;
  waiting_customers = w;
}

-- No thread is notified.
quiet-Wakes :
    (q : DispatcherQueue)
    → (0 < length q.queue
        → 0 < length q.waiting_customers
        → one_if q.wakeup_in_progress ≡ 0
        → (length q.waiting_customers == q.max_thread_count) ≡ false)
    → Wakes q q []
quiet-Wakes q h = record {
  same_queue = refl;
  same_shutdown = refl;
  same_max = refl;
  moved = omega arith;
  told = omega arith;
  enough = h;
}

by_fields :
    (s : Bool) (l : List ℕ) (b : Bool) (m k : ℕ) (w : List ℕ)
    → Wakes
        (whole s l b m k w)
        (try_wakeup_someone_if_possible (whole s l b m k w)).0
        (try_wakeup_someone_if_possible (whole s l b m k w)).1
unfolding try_wakeup_someone_if_possible pop_and_notify_one_waiting_customer
by_fields s [] b m k w = quiet-Wakes (whole s [] b m k w) (λ h i j. absurd (omega arith))
by_fields s (x ∷ l) b m k [] =
    quiet-Wakes (whole s (x ∷ l) b m k []) (λ h i j. absurd (omega arith))
by_fields s (x ∷ l) true m k (t ∷ w) =
    quiet-Wakes (whole s (x ∷ l) true m k (t ∷ w)) (λ h i j. absurd (omega arith))
by_fields s (x ∷ l) false m k (t ∷ w) =
    elim (Bool-cases (ltb k (suc (length l)) || (m == suc (length w)))) [
      | inr off ↦
          rw (off, try_wakeup_someone_if_possible)
            (quiet-Wakes (whole s (x ∷ l) false m k (t ∷ w)) (λ h i j. ground (arith, off)))
      | inl on ↦
          rw (on, try_wakeup_someone_if_possible)
            (record {
              same_queue = refl;
              same_shutdown = refl;
              same_max = refl;
              moved = omega arith;
              told = refl;
              enough = λ h i j. absurd (omega arith);
            })
    ]

pub try_wakeup-Wakes :
    (q : DispatcherQueue)
    → Wakes q (try_wakeup_someone_if_possible q).0 (try_wakeup_someone_if_possible q).1
try_wakeup-Wakes q =
    by_fields q.is_shutdown q.queue q.wakeup_in_progress q.max_thread_count
      q.next_thread_wakeup_threshold q.waiting_customers

-- A shutdown notifies all that wait.
pub record WakesAll (q q' : DispatcherQueue) (ts : List ℕ) : Type 0 where
  pub same_queue : q'.queue ≡ q.queue
  pub closed : q'.is_shutdown ≡ q.is_shutdown
  pub same_max : q'.max_thread_count ≡ q.max_thread_count
  pub moved : length ts ≡ length q.waiting_customers
  pub none_left : length q'.waiting_customers ≡ 0

notify_all-WakesAll :
    (ts : List ℕ) (s : Bool) (l : List ℕ) (b : Bool) (m k : ℕ)
    → WakesAll
        (whole s l b m k ts)
        (notify_all ts (whole s l b m k ts)).0
        (notify_all ts (whole s l b m k ts)).1
unfolding notify_all pop_and_notify_one_waiting_customer
notify_all-WakesAll [] s l b m k = record {
  same_queue = refl;
  closed = refl;
  same_max = refl;
  moved = refl;
  none_left = refl;
}
notify_all-WakesAll (t ∷ ts) s l b m k =
    let rest = notify_all-WakesAll ts s l true m k in
    record {
      same_queue = rest.same_queue;
      closed = rest.closed;
      same_max = rest.same_max;
      moved = ap suc rest.moved;
      none_left = rest.none_left;
    }

pub shutdown-WakesAll :
    (q : DispatcherQueue) → WakesAll (record q { is_shutdown = true }) (shutdown q).0 (shutdown q).1
unfolding shutdown
shutdown-WakesAll q =
    notify_all-WakesAll q.waiting_customers true q.queue q.wakeup_in_progress q.max_thread_count
      q.next_thread_wakeup_threshold

-- What is picked is one item less.
abbrev pub Picks : List ℕ → Option (ℕ × List ℕ) → Type 0
Picks xs none = Unit
Picks xs (some (x, ys)) =
    ((a : ℕ) → times a xs ≡ one_if (x == a) + times a ys) × (length xs ≡ suc (length ys))

pub pick-Picks : (i : ℕ) (xs : List ℕ) → Picks xs (pick i xs)
unfolding pick
pick-Picks i [] = tt
pick-Picks zero (x ∷ xs) = (λ a. ground arith, refl)
pick-Picks (suc i) (x ∷ xs) = under (pick i xs) (pick-Picks i xs)
  where
    under :
        (o : Option (ℕ × List ℕ))
        → Picks xs o
        → Picks (x ∷ xs) (elim o [ none ↦ none | some r ↦ some (r.0, x ∷ r.1) ])
    under none h = tt
    under (some (y, ys)) (h, l) = (λ a. ground (arith, h a), ap suc l)

abbrev pub PicksJob : List Job → Option (Job × List Job) → Type 0
PicksJob js none = Unit
PicksJob js (some (j, ks)) =
    ((a : ℕ) → owners a js ≡ one_if (j.agent_queue == a) + owners a ks)
    × (length js ≡ suc (length ks))

pub pick-PicksJob : (i : ℕ) (js : List Job) → PicksJob js (pick i js)
unfolding pick
pick-PicksJob i [] = tt
pick-PicksJob zero (j ∷ js) = (λ a. ground arith, refl)
pick-PicksJob (suc i) (x ∷ js) = under (pick i js) (pick-PicksJob i js)
  where
    under :
        (o : Option (Job × List Job))
        → PicksJob js o
        → PicksJob (x ∷ js) (elim o [ none ↦ none | some r ↦ some (r.0, x ∷ r.1) ])
    under none h = tt
    under (some (j, ks)) (h, l) = (λ a. ground (arith, h a), ap suc l)
