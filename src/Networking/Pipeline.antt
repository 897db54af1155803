-- ===== src/Networking/Pipeline.antt =====
-- networking/src/dispatcher.cpp and networking/src/thread_pool.cpp: a packet goes into the queue of
-- the dispatcher, whose thread makes a task of it for the thread pool, whose workers run it. Each
-- action below is one atomic step of one thread; a run is any sequence of them. A task is the
-- packet that it handles.
pub mod Flow
pub mod Progress
pub mod Stopping
pub mod Stopped
pub mod Completes
use minimal_sip_proxy_sip_cl.Base.{
  ℕ, zero, suc, ◌-◌, ◌≡◌, refl, ap, ◌∙◌, Bool, true, false, Option, none, some, List, [], ◌∷◌, ◌++◌,
  append_assoc, append-nil, if◌then◌else◌, ◌>>=◌, ◌⊎◌, inl, inr, Option-cases, arith,
}
use minimal_sip_proxy_sip_cl.Networking.Queue.{
  Queue, new_queue, push, stop, pop, Popped, waits, closed, got,
}

-- Where the thread of the dispatcher is: between `pop` and `enqueue` it holds a packet, and inside
-- `enqueue`, behind the test of `running`, it has one admitted.
pub data Phase (A : Type 0) : Type 0 where
  idle waiting finished : Phase A
  holding admitted : A → Phase A

pub record Pipeline (A : Type 0) : Type 0 where
  pub queue : Queue A
  pub dispatcher_running : Bool
  pub phase : Phase A
  pub tasks : Queue A
  pub pool_running : Bool
  pub workers : ℕ
  -- What was pushed, taken by a worker and not admitted so far, in order.
  pub pushed : List A
  pub handled : List A
  pub dropped : List A

pub data Action (A : Type 0) : Type 0 where
  start stop_dispatcher shutdown dispatch work : Action A
  push_packet : A → Action A

module _ {A : Type 0} where
  abbrev pub new_pipeline : ℕ → Pipeline A
  new_pipeline num_threads = record {
    queue = new_queue;
    dispatcher_running = false;
    phase = idle;
    tasks = new_queue;
    pool_running = true;
    workers = num_threads;
    pushed = [];
    handled = [];
    dropped = [];
  }

  -- A thread is started where there was none, or where `stop` has joined the one that has ended.
  unfoldable pub start_thread : Pipeline A → Phase A → Option (Pipeline A)
  start_thread s idle = some (record s { dispatcher_running = true; phase = waiting })
  start_thread s finished = some (record s { dispatcher_running = true; phase = waiting })
  start_thread s _ = none

  -- The condition of the loop of the dispatcher.
  next_packet : Pipeline A → Popped A → Option (Pipeline A)
  next_packet s waits = none
  next_packet s closed = some (record s { phase = finished })
  next_packet s (got x rest) = some (record s { queue = rest; phase = holding x })

  -- `if (running.load())` of ThreadPool::enqueue
  admit : Pipeline A → A → Pipeline A
  admit s x =
      if s.pool_running
      then record s { phase = admitted x }
      else record s { phase = waiting; dropped = s.dropped ++ x ∷ [] }

  -- The next step of the thread of the dispatcher.
  unfoldable pub loop : Pipeline A → Phase A → Option (Pipeline A)
  unfolding next_packet admit
  loop s idle = none
  loop s waiting = next_packet s (pop s.queue)
  loop s (holding x) = some (admit s x)
  loop s (admitted x) = some (record s { tasks = push s.tasks x; phase = waiting })
  loop s finished = none

  next_task : Pipeline A → Popped A → Option (Pipeline A)
  next_task s waits = none
  next_task s closed = some (record s { workers = s.workers - 1 })
  next_task s (got x rest) = some (record s { tasks = rest; handled = s.handled ++ x ∷ [] })

  -- The next task of one of the workers that have not ended.
  unfoldable pub worker_loop : Pipeline A → ℕ → Option (Pipeline A)
  unfolding next_task
  worker_loop s zero = none
  worker_loop s (suc n) = next_task s (pop s.tasks)

  -- `none` if the thread has to wait, or is not there. In `stop_dispatcher` and `shutdown` the store to
  -- the flag and the stop of the queue are one step.
  unfoldable pub step : Pipeline A → Action A → Option (Pipeline A)
  unfolding start_thread
  step s start = if s.dispatcher_running then some s else start_thread s s.phase
  step s stop_dispatcher = some (record s { dispatcher_running = false; queue = stop s.queue })
  step s shutdown = some (record s { pool_running = false; tasks = stop s.tasks })
  step s dispatch = loop s s.phase
  step s work = worker_loop s s.workers
  step s (push_packet x) = some (record s { queue = push s.queue x; pushed = s.pushed ++ x ∷ [] })

  unfoldable pub run : Pipeline A → List (Action A) → Option (Pipeline A)
  run s [] = some s
  run s (a ∷ rest) = elim (step s a) [ none ↦ none | some s' ↦ run s' rest ]
