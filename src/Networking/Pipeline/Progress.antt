-- ===== src/Networking/Pipeline/Progress.antt =====
-- Whether the threads of the pipeline can finish its work: networking/src/dispatcher.cpp and
-- networking/src/thread_pool.cpp.
use minimal_sip_proxy_sip_cl.Base.{
  ℕ, suc, ◌≡◌, refl, sym, ◌∙◌, true, some, List, [], ◌∷◌, ◌++◌, append-nil,
}
use minimal_sip_proxy_sip_cl.Networking.Queue.{pop, push}
use minimal_sip_proxy_sip_cl.Networking.Pipeline.{
  waiting, holding, admitted, Pipeline, new_pipeline, Action, dispatch, work, loop, worker_loop,
  step, run,
}
use minimal_sip_proxy_sip_cl.Networking.Pipeline.Flow.{Flow, run_from-Flow, run-Flow}

module _ {A : Type 0} where
  -- The pool runs with a worker at least, and the dispatcher waits in its loop.
  pub record Works (s : Pipeline A) : Type 0 where
    pub pool : s.pool_running ≡ true
    pub worker : (n : ℕ) × (s.workers ≡ suc n)
    pub loops : s.phase ≡ waiting

  -- Steps of the dispatcher and the workers only.
  abbrev pub ByThreads : List (Action A) → Type 0
  ByThreads [] = Unit {0}
  ByThreads (dispatch ∷ rest) = ByThreads rest
  ByThreads (work ∷ rest) = ByThreads rest
  ByThreads (a ∷ rest) = ⊥

  -- Steps of the threads alone lead to a state in which nothing waits.
  pub record Settles (s : Pipeline A) : Type 0 where
    pub actions : List (Action A)
    pub by_threads : ByThreads actions
    pub after : Pipeline A
    pub reached : run s actions ≡ some after
    pub works : Works after
    pub no_packet : after.queue.items ≡ []
    pub no_task : after.tasks.items ≡ []
    pub same_pushed : after.pushed ≡ s.pushed
    pub same_stop : after.queue.stopped ≡ s.queue.stopped

  after_step :
      (s t : Pipeline A) (a : Action A)
      → step s a ≡ some t
      → t.pushed ≡ s.pushed
      → t.queue.stopped ≡ s.queue.stopped
      → ((rest : List (Action A)) → ByThreads rest → ByThreads (a ∷ rest))
      → Settles t
      → Settles s
  unfolding run
  after_step s t a e p z h f = record {
    actions = a ∷ f.actions;
    by_threads = h f.actions f.by_threads;
    after = f.after;
    reached = rw (run, e) f.reached;
    works = f.works;
    no_packet = f.no_packet;
    no_task = f.no_task;
    same_pushed = f.same_pushed ∙ p;
    same_stop = f.same_stop ∙ z;
  }

  tasks-Settles :
      (s : Pipeline A) (ts : List A) → Works s → s.queue.items ≡ [] → s.tasks.items ≡ ts → Settles s
  unfolding step worker_loop pop run
  tasks-Settles s [] w q e = record {
    actions = [];
    by_threads = tt;
    after = s;
    reached = refl;
    works = w;
    no_packet = q;
    no_task = e;
    same_pushed = refl;
    same_stop = refl;
  }
  tasks-Settles s (x ∷ ts) w q e =
      let t : Pipeline A = record s {
        tasks = record s.tasks { items = ts };
        handled = s.handled ++ x ∷ [];
      } in
      after_step s t work (rw (w.worker.1, e) refl) refl refl (λ _ h. h)
        (tasks-Settles t ts (record { pool = w.pool; worker = w.worker; loops = w.loops }) q refl)

  pub queue-Settles : (s : Pipeline A) (xs : List A) → Works s → s.queue.items ≡ xs → Settles s
  unfolding step loop pop
  queue-Settles s [] w e = tasks-Settles s s.tasks.items w e refl
  queue-Settles s (x ∷ xs) w e =
      let held : Pipeline A = record s {
        queue = record s.queue { items = xs };
        phase = holding x;
      } in
      let in_pool : Pipeline A = record held { phase = admitted x } in
      let t : Pipeline A = record in_pool { tasks = push s.tasks x; phase = waiting } in
      after_step s held dispatch (rw (w.loops, e) refl) refl refl (λ _ h. h)
        (after_step held in_pool dispatch (rw w.pool refl) refl refl (λ _ h. h)
          (after_step in_pool t dispatch refl refl refl (λ _ h. h)
            (queue-Settles t xs (record { pool = w.pool; worker = w.worker; loops = refl }) refl)))

  all_handled :
      (s : Pipeline A)
      → Flow s
      → Works s
      → s.queue.items ≡ []
      → s.tasks.items ≡ []
      → s.handled ≡ s.pushed
  all_handled s f w q t =
      sym ((rw (w.loops, f.kept w.pool, q, t) at f.order) ∙ append-nil s.handled)

  -- From every state that the threads can bring about in which the pool runs, has a worker, and
  -- the dispatcher waits in its loop, steps of the threads alone lead to a state in which the
  -- workers have taken every packet that was pushed, in the order in which they were pushed.
  pub run-Settles :
      (num_threads : ℕ) (actions : List (Action A)) (s : Pipeline A)
      → run (new_pipeline num_threads) actions ≡ some s
      → Works s
      → (more : List (Action A)) × (after : Pipeline A) × ByThreads more
        × (run s more ≡ some after)
        × (after.handled ≡ s.pushed)
  run-Settles n actions s e w =
      let f = queue-Settles s s.queue.items w refl in
      let flow = run_from-Flow s f.after f.actions (run-Flow n actions s e) f.reached in
      let handled = all_handled f.after flow f.works f.no_packet f.no_task in
      (f.actions, f.after, f.by_threads, f.reached, handled ∙ f.same_pushed)
