-- ===== src/Networking/Pipeline/Completes.antt =====
-- That SIPProxy::stop of proxy/src/sip_proxy.cpp comes to its end: the threads that it waits for do
-- end.
use minimal_sip_proxy_sip_cl.Base.{
  ℕ, zero, suc, ◌-◌, ◌≡◌, refl, ap, true, false, some, List, [], ◌∷◌, ◌++◌, Option-cases, inl, inr,
  arith,
}
use mathlib.Core.Path.{subst}
use minimal_sip_proxy_sip_cl.Networking.Queue.{pop, stop}
use minimal_sip_proxy_sip_cl.Networking.Pipeline.{
  finished, waiting, Pipeline, new_pipeline, Action, start, stop_dispatcher, shutdown, dispatch,
  work, push_packet, loop, worker_loop, step, run,
}
use minimal_sip_proxy_sip_cl.Networking.Pipeline.Progress.{ByThreads, queue-Settles}
use minimal_sip_proxy_sip_cl.Networking.Pipeline.Stopping.{NoShutdown, OnlyWork, run-IsOpen}
use minimal_sip_proxy_sip_cl.Networking.Pipeline.Stopped.{stop_loses_nothing}

one_less : (n : ℕ) → suc n - 1 ≡ n
one_less n = omega arith

module _ {A : Type 0} where
  run_then :
      (s t u : Pipeline A) (xs ys : List (Action A))
      → run s xs ≡ some t
      → run t ys ≡ some u
      → run s (xs ++ ys) ≡ some u
  unfolding run
  run_then s t u [] ys h k = subst (λ x. run x ys ≡ some u) (cc) k
  run_then s t u (a ∷ xs) ys h k = elim (Option-cases (step s a)) [
    | inl stuck ↦ cc
    | inr (x, e) ↦ rw (run, e) (run_then x t u xs ys (rw (run, e) at h) k)
  ]

  threads_then : (xs : List (Action A)) → ByThreads xs → ByThreads (xs ++ dispatch ∷ [])
  threads_then [] h = tt
  threads_then (dispatch ∷ rest) h = threads_then rest h
  threads_then (work ∷ rest) h = threads_then rest h
  threads_then (start ∷ rest) h = absurd h
  threads_then (stop_dispatcher ∷ rest) h = absurd h
  threads_then (shutdown ∷ rest) h = absurd h
  threads_then (push_packet x ∷ rest) h = absurd h

  -- A worker of a closed and empty queue ends.
  worker_ends :
      (n : ℕ) (s : Pipeline A)
      → s.workers ≡ suc n
      → s.tasks.items ≡ []
      → s.tasks.stopped ≡ true
      → step s work ≡ some (record s { workers = n })
  unfolding step worker_loop pop
  worker_ends n s e items stopped =
      rw (e, items, stopped)
        (ap (λ m. some (record s { tasks = record { items = []; stopped = true }; workers = m }))
          (one_less n))

  workers_end :
      (n : ℕ) (s : Pipeline A)
      → s.workers ≡ n
      → s.tasks.items ≡ []
      → s.tasks.stopped ≡ true
      → (finishing : List (Action A)) × (u : Pipeline A) × OnlyWork finishing
        × (run s finishing ≡ some u)
        × (u.workers ≡ 0)
  unfolding run
  workers_end zero s e items stopped = ([], s, tt, refl, e)
  workers_end (suc n) s e items stopped =
      let (finishing, u, working, done, none_left) =
        workers_end n (record s { workers = n }) refl items stopped in
      (work ∷ finishing, u, working, rw (run, worker_ends n s e items stopped) done, none_left)

  -- The dispatcher of a closed and empty queue finishes.
  dispatcher_ends :
      (s : Pipeline A)
      → s.phase ≡ waiting
      → s.queue.items ≡ []
      → s.queue.stopped ≡ true
      → run s (dispatch ∷ []) ≡ some (record s { phase = finished })
  unfolding run step loop pop
  dispatcher_ends s e items stopped = rw (e, items, stopped) refl

  -- After any steps of the threads without a shutdown, with a worker in the pool and the dispatcher
  -- in its loop, the stop comes to its end: the queue of the dispatcher is stopped, and steps of the
  -- threads alone lead to the end of its thread; then the pool is shut down, and steps of the workers
  -- alone lead to the end of all of them, by when they have taken every packet that was pushed before
  -- the stop, in the order in which they were pushed.
  pub stop_completes :
      (num_threads : ℕ) (before : List (Action A)) (s : Pipeline A)
      → NoShutdown before
      → run (new_pipeline (suc num_threads)) before ≡ some s
      → s.phase ≡ waiting
      → (draining finishing : List (Action A)) × (t u : Pipeline A) × ByThreads draining
        × (run s (stop_dispatcher ∷ draining) ≡ some t)
        × (t.phase ≡ finished)
        × OnlyWork finishing
        × (run t (shutdown ∷ finishing) ≡ some u)
        × (u.workers ≡ 0)
        × (u.handled ≡ s.pushed)
  unfolding run step
  stop_completes k before s allowed h0 loops =
      let n = suc k in
      let o =
        run-IsOpen n (new_pipeline n) s before allowed
          (record { running = refl; taking = refl; full = refl }) h0 in
      let stopped : Pipeline A = record s { dispatcher_running = false; queue = stop s.queue } in
      let f =
        queue-Settles stopped stopped.queue.items
          (record { pool = o.running; worker = (k, o.full); loops = loops }) refl in
      let t : Pipeline A = record f.after { phase = finished } in
      let end = dispatcher_ends f.after f.works.loops f.no_packet f.same_stop in
      let closing : Pipeline A = record t { pool_running = false; tasks = stop t.tasks } in
      let (finishing, u, working, done, none_left) =
        workers_end closing.workers closing refl f.no_task refl in
      let draining : List (Action A) = f.actions ++ dispatch ∷ [] in
      let drains = run_then stopped f.after t f.actions (dispatch ∷ []) f.reached end in
      let threads = threads_then f.actions f.by_threads in
      let handled =
        stop_loses_nothing k before draining finishing s t u allowed h0
          (λ e. absurd (cc (e, loops))) threads drains refl working done none_left in
      (draining, finishing, t, u, threads, drains, refl, working, done, none_left, handled)
