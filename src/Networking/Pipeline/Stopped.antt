-- ===== src/Networking/Pipeline/Stopped.antt =====
-- What is left when the pipeline has been stopped.
use minimal_sip_proxy_sip_cl.Base.{
  ℕ, zero, suc, ◌≡◌, ◌≢◌, refl, sym, ◌∙◌, false, some, List, [], ◌∷◌, append-nil, Option-cases, inl,
  inr, ◌⊎◌, arith,
}
use minimal_sip_proxy_sip_cl.Networking.Queue.{stop}
use minimal_sip_proxy_sip_cl.Networking.Pipeline.{
  finished, Pipeline, new_pipeline, Action, start, stop_dispatcher, shutdown, dispatch, work,
  push_packet, worker_loop, step, run,
}
use minimal_sip_proxy_sip_cl.Networking.Pipeline.Flow.{Flow, Popped-cases, run_from-Flow, run-Flow}
use minimal_sip_proxy_sip_cl.Networking.Pipeline.Progress.{ByThreads}
use minimal_sip_proxy_sip_cl.Networking.Pipeline.Stopping.{
  NoShutdown, OnlyWork, moved, closed_empty, run-IsOpen, run-IsDraining, threads_allowed,
}

module _ {A : Type 0} where
  -- The dispatcher has finished, and a worker ends only with no task left.
  record IsClosing (n : ℕ) (pushed : List A) (s : Pipeline A) : Type 0 where
    over : s.phase ≡ finished
    no_packet : s.queue.items ≡ []
    no_loss : s.dropped ≡ []
    same : s.pushed ≡ pushed
    left : (s.workers ≡ suc n) ⊎ (s.tasks.items ≡ [])

  work-IsClosing :
      (n : ℕ) (ps : List A) (s s' : Pipeline A) (k : ℕ)
      → IsClosing n ps s
      → worker_loop s k ≡ some s'
      → IsClosing n ps s'
  unfolding worker_loop
  work-IsClosing n ps s s' zero c h = cc
  work-IsClosing n ps s s' (suc k) c h = elim (Popped-cases s.tasks) [
    | inl (inl none_yet) ↦ cc
    | inl (inr done) ↦ moved (IsClosing n ps) (rw done at h) (record {
      over = c.over;
      no_packet = c.no_packet;
      no_loss = c.no_loss;
      same = c.same;
      left = inr (closed_empty s.tasks done);
    })
    | inr (x, rest, some_left, items) ↦ moved (IsClosing n ps) (rw some_left at h) (record {
      over = c.over;
      no_packet = c.no_packet;
      no_loss = c.no_loss;
      same = c.same;
      left = elim c.left [ inl e ↦ inl e | inr e ↦ absurd (cc (e, items)) ];
    })
  ]

  run-IsClosing :
      (n : ℕ) (ps : List A) (s s' : Pipeline A) (actions : List (Action A))
      → OnlyWork actions
      → IsClosing n ps s
      → run s actions ≡ some s'
      → IsClosing n ps s'
  unfolding run step
  run-IsClosing n ps s s' [] allowed c h = moved (IsClosing n ps) h c
  run-IsClosing n ps s s' (work ∷ rest) allowed c h =
      elim (Option-cases (worker_loop s s.workers)) [
        | inl stuck ↦ cc
        | inr (t, e) ↦
            run-IsClosing n ps t s' rest allowed (work-IsClosing n ps s t s.workers c e)
              (rw (run, e) at h)
      ]
  run-IsClosing n ps s s' (start ∷ rest) allowed c h = absurd allowed
  run-IsClosing n ps s s' (stop_dispatcher ∷ rest) allowed c h = absurd allowed
  run-IsClosing n ps s s' (shutdown ∷ rest) allowed c h = absurd allowed
  run-IsClosing n ps s s' (dispatch ∷ rest) allowed c h = absurd allowed
  run-IsClosing n ps s s' (push_packet x ∷ rest) allowed c h = absurd allowed

  -- Nothing is left anywhere.
  all_handled :
      (n : ℕ) (ps : List A) (s : Pipeline A)
      → Flow s
      → IsClosing n ps s
      → s.workers ≡ 0
      → s.handled ≡ ps
  all_handled n ps s f c none_left =
      let no_task : s.tasks.items ≡ [] = elim c.left [
        | inl e ↦ absurd (omega (arith, e, none_left))
        | inr e ↦ e
      ] in
      sym ((rw (c.over, c.no_packet, c.no_loss, no_task) at f.order) ∙ append-nil s.handled)
      ∙ c.same

  -- The proxy stops without losing a packet. A pool with a worker, any steps of the threads without
  -- a shutdown, after which the dispatcher has not finished; then its queue is stopped, and its thread
  -- and the workers go on until it has finished; then the pool is shut down, and the workers go on
  -- until none is left: by then the workers have taken every packet that was pushed before the stop,
  -- in the order in which they were pushed.
  pub stop_loses_nothing :
      (num_threads : ℕ) (before draining finishing : List (Action A)) (s t u : Pipeline A)
      → NoShutdown before
      → run (new_pipeline (suc num_threads)) before ≡ some s
      → s.phase ≢ finished
      → ByThreads draining
      → run s (stop_dispatcher ∷ draining) ≡ some t
      → t.phase ≡ finished
      → OnlyWork finishing
      → run t (shutdown ∷ finishing) ≡ some u
      → u.workers ≡ 0
      → u.handled ≡ s.pushed
  unfolding run step
  stop_loses_nothing k before draining finishing s t u allowed h0 busy threads h1 over working h2
        none_left =
      let n = suc k in
      let o =
        run-IsOpen n (new_pipeline n) s before allowed
          (record { running = refl; taking = refl; full = refl }) h0 in
      let stopped : Pipeline A = record s { dispatcher_running = false; queue = stop s.queue } in
      let o1 =
        run-IsOpen n stopped t draining (threads_allowed draining threads)
          (record { running = o.running; taking = o.taking; full = o.full }) h1 in
      let d1 =
        run-IsDraining s.pushed stopped t draining threads
          (record { empty = λ e. absurd (busy e); same = refl }) h1 in
      let f0 = run-Flow n before s h0 in
      let f1 =
        run_from-Flow stopped t draining
          (record { order = f0.order; kept = f0.kept; last = f0.last }) h1 in
      let closing : Pipeline A = record t { pool_running = false; tasks = stop t.tasks } in
      let f2 =
        run_from-Flow closing u finishing (record { order = f1.order; kept = cc; last = f1.last })
          h2 in
      let c2 =
        run-IsClosing k s.pushed closing u finishing working
          (record {
            over = over;
            no_packet = d1.empty over;
            no_loss = f1.kept o1.running;
            same = d1.same;
            left = inl o1.full;
          })
          h2 in
      all_handled k s.pushed u f2 c2 none_left
