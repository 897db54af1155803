-- ===== src/Networking/Pipeline/Flow.antt =====
-- Where the packets are that were pushed into the pipeline of dispatcher and thread pool.
use minimal_sip_proxy_sip_cl.Base.{
  ℕ, zero, suc, ◌≡◌, refl, true, false, some, List, [], ◌∷◌, ◌++◌, append_assoc, ◌⊎◌, inl, inr,
  Option-cases, Bool-cases, arith,
}
use mathlib.Core.Path.{subst}
use minimal_sip_proxy_sip_cl.Networking.Queue.{Queue, push, pop, waits, closed, got}
use minimal_sip_proxy_sip_cl.Networking.Pipeline.{
  Phase, idle, waiting, finished, holding, admitted, Pipeline, new_pipeline, Action, start,
  stop_dispatcher, shutdown, dispatch, work, push_packet, loop, worker_loop, start_thread, step,
  run,
}

module _ {A : Type 0} where
  -- The packet that `enqueue` has admitted, and the one that it has not seen yet.
  abbrev pub admitted_packet : Phase A → List A
  admitted_packet (admitted x) = x ∷ []
  admitted_packet _ = []

  abbrev pub held_packet : Phase A → List A
  held_packet (holding x) = x ∷ []
  held_packet _ = []

  -- The packets behind the workers' queue, in the order in which they were pushed.
  abbrev pub behind : Pipeline A → List A
  behind s = admitted_packet s.phase ++ (s.dropped ++ (held_packet s.phase ++ s.queue.items))

  pub record Flow (s : Pipeline A) : Type 0 where
    pub order : s.pushed ≡ s.handled ++ (s.tasks.items ++ behind s)
    pub kept : s.pool_running ≡ true → s.dropped ≡ []
    pub last : (admitted_packet s.phase ≡ []) ⊎ (s.dropped ≡ [])

  pub Popped-cases :
      (q : Queue A)
      → ((pop q ≡ waits) ⊎ (pop q ≡ closed))
        ⊎ ((x : A) × (rest : Queue A) × (pop q ≡ got x rest) × (q.items ≡ x ∷ rest.items))
  unfolding pop
  Popped-cases q = ground arith

  take-Flow :
      (s : Pipeline A) (x : A) (rest : Queue A)
      → s.phase ≡ waiting
      → s.queue.items ≡ x ∷ rest.items
      → Flow s
      → Flow (record s { queue = rest; phase = holding x })
  take-Flow s x rest e q f = record { order = rw (e, q) at f.order; kept = f.kept; last = inl refl }

  finish-Flow : (s : Pipeline A) → s.phase ≡ waiting → Flow s → Flow (record s { phase = finished })
  finish-Flow s e f = record { order = rw e at f.order; kept = f.kept; last = inl refl }

  admit-Flow :
      (s : Pipeline A) (x : A)
      → s.phase ≡ holding x
      → s.dropped ≡ []
      → Flow s
      → Flow (record s { phase = admitted x })
  admit-Flow s x e d f = record { order = rw d (rw (e, d) at f.order); kept = f.kept; last = inr d }

  drop-Flow :
      (s : Pipeline A) (x : A)
      → s.phase ≡ holding x
      → s.pool_running ≡ false
      → Flow s
      → Flow (record s { phase = waiting; dropped = s.dropped ++ x ∷ [] })
  drop-Flow s x e r f = record {
    order = rw append_assoc (rw e at f.order);
    kept = cc;
    last = inl refl;
  }

  put-Flow :
      (s : Pipeline A) (x : A)
      → s.phase ≡ admitted x
      → Flow s
      → Flow (record s { tasks = push s.tasks x; phase = waiting })
  put-Flow s x e f = record {
    order = rw append_assoc (rw e at f.order);
    kept = f.kept;
    last = inl refl;
  }

  work-Flow :
      (s : Pipeline A) (x : A) (rest : Queue A)
      → s.tasks.items ≡ x ∷ rest.items
      → Flow s
      → Flow (record s { tasks = rest; handled = s.handled ++ x ∷ [] })
  work-Flow s x rest e f = record {
    order = rw append_assoc (rw e at f.order);
    kept = f.kept;
    last = f.last;
  }

  push-Flow :
      (s : Pipeline A) (x : A)
      → Flow s
      → Flow (record s { queue = push s.queue x; pushed = s.pushed ++ x ∷ [] })
  push-Flow s x f = record { order = rw f.order (simp append_assoc); kept = f.kept; last = f.last }

  -- The steps of the threads, for whatever they find.
  moved : {t s' : Pipeline A} → some t ≡ some s' → Flow t → Flow s'
  moved h f = subst Flow (cc) f

  loop-Flow :
      (s s' : Pipeline A) (p : Phase A) → s.phase ≡ p → Flow s → loop s p ≡ some s' → Flow s'
  unfolding loop
  loop-Flow s s' idle e f h = cc
  loop-Flow s s' finished e f h = cc
  loop-Flow s s' (admitted x) e f h = moved h (put-Flow s x e f)
  loop-Flow s s' (holding x) e f h = elim (Bool-cases s.pool_running) [
    | inl on ↦ moved (ground arith) (admit-Flow s x e (f.kept on) f)
    | inr off ↦ moved (ground arith) (drop-Flow s x e off f)
  ]
  loop-Flow s s' waiting e f h = elim (Popped-cases s.queue) [
    | inl (inl none_yet) ↦ cc
    | inl (inr over) ↦ moved (rw over at h) (finish-Flow s e f)
    | inr (x, rest, some_left, items) ↦ moved (rw some_left at h) (take-Flow s x rest e items f)
  ]

  worker_loop-Flow : (s s' : Pipeline A) (n : ℕ) → Flow s → worker_loop s n ≡ some s' → Flow s'
  unfolding worker_loop
  worker_loop-Flow s s' zero f h = cc
  worker_loop-Flow s s' (suc n) f h = elim (Popped-cases s.tasks) [
    | inl (inl none_yet) ↦ cc
    | inl (inr over) ↦
        moved (rw over at h) (record { order = f.order; kept = f.kept; last = f.last })
    | inr (x, rest, some_left, items) ↦ moved (rw some_left at h) (work-Flow s x rest items f)
  ]

  start-Flow :
      (s s' : Pipeline A) (p : Phase A)
      → s.phase ≡ p
      → Flow s
      → start_thread s p ≡ some s'
      → Flow s'
  unfolding start_thread
  start-Flow s s' idle e f h =
      moved h (record { order = rw e at f.order; kept = f.kept; last = inl refl })
  start-Flow s s' finished e f h =
      moved h (record { order = rw e at f.order; kept = f.kept; last = inl refl })
  start-Flow s s' waiting e f h = cc
  start-Flow s s' (holding x) e f h = cc
  start-Flow s s' (admitted x) e f h = cc

  step-Flow : (s s' : Pipeline A) (a : Action A) → Flow s → step s a ≡ some s' → Flow s'
  unfolding step
  step-Flow s s' start f h = elim (Bool-cases s.dispatcher_running) [
    | inl on ↦ moved (rw on at h) (record { order = f.order; kept = f.kept; last = f.last })
    | inr off ↦ start-Flow s s' s.phase refl f (rw off at h)
  ]
  step-Flow s s' stop_dispatcher f h =
      moved h (record { order = f.order; kept = f.kept; last = f.last })
  step-Flow s s' shutdown f h = moved h (record { order = f.order; kept = cc; last = f.last })
  step-Flow s s' dispatch f h = loop-Flow s s' s.phase refl f h
  step-Flow s s' work f h = worker_loop-Flow s s' s.workers f h
  step-Flow s s' (push_packet x) f h = moved h (push-Flow s x f)

  pub run_from-Flow :
      (s s' : Pipeline A) (actions : List (Action A)) → Flow s → run s actions ≡ some s' → Flow s'
  unfolding run
  run_from-Flow s s' [] f h = moved h f
  run_from-Flow s s' (a ∷ rest) f h = elim (Option-cases (step s a)) [
    | inl stuck ↦ cc
    | inr (t, e) ↦ run_from-Flow t s' rest (step-Flow s t a f e) (rw (run, e) at h)
  ]

  -- In every state that the threads can bring about, in any interleaving of their steps, the
  -- packets that were pushed are, in this order and each exactly once: those that the workers have
  -- taken, the tasks that wait, the one that is admitted, those that were not admitted, the one
  -- that the dispatcher holds, and those in its queue. As long as the pool runs, all are admitted.
  pub run-Flow :
      (num_threads : ℕ) (actions : List (Action A)) (s : Pipeline A)
      → run (new_pipeline num_threads) actions ≡ some s
      → Flow s
  run-Flow n actions s h =
      run_from-Flow (new_pipeline n) s actions
        (record { order = refl; kept = λ _. refl; last = inl refl }) h
