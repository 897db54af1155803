-- ===== src/Networking/Pipeline/Stopping.antt =====
-- The end of the pipeline, in the order of SIPProxy::stop of proxy/src/sip_proxy.cpp: the transports
-- push no more, the dispatcher is stopped and its thread joined, which waits for it to finish, and
-- then the pool is shut down and its workers joined.
use minimal_sip_proxy_sip_cl.Base.{
  ℕ, zero, suc, ◌≡◌, true, false, some, List, [], ◌∷◌, Option-cases, inl, inr, arith, Bool-cases,
}
use mathlib.Core.Path.{subst}
use minimal_sip_proxy_sip_cl.Networking.Queue.{Queue, pop, closed}
use minimal_sip_proxy_sip_cl.Networking.Pipeline.{
  Phase, idle, waiting, finished, holding, admitted, Pipeline, Action, start, stop_dispatcher,
  shutdown, dispatch, work, push_packet, loop, worker_loop, start_thread, step, run,
}
use minimal_sip_proxy_sip_cl.Networking.Pipeline.Flow.{Popped-cases}
use minimal_sip_proxy_sip_cl.Networking.Pipeline.Progress.{ByThreads}

module _ {A : Type 0} where
  abbrev pub NoShutdown : List (Action A) → Type 0
  NoShutdown [] = Unit {0}
  NoShutdown (shutdown ∷ rest) = ⊥
  NoShutdown (start ∷ rest) = NoShutdown rest
  NoShutdown (stop_dispatcher ∷ rest) = NoShutdown rest
  NoShutdown (dispatch ∷ rest) = NoShutdown rest
  NoShutdown (work ∷ rest) = NoShutdown rest
  NoShutdown (push_packet x ∷ rest) = NoShutdown rest

  abbrev pub OnlyWork : List (Action A) → Type 0
  OnlyWork [] = Unit {0}
  OnlyWork (work ∷ rest) = OnlyWork rest
  OnlyWork (a ∷ rest) = ⊥

  -- The pool takes tasks, and no worker has ended.
  pub record IsOpen (n : ℕ) (s : Pipeline A) : Type 0 where
    pub running : s.pool_running ≡ true
    pub taking : s.tasks.stopped ≡ false
    pub full : s.workers ≡ n

  pub moved {ℓ} : (P : Pipeline A → Type ℓ) {t s' : Pipeline A} → some t ≡ some s' → P t → P s'
  moved P h p = subst P (cc) p

  loop-IsOpen :
      (n : ℕ) (s s' : Pipeline A) (p : Phase A) → IsOpen n s → loop s p ≡ some s' → IsOpen n s'
  unfolding loop pop
  loop-IsOpen n s s' idle o h = cc
  loop-IsOpen n s s' finished o h = cc
  loop-IsOpen n s s' (admitted x) o h = ground arith
  loop-IsOpen n s s' (holding x) o h = ground arith
  loop-IsOpen n s s' waiting o h = ground arith

  worker_loop-IsOpen :
      (n : ℕ) (s s' : Pipeline A) (k : ℕ) → IsOpen n s → worker_loop s k ≡ some s' → IsOpen n s'
  unfolding worker_loop pop
  worker_loop-IsOpen n s s' zero o h = cc
  worker_loop-IsOpen n s s' (suc k) o h = ground arith

  start-IsOpen :
      (n : ℕ) (s s' : Pipeline A) (p : Phase A)
      → IsOpen n s
      → start_thread s p ≡ some s'
      → IsOpen n s'
  unfolding start_thread
  start-IsOpen n s s' idle o h = ground arith
  start-IsOpen n s s' finished o h = ground arith
  start-IsOpen n s s' waiting o h = cc
  start-IsOpen n s s' (holding x) o h = cc
  start-IsOpen n s s' (admitted x) o h = cc

  step-IsOpen :
      (n : ℕ) (s s' : Pipeline A) (a : Action A)
      → NoShutdown (a ∷ [])
      → IsOpen n s
      → step s a ≡ some s'
      → IsOpen n s'
  unfolding step
  step-IsOpen n s s' start ok_action o h = elim (Bool-cases s.dispatcher_running) [
    | inl on ↦
        moved (IsOpen n) (rw on at h)
          (record { running = o.running; taking = o.taking; full = o.full })
    | inr off ↦ start-IsOpen n s s' s.phase o (rw off at h)
  ]
  step-IsOpen n s s' stop_dispatcher ok_action o h = ground arith
  step-IsOpen n s s' shutdown ok_action o h = absurd ok_action
  step-IsOpen n s s' dispatch ok_action o h = loop-IsOpen n s s' s.phase o h
  step-IsOpen n s s' work ok_action o h = worker_loop-IsOpen n s s' s.workers o h
  step-IsOpen n s s' (push_packet x) ok_action o h = ground arith

  first_allowed :
      (a : Action A) (rest : List (Action A))
      → NoShutdown (a ∷ rest)
      → NoShutdown (a ∷ []) × NoShutdown rest
  first_allowed start rest h = (tt, h)
  first_allowed stop_dispatcher rest h = (tt, h)
  first_allowed shutdown rest h = absurd h
  first_allowed dispatch rest h = (tt, h)
  first_allowed work rest h = (tt, h)
  first_allowed (push_packet x) rest h = (tt, h)

  pub run-IsOpen :
      (n : ℕ) (s s' : Pipeline A) (actions : List (Action A))
      → NoShutdown actions
      → IsOpen n s
      → run s actions ≡ some s'
      → IsOpen n s'
  unfolding run
  run-IsOpen n s s' [] allowed o h = moved (IsOpen n) h o
  run-IsOpen n s s' (a ∷ rest) allowed o h = elim (Option-cases (step s a)) [
    | inl stuck ↦ cc
    | inr (t, e) ↦
        let (here, later) = first_allowed a rest allowed in
        run-IsOpen n t s' rest later (step-IsOpen n s t a here o e) (rw (run, e) at h)
  ]

  pub threads_allowed : (actions : List (Action A)) → ByThreads actions → NoShutdown actions
  threads_allowed [] h = tt
  threads_allowed (dispatch ∷ rest) h = threads_allowed rest h
  threads_allowed (work ∷ rest) h = threads_allowed rest h
  threads_allowed (start ∷ rest) h = absurd h
  threads_allowed (stop_dispatcher ∷ rest) h = absurd h
  threads_allowed (shutdown ∷ rest) h = absurd h
  threads_allowed (push_packet x ∷ rest) h = absurd h

  pub closed_empty : (q : Queue A) → pop q ≡ closed → q.items ≡ []
  unfolding pop
  closed_empty q h = ground arith

  -- The dispatcher has finished only with its queue empty, and these packets were pushed.
  pub record IsDraining (pushed : List A) (s : Pipeline A) : Type 0 where
    pub empty : s.phase ≡ finished → s.queue.items ≡ []
    pub same : s.pushed ≡ pushed

  loop-IsDraining :
      (ps : List A) (s s' : Pipeline A) (p : Phase A)
      → IsDraining ps s
      → loop s p ≡ some s'
      → IsDraining ps s'
  unfolding loop pop
  loop-IsDraining ps s s' idle d h = cc
  loop-IsDraining ps s s' finished d h = cc
  loop-IsDraining ps s s' (admitted x) d h =
      moved (IsDraining ps) h (record { empty = λ e. absurd (cc e); same = d.same })
  loop-IsDraining ps s s' (holding x) d h = elim (Bool-cases s.pool_running) [
    | inl on ↦
        moved (IsDraining ps) (rw on at h) (record { empty = λ e. absurd (cc e); same = d.same })
    | inr off ↦
        moved (IsDraining ps) (rw off at h) (record { empty = λ e. absurd (cc e); same = d.same })
  ]
  loop-IsDraining ps s s' waiting d h = elim (Popped-cases s.queue) [
    | inl (inl none_yet) ↦ cc
    | inl (inr over) ↦
        moved (IsDraining ps) (rw over at h)
          (record { empty = λ _. closed_empty s.queue over; same = d.same })
    | inr (x, rest, some_left, items) ↦
        moved (IsDraining ps) (rw some_left at h)
          (record { empty = λ e. absurd (cc e); same = d.same })
  ]

  work-IsDraining :
      (ps : List A) (s s' : Pipeline A) (k : ℕ)
      → IsDraining ps s
      → worker_loop s k ≡ some s'
      → IsDraining ps s'
  unfolding worker_loop pop
  work-IsDraining ps s s' zero d h = cc
  work-IsDraining ps s s' (suc k) d h = elim (Popped-cases s.tasks) [
    | inl (inl none_yet) ↦ cc
    | inl (inr over) ↦
        moved (IsDraining ps) (rw over at h) (record { empty = d.empty; same = d.same })
    | inr (x, rest, some_left, items) ↦
        moved (IsDraining ps) (rw some_left at h) (record { empty = d.empty; same = d.same })
  ]

  pub run-IsDraining :
      (ps : List A) (s s' : Pipeline A) (actions : List (Action A))
      → ByThreads actions
      → IsDraining ps s
      → run s actions ≡ some s'
      → IsDraining ps s'
  unfolding run step
  run-IsDraining ps s s' [] threads d h = moved (IsDraining ps) h d
  run-IsDraining ps s s' (dispatch ∷ rest) threads d h = elim (Option-cases (loop s s.phase)) [
    | inl stuck ↦ cc
    | inr (t, e) ↦
        run-IsDraining ps t s' rest threads (loop-IsDraining ps s t s.phase d e) (rw (run, e) at h)
  ]
  run-IsDraining ps s s' (work ∷ rest) threads d h = elim (Option-cases (worker_loop s s.workers)) [
    | inl stuck ↦ cc
    | inr (t, e) ↦
        run-IsDraining ps t s' rest threads (work-IsDraining ps s t s.workers d e)
          (rw (run, e) at h)
  ]
  run-IsDraining ps s s' (start ∷ rest) threads d h = absurd threads
  run-IsDraining ps s s' (stop_dispatcher ∷ rest) threads d h = absurd threads
  run-IsDraining ps s s' (shutdown ∷ rest) threads d h = absurd threads
  run-IsDraining ps s s' (push_packet x ∷ rest) threads d h = absurd threads
