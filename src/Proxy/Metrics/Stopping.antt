-- ===== src/Proxy/Metrics/Stopping.antt =====
-- What MetricsServer::stop of proxy/src/metrics_server.cpp waits for.
use minimal_sip_proxy_sip_cl.Base.{
  ℕ, ◌+◌, ◌≡◌, refl, ap, true, false, none, some, List, [], ◌∷◌, ◌++◌, Option, Option-cases, inl,
  inr, arith,
}
use mathlib.Core.Path.{subst}
use minimal_sip_proxy_sip_cl.Proxy.Metrics.{MetricsCollector}
use minimal_sip_proxy_sip_cl.Proxy.Metrics.Report.{metrics_response}
use minimal_sip_proxy_sip_cl.Proxy.Metrics.Server.{
  ServerThread, no_thread, setting_up, testing, accepting, over, MetricsServer, stop_server, join,
  Event, set_up, test, accepted, server_loop, Action, start, stop, join_thread, thread, step, run,
  accepts, in_accept, NoStart,
}

-- The thread was told to end, and has `n` returns of accept on the way from `t`.
record Ending (n : ℕ) (t : ServerThread) (s' : MetricsServer) : Type 0 where
  told : s'.running ≡ false
  count : n + in_accept s'.server_thread ≡ in_accept t

moved {ℓ} : (P : MetricsServer → Type ℓ) {t s' : MetricsServer} → some t ≡ some s' → P t → P s'
moved P h p = subst P (cc) p

loop-Ending :
    (s s' : MetricsServer) (t : ServerThread) (e : Event)
    → s.running ≡ false
    → server_loop s t e ≡ some s'
    → Ending (accepts (thread e ∷ [])) t s'
unfolding server_loop
loop-Ending s s' setting_up (set_up true true) off h =
    moved (Ending 0 setting_up) h (record { told = off; count = refl })
loop-Ending s s' setting_up (set_up true false) off h =
    moved (Ending 0 setting_up) h (record { told = off; count = refl })
loop-Ending s s' setting_up (set_up false l) off h =
    moved (Ending 0 setting_up) h (record { told = off; count = refl })
loop-Ending s s' testing test off h =
    moved (Ending 0 testing) (rw off at h) (record { told = refl; count = refl })
loop-Ending s s' accepting (accepted none c) off h =
    moved (Ending 1 accepting) h (record { told = off; count = refl })
loop-Ending s s' accepting (accepted (some fd) c) off h =
    moved (Ending 1 accepting) h (record { told = off; count = refl })
loop-Ending s s' t e off h = absurd (cc h)

join-Ending :
    (s s' : MetricsServer) (t : ServerThread)
    → s.running ≡ false
    → s.server_thread ≡ t
    → join s t ≡ some s'
    → Ending 0 t s'
unfolding join
join-Ending s s' over off at_t h = moved (Ending 0 over) h (record { told = off; count = refl })
join-Ending s s' no_thread off at_t h =
    moved (Ending 0 no_thread) h (record { told = off; count = omega (arith, ap in_accept at_t) })
join-Ending s s' t off at_t h = absurd (cc h)

more :
    (e : Event) (rest : List Action)
    → accepts (thread e ∷ rest) ≡ accepts (thread e ∷ []) + accepts rest
more (accepted client c) rest = omega arith
more (set_up b l) rest = omega arith
more test rest = omega arith

run-Ending :
    (s s' : MetricsServer) (actions : List Action)
    → NoStart actions
    → s.running ≡ false
    → run s actions ≡ some s'
    → Ending (accepts actions) s.server_thread s'
unfolding run step
run-Ending s s' [] allowed off h =
    moved (Ending 0 s.server_thread) h (record { told = off; count = omega arith })
run-Ending s s' (start ∷ rest) allowed off h = absurd allowed
run-Ending s s' (stop ∷ rest) allowed off h = run-Ending (stop_server s) s' rest allowed refl h
run-Ending s s' (join_thread ∷ rest) allowed off h = elim (Option-cases (join s s.server_thread)) [
  | inl waits ↦ absurd (cc (h, waits))
  | inr (t, e) ↦
      let first = join-Ending s t s.server_thread off refl e in
      let later = run-Ending t s' rest allowed first.told (rw (run, e) at h) in
      record { told = later.told; count = omega (arith, first.count, later.count) }
]
run-Ending s s' (thread a ∷ rest) allowed off h =
    elim (Option-cases (server_loop s s.server_thread a)) [
      | inl stuck ↦ absurd (cc (h, stuck))
      | inr (t, e) ↦
          let first = loop-Ending s t s.server_thread a off e in
          let later = run-Ending t s' rest allowed first.told (rw (run, e) at h) in
          record { told = later.told; count = omega (arith, more a rest, first.count, later.count) }
    ]

-- `stop` of the metrics server waits for a client. In whatever state it is called, as long as the
-- server is not started again, accept comes back exactly once more before the join if the thread was in
-- accept, and not at all if it was elsewhere.
pub stop_awaits_client :
    (s s' : MetricsServer) (actions : List Action)
    → NoStart actions
    → run s (stop ∷ actions) ≡ some s'
    → s'.server_thread ≡ no_thread
    → accepts actions ≡ in_accept s.server_thread
unfolding run step
stop_awaits_client s s' actions allowed h joined =
    let ending = run-Ending (stop_server s) s' actions allowed refl h in
    omega (arith, ap in_accept joined, ending.count)

-- A server that waits in accept ends once a client has come, or accept has failed.
pub stop_ends :
    (s : MetricsServer) (client : Option ℕ) (c : MetricsCollector)
    → s.server_thread ≡ accepting
    → (s' : MetricsServer) × (run s
          (stop ∷ thread (accepted client c) ∷ thread test ∷ join_thread ∷ [])
        ≡ some s')
      × (s'.server_thread ≡ no_thread)
unfolding run step server_loop join
stop_ends s none c e = (record s { running = false; server_thread = no_thread }, rw e refl, refl)
stop_ends s (some fd) c e = (
  record s {
    running = false;
    server_thread = no_thread;
    answered = s.answered ++ (fd, metrics_response c) ∷ [];
    closed_clients = s.closed_clients ++ fd ∷ [];
  },
  rw e refl,
  refl,
)
