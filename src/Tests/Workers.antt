-- ===== src/Tests/Workers.antt =====
-- Tests of the queue, the dispatcher and the thread pool.
use minimal_sip_proxy_sip_cl.Base.{ℕ, ◌≡◌, refl, some, [], ◌∷◌, List, true, false}
use minimal_sip_proxy_sip_cl.Networking.Queue.{Queue, pop}
use minimal_sip_proxy_sip_cl.Networking.Pipeline.{
  Pipeline, new_pipeline, Action, start, stop_dispatcher, shutdown, dispatch, work, push_packet,
  loop, worker_loop, start_thread, step, run, waiting, finished,
}
use minimal_sip_proxy_sip_cl.Networking.Pipeline.Flow.{Flow, run-Flow}
use minimal_sip_proxy_sip_cl.Networking.Pipeline.Progress.{ByThreads}
use minimal_sip_proxy_sip_cl.Networking.Pipeline.Stopping.{OnlyWork}
use minimal_sip_proxy_sip_cl.Networking.Pipeline.Stopped.{stop_loses_nothing}
use minimal_sip_proxy_sip_cl.Networking.Pipeline.Completes.{stop_completes}

abbrev two_packets : Queue ℕ
two_packets = record { items = 7 ∷ 8 ∷ []; stopped = false }

-- A packet goes through, one is handed to the pool, and one comes too late for the pool.
abbrev actions : List (Action ℕ)
actions =
    start
    ∷ push_packet 1
    ∷ push_packet 2
    ∷ dispatch
    ∷ dispatch
    ∷ push_packet 3
    ∷ dispatch
    ∷ work
    ∷ dispatch
    ∷ dispatch
    ∷ dispatch
    ∷ dispatch
    ∷ shutdown
    ∷ dispatch
    ∷ []

abbrev after_actions : Pipeline ℕ
after_actions = record (new_pipeline 2) {
  dispatcher_running = true;
  phase = waiting;
  tasks = record { items = 2 ∷ []; stopped = true };
  pool_running = false;
  pushed = 1 ∷ 2 ∷ 3 ∷ [];
  handled = 1 ∷ [];
  dropped = 3 ∷ [];
}

run_test : run (new_pipeline 2) actions ≡ some after_actions
unfolding run step loop worker_loop start_thread pop
run_test = refl

run-Flow_example : Flow after_actions
run-Flow_example = run-Flow 2 actions after_actions run_test

-- Two packets that nobody has looked at yet.
abbrev waiting_packets : Pipeline ℕ
waiting_packets = record (new_pipeline 2) {
  queue = two_packets;
  dispatcher_running = true;
  phase = waiting;
  pushed = 7 ∷ 8 ∷ [];
}

push_test : run (new_pipeline 2) (start ∷ push_packet 7 ∷ push_packet 8 ∷ []) ≡ some waiting_packets
unfolding run step start_thread
push_test = refl

-- The packets are handed over while the proxy stops.
abbrev draining : List (Action ℕ)
draining = dispatch ∷ dispatch ∷ dispatch ∷ work ∷ dispatch ∷ dispatch ∷ dispatch ∷ dispatch ∷ []

abbrev drained : Pipeline ℕ
drained = record (new_pipeline 2) {
  queue = record { items = []; stopped = true };
  phase = finished;
  tasks = record { items = 8 ∷ []; stopped = false };
  pushed = 7 ∷ 8 ∷ [];
  handled = 7 ∷ [];
}

abbrev ended : Pipeline ℕ
ended = record drained {
  tasks = record { items = []; stopped = true };
  pool_running = false;
  workers = 0;
  handled = 7 ∷ 8 ∷ [];
}

drain_test : run waiting_packets (stop_dispatcher ∷ draining) ≡ some drained
unfolding run step loop worker_loop pop
drain_test = refl

end_test : run drained (shutdown ∷ work ∷ work ∷ work ∷ []) ≡ some ended
unfolding run step worker_loop pop
end_test = refl

stop_loses_nothing_example : 7 ∷ 8 ∷ [] ≡ waiting_packets.pushed
stop_loses_nothing_example =
    stop_loses_nothing 1 (start ∷ push_packet 7 ∷ push_packet 8 ∷ []) draining
      (work ∷ work ∷ work ∷ []) waiting_packets drained ended tt push_test (λ e. absurd (cc e)) tt
      drain_test refl tt end_test refl

stop_completes_example :
    (draining finishing : List (Action ℕ)) × (t u : Pipeline ℕ) × ByThreads draining
    × (run waiting_packets (stop_dispatcher ∷ draining) ≡ some t)
    × (t.phase ≡ finished)
    × OnlyWork finishing
    × (run t (shutdown ∷ finishing) ≡ some u)
    × (u.workers ≡ 0)
    × (u.handled ≡ waiting_packets.pushed)
stop_completes_example =
    stop_completes 1 (start ∷ push_packet 7 ∷ push_packet 8 ∷ []) waiting_packets tt push_test refl
