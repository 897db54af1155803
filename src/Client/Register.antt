-- ===== src/Client/Register.antt =====
-- client/src/sip_receive_handler.cpp and client/src/sip_register_handler.cpp. The packets that come
-- in while an attempt waits for its answer are given, as one list for each attempt; the REGISTER
-- itself, which the message factory builds, is given too.
pub mod Outcome
use minimal_sip_proxy_sip_cl.Base.{
  ℕ, zero, suc, ◌-◌, Bool, true, false, not, ◌&&◌, ◌||◌, List, [], ◌∷◌, Bytes, codes, contains, leb,
  map, if◌then◌else◌,
}
use minimal_sip_proxy_sip_cl.Client.State.{
  ClientStateManager, on_registering, on_register_success, on_register_failed,
}

pub record ReceiveHandler : Type 0 where
  pub register_response_received : Bool
  pub register_response : Bytes

-- ::toupper in the "C" locale
abbrev pub to_upper : ℕ → ℕ
to_upper c = if leb 97 c && leb c 122 then c - 32 else c

unfoldable pub is_register_reply : Bytes → Bool
is_register_reply text =
    let upper = map to_upper text in
    contains (codes "SIP/2.0") upper
    && (contains (codes "200 OK") upper || contains (codes "401") upper)
    && contains (codes "REGISTER") upper

unfoldable pub handle_receive : Bytes → ReceiveHandler → ReceiveHandler
handle_receive text h =
    if is_register_reply text
    then record { register_response_received = true; register_response = text }
    else h

abbrev pub reset : ReceiveHandler → ReceiveHandler
reset h = record { register_response_received = false; register_response = [] }

-- The handler when `wait_for_response` returns, after what came in.
unfoldable pub wait_for_response : List Bytes → ReceiveHandler → ReceiveHandler
wait_for_response [] h = h
wait_for_response (text ∷ arrived) h = wait_for_response arrived (handle_receive text h)

abbrev pub first_round : List (List Bytes) → List Bytes
first_round [] = []
first_round (r ∷ rs) = r

abbrev pub later_rounds : List (List Bytes) → List (List Bytes)
later_rounds [] = []
later_rounds (r ∷ rs) = rs

-- The loop, with the attempts that are left: what it sends, and the handler behind it.
unfoldable pub attempts :
    ℕ → Bytes → List (List Bytes) → ReceiveHandler → List Bytes × ReceiveHandler
attempts zero message rounds h = ([], h)
attempts (suc n) message rounds h =
    let h' = wait_for_response (first_round rounds) h in
    let rest = attempts n message (later_rounds rounds) h' in
    if h'.register_response_received then (message ∷ [], h') else (message ∷ rest.0, rest.1)

abbrev pub max_attempts : ℕ
max_attempts = 5

-- From the snapshot of the answer on.
unfoldable pub conclude : Bytes → Bytes → ReceiveHandler → ClientStateManager → ClientStateManager
conclude username domain h m =
    if not h.register_response_received
    then on_register_failed m
    else if contains (codes "SIP/2.0 200 OK") h.register_response
    then on_register_success username domain m
    else if contains (codes "SIP/2.0 401") h.register_response
    then on_register_failed m
    else on_register_failed m

-- What is sent, the state and the handler after the call.
unfoldable pub handle_register :
    Bytes
    → Bytes
    → Bytes
    → List (List Bytes)
    → ClientStateManager
    → ReceiveHandler
    → List Bytes × ClientStateManager × ReceiveHandler
handle_register username domain message rounds m h =
    let tried = attempts max_attempts message rounds (reset h) in
    (tried.0, conclude username domain tried.1 (on_registering m), tried.1)
