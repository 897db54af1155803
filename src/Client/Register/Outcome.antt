-- ===== src/Client/Register/Outcome.antt =====
-- How a registration ends, told from the packets that come in.
use minimal_sip_proxy_sip_cl.Base.{
  ℕ, zero, suc, ◌≡◌, refl, true, false, Option, none, some, List, [], ◌∷◌, Bytes, codes, contains,
  if◌then◌else◌, Bool-cases, Option-cases, inl, inr,
}
use minimal_sip_proxy_sip_cl.Client.State.{
  State, registered, failed, ClientStateManager, on_registering,
}
use minimal_sip_proxy_sip_cl.Client.State.Outcomes.{state-transition_to}
use minimal_sip_proxy_sip_cl.Client.Register.{
  ReceiveHandler, is_register_reply, handle_receive, wait_for_response, first_round, later_rounds,
  attempts, conclude, handle_register,
}

-- The last reply to a REGISTER among what came in.
abbrev pub last_reply : Option Bytes → List Bytes → Option Bytes
last_reply found [] = found
last_reply found (text ∷ arrived) =
    last_reply (if is_register_reply text then some text else found) arrived

-- How many times the REGISTER is sent within so many attempts, and the reply that it gets: it is
-- sent until a round brings a reply.
abbrev pub exchange : ℕ → List (List Bytes) → ℕ × Option Bytes
exchange zero rounds = (0, none)
exchange (suc n) rounds =
    let rest = exchange n (later_rounds rounds) in
    elim (last_reply none (first_round rounds)) [
      | none ↦ (suc rest.0, rest.1)
      | some text ↦ (1, some text)
    ]

abbrev pub repeat : ℕ → Bytes → List Bytes
repeat zero x = []
repeat (suc n) x = x ∷ repeat n x

-- The handler that holds this reply.
abbrev pub holds : Option Bytes → ReceiveHandler
holds none = record { register_response_received = false; register_response = [] }
holds (some text) = record { register_response_received = true; register_response = text }

wait_for_response-holds :
    (arrived : List Bytes) (found : Option Bytes)
    → wait_for_response arrived (holds found) ≡ holds (last_reply found arrived)
unfolding wait_for_response handle_receive
wait_for_response-holds [] found = refl
wait_for_response-holds (text ∷ arrived) found = elim (Bool-cases (is_register_reply text)) [
  | inl reply ↦ rw reply (wait_for_response-holds arrived (some text))
  | inr other ↦ rw other (wait_for_response-holds arrived found)
]

pub attempts-exchange :
    (n : ℕ) (message : Bytes) (rounds : List (List Bytes))
    → attempts n message rounds (holds none)
      ≡ (repeat (exchange n rounds).0 message, holds (exchange n rounds).1)
unfolding attempts
attempts-exchange zero message rounds = refl
attempts-exchange (suc n) message rounds =
    rw (wait_for_response-holds (first_round rounds) none)
      (elim (Option-cases (last_reply none (first_round rounds))) [
        | inl silent ↦ rw (exchange, silent, attempts-exchange n message (later_rounds rounds)) refl
        | inr (text, reply) ↦ rw (exchange, reply) refl
      ])

-- The state that a reply leads to.
abbrev pub outcome : Option Bytes → State
outcome none = failed
outcome (some text) = if contains (codes "SIP/2.0 200 OK") text then registered else failed

pub state-conclude :
    (username domain : Bytes) (reply : Option Bytes) (m : ClientStateManager)
    → (conclude username domain (holds reply) m).state ≡ outcome reply
unfolding conclude
state-conclude username domain none m = state-transition_to failed m
state-conclude username domain (some text) m =
    elim (Bool-cases (contains (codes "SIP/2.0 200 OK") text)) [
      | inl good ↦ rw good (state-transition_to registered _)
      | inr bad ↦ elim (Bool-cases (contains (codes "SIP/2.0 401") text)) [
        | inl unauthorized ↦ rw (bad, unauthorized) (state-transition_to failed m)
        | inr unexpected ↦ rw (bad, unexpected) (state-transition_to failed m)
      ]
    ]

-- A REGISTER is sent until a reply to it comes in, at most five times; the client is registered
-- then if the reply holds "SIP/2.0 200 OK", and has failed if it does not or if there is none.
pub handle_register_lem :
    (username domain message : Bytes) (rounds : List (List Bytes)) (m : ClientStateManager)
    (h : ReceiveHandler)
    → let after = handle_register username domain message rounds m h in
      (after.0 ≡ repeat (exchange 5 rounds).0 message)
      × (after.1.state ≡ outcome (exchange 5 rounds).1)
      × (after.2 ≡ holds (exchange 5 rounds).1)
unfolding handle_register
handle_register_lem username domain message rounds m h =
    rw (attempts-exchange 5 message rounds)
      (refl, state-conclude username domain (exchange 5 rounds).1 (on_registering m), refl)
