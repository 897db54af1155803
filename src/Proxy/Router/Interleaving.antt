-- ===== src/Proxy/Router/Interleaving.antt =====
-- The messages of one call among those of others.
use minimal_sip_proxy_sip_cl.Base.{
  ◌≡◌, refl, sym, ap, ◌∙◌, true, false, Bool, List, [], ◌∷◌, arith, Bytes, codes, str_eq,
  str_eq_iff, if◌then◌else◌, Result, ok, err, bind-ok, Bool-cases, inl, inr, ◌>>=◌,
}
use mathlib.Core.Path.{subst}
use minimal_sip_proxy_sip_cl.Sip.Message.{get_method}
use minimal_sip_proxy_sip_cl.Proxy.Router.Helpers.{SipRouter, RoutingResult}
use minimal_sip_proxy_sip_cl.Proxy.Router.Route.{route}
use minimal_sip_proxy_sip_cl.Proxy.Router.Invite.{call_id_of}
use minimal_sip_proxy_sip_cl.Proxy.Router.Frame.{SameCall, route-SameCall}
use minimal_sip_proxy_sip_cl.Proxy.Router.Settings.{route-SameSettings}
use minimal_sip_proxy_sip_cl.Proxy.Router.Agreement.{Agree, SameRun}
use minimal_sip_proxy_sip_cl.Proxy.Router.InviteAgreement.{SameOutcome, route-SameOutcome}
use minimal_sip_proxy_sip_cl.Proxy.Router.Conversation.{Arrival, serve}

abbrev pub belongs : Bytes → Arrival → Bool
belongs id a = str_eq id (call_id_of a.message)

-- The messages of a call, and the results that they got.
abbrev pub of_call : Bytes → List Arrival → List Arrival
of_call id [] = []
of_call id (a ∷ arrived) = let rest = of_call id arrived in if belongs id a then a ∷ rest else rest

abbrev pub results_of : Bytes → List Arrival → List RoutingResult → List RoutingResult
results_of id (a ∷ arrived) (x ∷ results) =
    let rest = results_of id arrived results in if belongs id a then x ∷ rest else rest
results_of id _ _ = []

abbrev pub NoRegister : List Arrival → Type 0
NoRegister [] = Unit {0}
NoRegister (a ∷ arrived) =
    (str_eq (get_method a.message) (codes "REGISTER") ≡ false) × NoRegister arrived

-- The run of a handler that agrees with one that returns.
outcome_ok :
    (id : Bytes) (x : RoutingResult × SipRouter) (other : Result (RoutingResult × SipRouter))
    → SameOutcome id (ok x) other
    → (y : RoutingResult × SipRouter) × (other ≡ ok y) × SameRun id x y
outcome_ok id x (ok y) h = (y, refl, h)
outcome_ok id x (err e) h = absurd h

module _ (id : Bytes) where
  -- A message of the call, and one of another call, on states that agree on the call.
  own_step :
      (a : Arrival) (r q r' : SipRouter) (x : RoutingResult)
      → str_eq (get_method a.message) (codes "REGISTER") ≡ false
      → id ≡ call_id_of a.message
      → Agree id r q
      → route r a.message a.ip a.port a.transport ≡ ok (x, r')
      → (q' : SipRouter) × (route q a.message a.ip a.port a.transport ≡ ok (x, q')) × Agree id r' q'
  own_step a r q r' x other e agree h =
      let same =
        route-SameOutcome r q a.message a.ip a.port a.transport (subst (λ k. Agree k r q) e agree)
          other in
      let (y, done, run) = outcome_ok (call_id_of a.message) (x, r') _ (rw h at same) in
      (y.1, done ∙ ap (λ z. ok (z, y.1)) (sym run.0), subst (λ k. Agree k r' y.1) (sym e) run.1)

  other_step :
      (a : Arrival) (r q r' : SipRouter) (x : RoutingResult)
      → str_eq (get_method a.message) (codes "REGISTER") ≡ false
      → str_eq id (call_id_of a.message) ≡ false
      → Agree id r q
      → route r a.message a.ip a.port a.transport ≡ ok (x, r')
      → Agree id r' q
  other_step a r q r' x other e agree h =
      let settings = route-SameSettings r r' a.message a.ip a.port a.transport x other h in
      let same =
        route-SameCall r r' a.message a.ip a.port a.transport x id
          (ground (arith, str_eq_iff id (call_id_of a.message))) h in
      record {
        table = settings.table ∙ agree.table;
        udp_port = settings.udp_port ∙ agree.udp_port;
        tcp_port = settings.tcp_port ∙ agree.tcp_port;
        session = same.session ∙ agree.session;
        context = same.context ∙ agree.context;
      }

  -- The messages of the call alone, from a state that agrees, have the same results.
  abbrev Alone : List Arrival → SipRouter → List RoutingResult × SipRouter → Type 0
  Alone arrived q z =
      (q' : SipRouter) × (serve (of_call id arrived) q ≡ ok (results_of id arrived z.0, q'))
      × Agree id z.1 q'

  own_first :
      (a : Arrival) (arrived : List Arrival) (q q1 : SipRouter) (x : RoutingResult)
      (rest : List RoutingResult × SipRouter)
      → belongs id a ≡ true
      → route q a.message a.ip a.port a.transport ≡ ok (x, q1)
      → Alone arrived q1 rest
      → Alone (a ∷ arrived) q (x ∷ rest.0, rest.1)
  unfolding serve
  own_first a arrived q q1 x rest e went (q', done, agree) =
      rw e (q', rw (went, ◌>>=◌) (rw (done, ◌>>=◌) refl), agree)

  other_first :
      (a : Arrival) (arrived : List Arrival) (q : SipRouter) (x : RoutingResult)
      (rest : List RoutingResult × SipRouter)
      → belongs id a ≡ false
      → Alone arrived q rest
      → Alone (a ∷ arrived) q (x ∷ rest.0, rest.1)
  other_first a arrived q x rest e alone = rw e alone

  interleaved :
      (arrived : List Arrival) (r q r' : SipRouter) (results : List RoutingResult)
      → NoRegister arrived
      → Agree id r q
      → serve arrived r ≡ ok (results, r')
      → Alone arrived q (results, r')
  unfolding serve
  interleaved [] r q r' results none_registers agree h =
      subst (Alone [] q) {x = ([], r)} {y = (results, r')} (cc h) (q, refl, agree)
  interleaved (a ∷ arrived) r q r' results (plain, later) agree h =
      let (one, first, h1) =
        bind-ok (route r a.message a.ip a.port a.transport) _ (results, r') h in
      let (rest, served, h2) = bind-ok (serve arrived one.1) _ (results, r') h1 in
      subst (Alone (a ∷ arrived) q) {x = (one.0 ∷ rest.0, rest.1)} {y = (results, r')} (cc h2)
        (elim (Bool-cases (belongs id a)) [
          | inl e ↦
              let (q1, went, agree1) =
                own_step a r q one.1 one.0 plain ((str_eq_iff _ _).0 e) agree first in
              own_first a arrived q q1 one.0 rest e went
                (interleaved arrived one.1 q1 rest.1 rest.0 later agree1 served)
          | inr e ↦ other_first a arrived q one.0 rest e (
              interleaved arrived one.1 q rest.1 rest.0 later
                (other_step a r q one.1 one.0 plain e agree first) served)
        ])

-- Where messages of several calls, none of them a REGISTER, are routed in any order, each call gets
-- the results that its messages get when they come alone, from the same state, and is left with the
-- session and the context that they leave it with.
pub calls_apart :
    (arrived : List Arrival) (r r' : SipRouter) (results : List RoutingResult) (id : Bytes)
    → NoRegister arrived
    → serve arrived r ≡ ok (results, r')
    → (q' : SipRouter) × (serve (of_call id arrived) r ≡ ok (results_of id arrived results, q'))
      × SameCall id q' r'
calls_apart arrived r r' results id plain h =
    let (q', done, agree) =
      interleaved id arrived r r r' results plain
        (record { table = refl; udp_port = refl; tcp_port = refl; session = refl; context = refl })
        h in
    (q', done, record { session = agree.session; context = agree.context })
