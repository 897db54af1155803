-- ===== src/Apps/ClientMain.antt =====
-- apps/sip_client_main.cpp: the arguments, and the client that the console starts with. The
-- transport's port and the packets that arrive are given; the window of --ui sets its callbacks.
use minimal_sip_proxy_sip_cl.Base.{
  ℕ, suc, length, arith, ◌≡◌, Bool, true, false, not, ◌&&◌, ◌||◌, Option, none, some, List, [], ◌∷◌,
  ℤ, Bytes, codes, is_empty, str_eq, stoi, to_u16, if◌then◌else◌, Result, ok, err, ◌>>=◌, bind-ok,
  Result-cases, inl, inr, refl,
}
use minimal_sip_proxy_sip_cl.Client.Session.{SipClient, new_client}
use minimal_sip_proxy_sip_cl.Client.App.{
  start_transport, do_register, set_register_response_callback, set_call_state_callback,
  set_call_error_callback, set_incoming_call_callback,
}
use minimal_sip_proxy_sip_cl.Client.Console.{Given, run}
use minimal_sip_proxy_sip_cl.Client.Console.Ends.{run_ends}
use minimal_sip_proxy_sip_cl.Ui.Qt.{Qt}
use minimal_sip_proxy_sip_cl.Ui.Window.{new_window}
use minimal_sip_proxy_sip_cl.Ui.Events.{Running, UiEvent, ui_exec}
use minimal_sip_proxy_sip_cl.Ui.Consistent.{IsExclusive, ui_exec-IsExclusive}

pub record Options : Type 0 where
  pub server_ip : Bytes
  pub server_port : ℤ
  pub mode : Bytes
  pub auto_username : Bytes
  pub auto_domain : Bytes
  pub use_tcp : Bool

-- The arguments behind the first three, and `none` where one is unknown.
unfoldable pub read_options : Options → List Bytes → Option Options
read_options o [] = some o
read_options o (arg ∷ []) =
    if str_eq arg (codes "--tcp") then some (record o { use_tcp = true }) else none
read_options o (arg ∷ value ∷ args) =
    if str_eq arg (codes "--user")
    then read_options (record o { auto_username = value }) args
    else if str_eq arg (codes "--domain")
    then read_options (record o { auto_domain = value }) args
    else if str_eq arg (codes "--tcp")
    then read_options (record o { use_tcp = true }) (value ∷ args)
    else none

-- A user without a domain, or a domain without a user, is refused.
abbrev complete : Option Options → Option Options
complete none = none
complete (some o) =
    if is_empty o.auto_username && is_empty o.auto_domain
    then some o
    else if is_empty o.auto_username || is_empty o.auto_domain
    then none
    else some o

-- `none` is the end of the program with exit code 1.
unfoldable pub read_arguments : List Bytes → Result (Option Options)
read_arguments (server_ip ∷ port ∷ mode ∷ args) = stoi port >>= λ server_port.
    if not (str_eq mode (codes "--cli")) && not (str_eq mode (codes "--ui"))
    then ok none
    else ok (
        complete (
          read_options
            (record {
              server_ip = server_ip;
              server_port = server_port;
              mode = mode;
              auto_username = [];
              auto_domain = [];
              use_tcp = false;
            })
            args))
read_arguments _ = ok none

-- The registration that the options ask for.
unfoldable pub auto_register : Options → List (List Bytes) → SipClient → Result SipClient
auto_register o rounds c =
    if is_empty o.auto_username then ok c else do_register o.auto_username o.auto_domain [] rounds c

-- The callbacks that the window sets.
abbrev with_callbacks : SipClient → SipClient
with_callbacks c =
    set_call_error_callback
      (set_incoming_call_callback (set_call_state_callback (set_register_response_callback c)))

-- The client up to the loop of the console or of the window. `start_transport` sets the port of the
-- factory before any message is built.
unfoldable pub start_client : Options → ℕ → Option ℕ → List (List Bytes) → Result SipClient
start_client o random port rounds =
    let c = new_client o.server_ip (to_u16 o.server_port) random in
    start_transport o.use_tcp port (if str_eq o.mode (codes "--cli") then c else with_callbacks c)
    >>= auto_register o rounds

-- The console of a client that has started, on the lines of the input.
unfoldable pub client_main :
    Options
    → ℕ
    → Option ℕ
    → List (List Bytes)
    → (ℕ → Given)
    → List Bytes
    → Option (Result SipClient)
client_main o random port rounds given lines = elim (start_client o random port rounds) [
  | err e ↦ some (err e)
  | ok c ↦ run (suc (length lines)) 0 given lines c
]

-- The program of the console ends on every input.
pub client_main_ends :
    (o : Options) (random : ℕ) (port : Option ℕ) (rounds : List (List Bytes)) (given : ℕ → Given)
    (lines : List Bytes)
    → (result : Result SipClient) × (client_main o random port rounds given lines ≡ some result)
unfolding client_main
client_main_ends o random port rounds given lines =
    elim (Result-cases (start_client o random port rounds)) [
      | inr (e, x) ↦ (err e, rw (client_main, x) refl)
      | inl (c, x) ↦
          let n = suc (length lines) in
          let (result, ends, _) = run_ends n n 0 given lines c (omega arith) (omega arith) in
          (result, rw (client_main, x) ends)
    ]

-- The window of a client that has started, in the loop of Qt.
unfoldable pub ui_main :
    (q : Qt) → Options → ℕ → Option ℕ → List (List Bytes) → List (UiEvent q) → Result (Running q)
ui_main q o random port rounds events = start_client o random port rounds >>= λ c.
    ui_exec q (record { client = c; window = new_window q }) events

-- However the client has started, its window allows one of Call, Hang Up and Answer at most.
pub ui_main-IsExclusive :
    (q : Qt) (o : Options) (random : ℕ) (port : Option ℕ) (rounds : List (List Bytes))
    (events : List (UiEvent q)) (s : Running q)
    → ui_main q o random port rounds events ≡ ok s
    → IsExclusive q s.window
unfolding ui_main
ui_main-IsExclusive q o random port rounds events s h =
    let (c, _, done) = bind-ok (start_client o random port rounds) _ s h in
    ui_exec-IsExclusive q c events s done

-- A client without a registration starts with the address of the server as its own, and with the port
-- of its transport.
pub factory-start_client :
    (o : Options) (random port : ℕ) (rounds : List (List Bytes)) (c : SipClient)
    → is_empty o.auto_username ≡ true
    → start_client o random (some port) rounds ≡ ok c
    → (c.factory.local_ip ≡ o.server_ip) × (c.factory.local_port ≡ port)
unfolding start_client auto_register start_transport
factory-start_client o random port rounds c e h = ground arith
