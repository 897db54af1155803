-- ===== src/Client/Console.antt =====
-- client/src/cli_handler.cpp. The input is its lines. What comes in from the network before a command
-- and while a registration waits, and the random number of a new Call-ID, are given. What is printed
-- and logged is left out, and so is the pause of `sleep`.
pub mod Ends
use minimal_sip_proxy_sip_cl.Base.{
  ℕ, zero, suc, ◌+◌, Bool, true, false, ◌||◌, Option, none, some, List, [], ◌∷◌, Bytes, codes,
  is_empty, str_eq, if◌then◌else◌, Result, ok, err, ◌>>=◌,
}
use minimal_sip_proxy_sip_cl.Base.Decimal.{is_space, skip_space}
use minimal_sip_proxy_sip_cl.Client.Session.{SipClient}
use minimal_sip_proxy_sip_cl.Client.Invite.{split_local}
use minimal_sip_proxy_sip_cl.Client.App.{
  on_packets, do_register, do_invite, do_bye, do_answer, do_reject,
}

-- The word that `>>` takes off a stream.
up_to_space : Bytes → Bytes
up_to_space [] = []
up_to_space (c ∷ s) = let rest = up_to_space s in if is_space c then [] else c ∷ rest

unfoldable pub first_word : Bytes → Bytes
unfolding up_to_space
first_word s = up_to_space (skip_space s)

-- A word of the next line that has one; the rest of that line is ignored.
unfoldable pub prompt : List Bytes → Option Bytes × List Bytes
prompt [] = (none, [])
prompt (line ∷ lines) =
    let rest = prompt lines in
    if is_empty (first_word line) then rest else (some (first_word line), lines)

-- A command with its answers to the prompts. `nothing` is a line without a word, a prompt without an
-- answer, a call without a registration, or a command that changes no state.
pub data Command : Type 0 where
  nothing exit hangup answer reject : Command
  register call : Bytes → Bytes → Command

-- The second prompt is made only if the first one was answered.
second_answer : (Bytes → Bytes → Command) → Bytes → Option Bytes × List Bytes → Command × List Bytes
second_answer command first (none, lines) = (nothing, lines)
second_answer command first (some second, lines) = (command first second, lines)

first_answer : (Bytes → Bytes → Command) → Option Bytes × List Bytes → Command × List Bytes
first_answer command (none, lines) = (nothing, lines)
first_answer command (some first, lines) = second_answer command first (prompt lines)

unfoldable pub two_prompts : (Bytes → Bytes → Command) → List Bytes → Command × List Bytes
unfolding first_answer second_answer
two_prompts command lines = first_answer command (prompt lines)

-- The command of a line, and the lines that are left behind its prompts.
unfoldable pub read_command : SipClient → Bytes → List Bytes → Command × List Bytes
read_command c word lines =
    if str_eq word (codes "register")
    then two_prompts register lines
    else if str_eq word (codes "exit") || str_eq word (codes "quit")
    then (exit, lines)
    else if str_eq word (codes "call")
    then if is_empty c.state.registered_user then (nothing, lines) else two_prompts call lines
    else if str_eq word (codes "hangup")
    then (hangup, lines)
    else if str_eq word (codes "answer")
    then (answer, lines)
    else if str_eq word (codes "reject")
    then (reject, lines)
    else (nothing, lines)

-- What is given for one command.
pub record Given : Type 0 where
  pub arrived : List Bytes
  pub random : ℕ
  pub rounds : List (List Bytes)

unfoldable pub execute : Command → Given → SipClient → Result SipClient
execute nothing g c = ok c
execute exit g c = ok c
execute hangup g c = do_bye [] c
execute answer g c = ok (do_answer c)
execute reject g c = ok (do_reject c)
execute (register username domain) g c = do_register username domain [] g.rounds c
execute (call to_user to_domain) g c =
    let own = split_local c.state.registered_user in
    do_invite own.0 own.1 to_user to_domain g.random c

abbrev pub is_exit : Command → Bool
is_exit exit = true
is_exit _ = false

-- A round on a line of the input: whether it ends the loop, the lines that are left, and the client.
unfoldable pub one_round :
    Given → Bytes → List Bytes → SipClient → Result (Bool × List Bytes × SipClient)
one_round g line lines c = do
  c1 ← on_packets g.arrived c
  let read = read_command c1 (first_word line) lines
  c2 ← execute read.0 g c1
  ok (is_exit read.0, read.1, c2)

-- The loop, from round `i` on; `none` is a loop that has not come to its end in so many rounds.
unfoldable pub run : ℕ → ℕ → (ℕ → Given) → List Bytes → SipClient → Option (Result SipClient)
run zero i given lines c = none
run (suc n) i given [] c = some (ok c)
run (suc n) i given (line ∷ lines) c = elim (one_round (given i) line lines c) [
  | err e ↦ some (err e)
  | ok (true, rest, c') ↦ some (ok c')
  | ok (false, rest, c') ↦ run n (i + 1) given rest c'
]
