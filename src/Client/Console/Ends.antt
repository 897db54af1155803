-- ===== src/Client/Console/Ends.antt =====
-- The console of the client comes to an end.
use minimal_sip_proxy_sip_cl.Base.{
  ℕ, zero, suc, ◌+◌, ◌<◌, ◌≤◌, ◌≡◌, refl, Option, none, some, List, [], ◌∷◌, arith, Bytes, is_empty,
  length, Bool, true, false, Result, ok, err, bind-ok, ap, Result-cases, Bool-cases, inl, inr,
}
use minimal_sip_proxy_sip_cl.Client.Session.{SipClient}
use minimal_sip_proxy_sip_cl.Client.App.{on_packets}
use minimal_sip_proxy_sip_cl.Client.Console.{
  first_word, prompt, Command, register, call, first_answer, second_answer, two_prompts,
  read_command, Given, execute, one_round, run,
}

-- A prompt leaves no more lines than there were.
prompt-length : (lines : List Bytes) → length (prompt lines).1 ≤ length lines
unfolding prompt
prompt-length [] = omega arith
prompt-length (line ∷ lines) = elim (Bool-cases (is_empty (first_word line))) [
  | inl x ↦ rw x (omega (arith, prompt-length lines))
  | inr x ↦ rw x (omega arith)
]

second_answer-length :
    (command : Bytes → Bytes → Command) (first : Bytes) (p : Option Bytes × List Bytes)
    → length (second_answer command first p).1 ≤ length p.1
unfolding second_answer
second_answer-length command first (none, lines) = omega arith
second_answer-length command first (some second, lines) = omega arith

first_answer-length :
    (command : Bytes → Bytes → Command) (p : Option Bytes × List Bytes)
    → length (first_answer command p).1 ≤ length p.1
unfolding first_answer
first_answer-length command (none, lines) = omega arith
first_answer-length command (some first, lines) =
    omega (arith, second_answer-length command first (prompt lines), prompt-length lines)

two_prompts-length :
    (command : Bytes → Bytes → Command) (lines : List Bytes)
    → length (two_prompts command lines).1 ≤ length lines
unfolding two_prompts
two_prompts-length command lines =
    omega (arith, first_answer-length command (prompt lines), prompt-length lines)

read_command-length :
    (c : SipClient) (word : Bytes) (lines : List Bytes)
    → length (read_command c word lines).1 ≤ length lines
unfolding read_command
read_command-length c word lines =
    ground (arith, two_prompts-length register lines, two_prompts-length call lines)

one_round-length :
    (g : Given) (line : Bytes) (lines : List Bytes) (c : SipClient)
    (r : Bool × List Bytes × SipClient)
    → one_round g line lines c ≡ ok r
    → length r.1 ≤ length lines
unfolding one_round
one_round-length g line lines c r h =
    let (c1, _, h1) = bind-ok (on_packets g.arrived c) _ r h in
    let read = read_command c1 (first_word line) lines in
    let (c2, _, h2) = bind-ok (execute read.0 g c1) _ r h1 in
    let left : r.1 ≡ read.1 = cc h2 in
    omega (arith, ap length left, read_command-length c1 (first_word line) lines)

-- The loop of the console comes to its end, whatever the lines of the input, what arrives and what
-- the commands do: within one round for each line and one for the end of the input it returns a
-- client or an exception, and more rounds give the same.
pub run_ends :
    (n k i : ℕ) (given : ℕ → Given) (lines : List Bytes) (c : SipClient)
    → length lines < n
    → length lines < k
    → (result : Result SipClient) × (run n i given lines c ≡ some result)
      × (run k i given lines c ≡ some result)
unfolding run
run_ends zero k i given lines c h g = absurd (omega arith)
run_ends (suc n) zero i given lines c h g = absurd (omega arith)
run_ends (suc n) (suc k) i given [] c h g = (ok c, refl, refl)
run_ends (suc n) (suc k) i given (line ∷ lines) c h g =
    elim (Result-cases (one_round (given i) line lines c)) [
      | inr (e, x) ↦ (err e, rw (run, x) refl, rw (run, x) refl)
      | inl ((true, rest, c'), x) ↦ (ok c', rw (run, x) refl, rw (run, x) refl)
      | inl ((false, rest, c'), x) ↦
          let less = one_round-length (given i) line lines c (false, rest, c') x in
          let (result, a, b) =
            run_ends n k (i + 1) given rest c' (omega (arith, less)) (omega (arith, less)) in
          (result, rw (run, x) a, rw (run, x) b)
    ]
