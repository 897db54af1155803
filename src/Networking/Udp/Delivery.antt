-- ===== src/Networking/Udp/Delivery.antt =====
-- Which datagrams the UDP transport delivers.
use minimal_sip_proxy_sip_cl.Base.{
  ℕ, zero, suc, ◌<◌, ◌≤◌, ◌≡◌, refl, ap, false, ◌==◌, Option, none, some, List, [], ◌∷◌, arith,
  Bytes, length, take, if◌then◌else◌, is_empty, Bool-cases, inl, inr,
}
use minimal_sip_proxy_sip_cl.Networking.Udp.{first_buffer_size, receive_round, receive_rounds}

-- The datagrams with a payload, in order.
abbrev pub payloads : List (Option Bytes) → List Bytes
payloads [] = []
payloads (none ∷ rounds) = payloads rounds
payloads (some datagram ∷ rounds) =
    if is_empty datagram then payloads rounds else datagram ∷ payloads rounds

-- Every datagram is shorter than the buffer, as UDP over IPv4 sees to.
abbrev pub AllFit : List (Option Bytes) → Type 0
AllFit [] = Unit {0}
AllFit (none ∷ rounds) = AllFit rounds
AllFit (some datagram ∷ rounds) = (length datagram < first_buffer_size) × AllFit rounds

take_all : (n : ℕ) (s : Bytes) → length s ≤ n → take n s ≡ s
take_all zero [] h = refl
take_all (suc n) [] h = refl
take_all zero (c ∷ s) h = absurd (omega arith)
take_all (suc n) (c ∷ s) h = ap (◌∷◌ c) (take_all n s (omega arith))

round_fits :
    (size : ℕ) (datagram : Bytes)
    → length datagram < size
    → receive_round size (some datagram) ≡ (if is_empty datagram then none else some datagram, size)
unfolding receive_round
round_fits size datagram h =
    let whole = take_all size datagram (omega arith) in
    let short : (length datagram == size) ≡ false = ground arith in
    elim (Bool-cases (is_empty datagram)) [
      | inl x ↦ rw (whole, short, x) refl
      | inr x ↦ rw (whole, short, x) refl
    ]

round_error : (size : ℕ) → receive_round size none ≡ (none, size)
unfolding receive_round
round_error size = refl

-- Datagrams that are shorter than 65536 bytes reach the callback whole and in order, but for empty
-- ones, whatever errors come between them.
pub receive_rounds-payloads :
    (rounds : List (Option Bytes))
    → AllFit rounds
    → receive_rounds first_buffer_size rounds ≡ payloads rounds
unfolding receive_rounds
receive_rounds-payloads [] h = refl
receive_rounds-payloads (none ∷ rounds) h =
    rw (round_error first_buffer_size) (receive_rounds-payloads rounds h)
receive_rounds-payloads (some datagram ∷ rounds) h = elim (Bool-cases (is_empty datagram)) [
  | inl x ↦ rw (round_fits first_buffer_size datagram h.0, x) (receive_rounds-payloads rounds h.1)
  | inr x ↦
      rw (round_fits first_buffer_size datagram h.0, x)
        (ap (◌∷◌ datagram) (receive_rounds-payloads rounds h.1))
]
