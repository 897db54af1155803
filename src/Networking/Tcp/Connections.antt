-- ===== src/Networking/Tcp/Connections.antt =====
-- Which socket the TCP transport of the proxy writes to.
use minimal_sip_proxy_sip_cl.Base.{
  ℕ, ◌⊎◌, ◌≡◌, refl, sym, ap, ◌∙◌, Bool, true, false, ◌&&◌, Option, none, some, List, [], ◌∷◌, ◌++◌,
  arith, ◌==◌, Bytes, str_eq, str_eq_iff, to_string, if◌then◌else◌, lookup, lookup-insert,
  lookup-erase, Bool-cases, inl, inr,
}
use mathlib.Core.Option
use minimal_sip_proxy_sip_cl.Base.Search.{Lacks}
use minimal_sip_proxy_sip_cl.Base.Decimal.{read_digits, read_digits-to_string}
use minimal_sip_proxy_sip_cl.Networking.Tcp.{TcpTransport, connection_key, send, accept, disconnect}

-- A peer connects, with its socket, or the connection on a socket of the peer ends.
pub data Event : Type 0 where
  accepted : Bytes → ℕ → ℕ → Event
  closed : Bytes → ℕ → ℕ → Event

unfoldable pub apply : TcpTransport → Event → TcpTransport
apply t (accepted ip port fd) = accept t ip port fd
apply t (closed ip port fd) = disconnect t ip port

-- The events in order, the last one first.
unfoldable pub after : TcpTransport → List Event → TcpTransport
after t [] = t
after t (e ∷ es) = apply (after t es) e

abbrev pub same_peer : Bytes → ℕ → Bytes → ℕ → Bool
same_peer ip port ip' port' = str_eq ip ip' && port == port'

-- The entry that the table keeps: `disconnect` erases it without a look at its socket.
abbrev pub latest : Bytes → ℕ → List Event → Option ℕ
latest ip port [] = none
latest ip port (accepted ip' port' fd ∷ es) =
    if same_peer ip' port' ip port then some fd else latest ip port es
latest ip port (closed ip' port' fd ∷ es) =
    if same_peer ip' port' ip port then none else latest ip port es

-- What is left of the latest connection where a connection of the peer on `fd` ends.
abbrev pub unless_ended : ℕ → Option ℕ → Option ℕ
unless_ended fd none = none
unless_ended fd (some fd') = if fd == fd' then none else some fd'

-- The socket of the latest connection of a peer, if that connection has not ended.
abbrev pub open_socket : Bytes → ℕ → List Event → Option ℕ
open_socket ip port [] = none
open_socket ip port (accepted ip' port' fd ∷ es) =
    if same_peer ip' port' ip port then some fd else open_socket ip port es
open_socket ip port (closed ip' port' fd ∷ es) =
    if same_peer ip' port' ip port
    then unless_ended fd (open_socket ip port es)
    else open_socket ip port es

-- No connection of the peer outlives a later one: the one that ends is the latest.
abbrev pub IsOrderly : Bytes → ℕ → List Event → Type 0
IsOrderly ip port [] = Unit {0}
IsOrderly ip port (accepted ip' port' fd ∷ es) = IsOrderly ip port es
IsOrderly ip port (closed ip' port' fd ∷ es) =
    ((same_peer ip' port' ip port ≡ false) ⊎ (open_socket ip port es ≡ some fd))
    × IsOrderly ip port es

-- Every address is in the dotted form.
abbrev pub AllDotted : List Event → Type 0
AllDotted [] = Unit {0}
AllDotted (accepted ip port fd ∷ es) = Lacks b':' ip × AllDotted es
AllDotted (closed ip port fd ∷ es) = Lacks b':' ip × AllDotted es

eq_self : (n : ℕ) → (n == n) ≡ true
eq_self n = ground arith

split_colon :
    (a b s t : Bytes)
    → Lacks b':' a
    → Lacks b':' b
    → a ++ (b':' ∷ s) ≡ b ++ (b':' ∷ t)
    → (a ≡ b) × (s ≡ t)
split_colon [] [] s t h k e = (refl, cc)
split_colon [] (d ∷ b) s t h k e = absurd (k.0 (cc))
split_colon (c ∷ a) [] s t h k e = absurd (h.0 (cc))
split_colon (c ∷ a) (d ∷ b) s t h k e = let (x, y) = split_colon a b s t h.1 k.1 (cc) in (cc, y)

to_string_inj : (m n : ℕ) → to_string m ≡ to_string n → m ≡ n
to_string_inj m n e = sym (read_digits-to_string m) ∙ ap (read_digits 0) e ∙ read_digits-to_string n

key_eq :
    (ip ip' : Bytes) (port port' : ℕ)
    → Lacks b':' ip
    → Lacks b':' ip'
    → str_eq (connection_key ip' port') (connection_key ip port) ≡ same_peer ip' port' ip port
unfolding connection_key
key_eq ip ip' port port' h k =
    elim (Bool-cases (str_eq (connection_key ip' port') (connection_key ip port))) [
      | inl e ↦
          let (x, y) =
            split_colon ip' ip (to_string port') (to_string port) k h ((str_eq_iff _ _).0 e) in
          let n = to_string_inj port' port y in e ∙ sym (ground (arith, str_eq_iff ip' ip))
      | inr e ↦ elim (Bool-cases (same_peer ip' port' ip port)) [
        | inr other ↦ e ∙ sym other
        | inl same ↦
            let x : ip' ≡ ip = ground (arith, str_eq_iff ip' ip) in
            let y : port' ≡ port = ground arith in
            let key : connection_key ip' port' ≡ connection_key ip port = rw (x, y) refl in
            absurd (cc (e, (str_eq_iff _ _).1 key))
      ]
    ]

-- The proxy's side: running, and not a client.
abbrev pub Serves : TcpTransport → Type 0
Serves t = (t.running ≡ true) × (t.client_mode ≡ false)

pub after-Serves : (t : TcpTransport) (es : List Event) → Serves t → Serves (after t es)
unfolding after apply accept disconnect
after-Serves t [] h = h
after-Serves t (accepted ip port fd ∷ es) h = ground (arith, after-Serves t es h)
after-Serves t (closed ip port fd ∷ es) h = ground (arith, after-Serves t es h)

pub after-latest :
    (t : TcpTransport) (es : List Event) (ip : Bytes) (port : ℕ)
    → Serves t
    → t.connections ≡ []
    → AllDotted es
    → Lacks b':' ip
    → lookup (after t es).connections (connection_key ip port) ≡ latest ip port es
unfolding after apply accept disconnect
after-latest t [] ip port s e d h = rw e (unfold lookup in refl)
after-latest t (accepted ip' port' fd ∷ es) ip port s e d h =
    rw
      (
        (after-Serves t es s).0,
        lookup-insert (after t es).connections (connection_key ip' port') (connection_key ip port)
            fd,
        key_eq ip ip' port port' h d.0,
        after-latest t es ip port s e d.1 h,
      )
      refl
after-latest t (closed ip' port' fd ∷ es) ip port s e d h =
    rw
      (
        (after-Serves t es s).1,
        lookup-erase (after t es).connections (connection_key ip' port') (connection_key ip port),
        key_eq ip ip' port port' h d.0,
        after-latest t es ip port s e d.1 h,
      )
      refl

latest-open_socket :
    (ip : Bytes) (port : ℕ) (es : List Event)
    → IsOrderly ip port es
    → latest ip port es ≡ open_socket ip port es
latest-open_socket ip port [] o = refl
latest-open_socket ip port (accepted ip' port' fd ∷ es) o =
    rw (latest-open_socket ip port es o) refl
latest-open_socket ip port (closed ip' port' fd ∷ es) o =
    elim (Bool-cases (same_peer ip' port' ip port)) [
      | inl e ↦ elim o.0 [
        | inl other ↦ absurd (cc (e, other))
        | inr at ↦ rw (e, at, eq_self fd) refl
      ]
      | inr e ↦ rw (e, latest-open_socket ip port es o.1) refl
    ]

-- After peers have connected and gone in any order, the transport of the proxy writes to the
-- socket of the latest connection of the peer, if that has not ended, whatever other peers did, and
-- drops the data otherwise. No connection of the peer ends after a later one of it has begun, and
-- the addresses are without a ':'.
pub send-latest :
    (t : TcpTransport) (es : List Event) (payload ip : Bytes) (port : ℕ)
    → t.running ≡ true
    → t.client_mode ≡ false
    → t.connections ≡ []
    → AllDotted es
    → Lacks b':' ip
    → IsOrderly ip port es
    → send (after t es) payload ip port ≡ Option.map (λ fd. (fd, payload)) (open_socket ip port es)
unfolding send
send-latest t es payload ip port r c e d h o =
    rw
      (
        (after-Serves t es (r, c)).1,
        after-latest t es ip port (r, c) e d h,
        latest-open_socket ip port es o,
      )
      refl
