-- ===== src/Networking/Tcp/Reconnect.antt =====
-- A peer that connects to the TCP transport of the proxy once more before its earlier connection has
-- ended: networking/src/tcp_transport.cpp.
use minimal_sip_proxy_sip_cl.Base.{
  ℕ, ◌≡◌, ◌≢◌, refl, ◌∙◌, true, false, ◌==◌, some, none, List, [], ◌∷◌, ◌++◌, arith, Bytes,
  str_eq_refl,
}
use minimal_sip_proxy_sip_cl.Base.Search.{Lacks}
use minimal_sip_proxy_sip_cl.Networking.Tcp.{TcpTransport, send}
use minimal_sip_proxy_sip_cl.Networking.Tcp.Connections.{
  Event, accepted, closed, after, same_peer, latest, open_socket, AllDotted, after-Serves,
  after-latest,
}

-- Events of other peers, in the dotted form.
abbrev pub OthersOnly : Bytes → ℕ → List Event → Type 0
OthersOnly ip port [] = Unit {0}
OthersOnly ip port (accepted ip' port' fd ∷ es) =
    (same_peer ip' port' ip port ≡ false) × Lacks b':' ip' × OthersOnly ip port es
OthersOnly ip port (closed ip' port' fd ∷ es) =
    (same_peer ip' port' ip port ≡ false) × Lacks b':' ip' × OthersOnly ip port es

module _ (ip : Bytes) (port : ℕ) where
  others-latest :
      (xs es : List Event) → OthersOnly ip port xs → latest ip port (xs ++ es) ≡ latest ip port es
  others-latest [] es o = refl
  others-latest (accepted ip' port' fd ∷ xs) es o = rw o.0 (others-latest xs es o.2)
  others-latest (closed ip' port' fd ∷ xs) es o = rw o.0 (others-latest xs es o.2)

  others-open_socket :
      (xs es : List Event)
      → OthersOnly ip port xs
      → open_socket ip port (xs ++ es) ≡ open_socket ip port es
  others-open_socket [] es o = refl
  others-open_socket (accepted ip' port' fd ∷ xs) es o = rw o.0 (others-open_socket xs es o.2)
  others-open_socket (closed ip' port' fd ∷ xs) es o = rw o.0 (others-open_socket xs es o.2)

  others-AllDotted :
      (xs es : List Event) → OthersOnly ip port xs → AllDotted es → AllDotted (xs ++ es)
  others-AllDotted [] es o d = d
  others-AllDotted (accepted ip' port' fd ∷ xs) es o d = (o.1, others-AllDotted xs es o.2 d)
  others-AllDotted (closed ip' port' fd ∷ xs) es o d = (o.1, others-AllDotted xs es o.2 d)

  same_self : same_peer ip port ip port ≡ true
  same_self = rw (str_eq_refl ip) (ground arith)

-- A peer that connects again from the same address and port, on another socket, is lost when its
-- earlier connection ends after that: the latest connection has not ended, but data for the peer is
-- dropped, as long as it does not connect once more, whatever other peers do in between. The
-- addresses are without a ':'.
pub old_end_drops :
    (t : TcpTransport) (before between since later : List Event) (payload ip : Bytes)
    (port old new : ℕ)
    → t.running ≡ true
    → t.client_mode ≡ false
    → t.connections ≡ []
    → AllDotted before
    → OthersOnly ip port between
    → OthersOnly ip port since
    → OthersOnly ip port later
    → Lacks b':' ip
    → old ≢ new
    → let first = between ++ accepted ip port old ∷ before in
      let second = since ++ accepted ip port new ∷ first in
      let es = later ++ closed ip port old ∷ second in
      (open_socket ip port es ≡ some new) × (send (after t es) payload ip port ≡ none)
unfolding send
old_end_drops t before between since later payload ip port old new r c e d b s l h differ =
    let first = between ++ accepted ip port old ∷ before in
    let second = since ++ accepted ip port new ∷ first in
    let es = later ++ closed ip port old ∷ second in
    let same = same_self ip port in
    let dotted1 = others-AllDotted ip port between (accepted ip port old ∷ before) b (h, d) in
    let dotted2 = others-AllDotted ip port since (accepted ip port new ∷ first) s (h, dotted1) in
    let dotted = others-AllDotted ip port later (closed ip port old ∷ second) l (h, dotted2) in
    let gone : latest ip port es ≡ none =
      others-latest ip port later (closed ip port old ∷ second) l ∙ rw same refl in
    let newest : open_socket ip port second ≡ some new =
      others-open_socket ip port since (accepted ip port new ∷ first) s ∙ rw same refl in
    let not_it : (old == new) ≡ false = ground (arith, differ) in
    (
      others-open_socket ip port later (closed ip port old ∷ second) l
          ∙ rw (same, newest, not_it) refl,
      rw ((after-Serves t es (r, c)).1, after-latest t es ip port (r, c) e dotted h, gone) refl,
    )
