-- ===== src/Proxy/Address.antt =====
-- What the proxy reads out of header values: the identity in a From or To, for the two copies of
-- `extract_sip_identity` (proxy/src/sip_router.cpp and proxy/src/register_handler.cpp), and the
-- address in a Contact.
use native.Mathlib.Nat.{mod-eq_of_lt}
use minimal_sip_proxy_sip_cl.Base.{
  ℕ, ◌+◌, ◌-◌, ◌^◌, ◌<◌, ◌≡◌, refl, sym, ap, ◌∙◌, some, [], ◌∷◌, ◌++◌, arith, Bytes, codes, length,
  length-append, drop, find, find_from, substr, append_assoc, ok, stoi, to_string, to_u16, pos,
}
use minimal_sip_proxy_sip_cl.Base.Text.{take-length-append}
use minimal_sip_proxy_sip_cl.Base.Search.{
  Lacks, find_skip, find_here, find_from-append, drop-append,
}
use minimal_sip_proxy_sip_cl.Base.Decimal.{NoDigit, stoi-to_string}
use minimal_sip_proxy_sip_cl.Proxy.Registration
use minimal_sip_proxy_sip_cl.Proxy.Router.Helpers
use minimal_sip_proxy_sip_cl.Proxy.Router.Context.{address_of}

abbrev pub sip_scheme : Bytes
sip_scheme = codes "sip:"

-- A header value with a SIP address: `before` is the display name with its '<'.
abbrev pub named : Bytes → Bytes → Bytes → Bytes
named before user after = before ++ (sip_scheme ++ (user ++ (b'>' ∷ after)))

substr_at :
    (a user c : Bytes) (start count : ℕ)
    → start ≡ length a
    → count ≡ length user
    → substr (a ++ (user ++ c)) start count ≡ user
substr_at a user c start count e k =
    rw (k, drop-append a (user ++ c) 0 start (omega arith)) (take-length-append user c)

module _ (before user after : Bytes) (h : Lacks b's' before) (k : Lacks b'>' user) where
  scheme_found : find sip_scheme (named before user after) ≡ some (length before)
  scheme_found =
      find_skip b's' 0 (codes "ip:") before _ h
        (find_here b's' (codes "ip:") (user ++ (b'>' ∷ after)))
      ∙ ap some (omega arith)

  size : length before + 4 ≡ length (before ++ sip_scheme)
  size = omega (arith, length-append before sip_scheme)

  end_found :
      find_from (codes ">") (named before user after) (some (length before + 4))
      ≡ some (length user + (length before + 4))
  end_found =
      rw (sym (append_assoc before sip_scheme (user ++ (b'>' ∷ after))), size)
        (find_from-append (codes ">") (before ++ sip_scheme) (user ++ (b'>' ∷ after)) (length user)
          (find_skip b'>' 0 [] user (b'>' ∷ after) k (find_here b'>' [] after)
            ∙ ap some (omega arith)))

  user_cut :
      substr
        (named before user after)
        (length before + 4)
        (length user + (length before + 4) - (length before + 4))
      ≡ user
  user_cut =
      rw (sym (append_assoc before sip_scheme (user ++ (b'>' ∷ after))))
        (substr_at (before ++ sip_scheme) user (b'>' ∷ after) _ _ size (omega arith))

  -- Of "…sip:user>…", where no 's' stands before "sip:" and no '>' in the user, both copies of
  -- `extract_sip_identity` read the user.
  pub extract_sip_identity-named :
      (Helpers.extract_sip_identity (named before user after) ≡ user)
      × (Registration.extract_sip_identity (named before user after) ≡ user)
  unfolding Helpers.extract_sip_identity Registration.extract_sip_identity
  extract_sip_identity-named =
      (rw (scheme_found, end_found) user_cut, rw (scheme_found, end_found) user_cut)

-- A Contact with an address: `before` is what stands before the '@', `after` what follows the
-- port, which is no digit.
pub record Addresses (contact ip : Bytes) (port : ℕ) : Type 0 where
  pub before : Bytes
  pub after : Bytes
  pub shape : contact ≡ before ++ (b'@' ∷ (ip ++ (b':' ∷ (to_string port ++ after))))
  pub first_at : Lacks b'@' before
  pub plain_ip : Lacks b':' ip
  pub port_ends : NoDigit after
  pub port_fits : port < 2 ^ 16

module _ {contact ip : Bytes} {port : ℕ} (a : Addresses contact ip port) where
  open a use {before, after, shape, first_at, plain_ip, port_ends, port_fits}

  rest : Bytes
  rest = b':' ∷ (to_string port ++ after)

  pub at_found : find (codes "@") contact ≡ some (length before)
  unfolding rest
  at_found = rw shape (
      find_skip b'@' 0 [] before _ first_at (find_here b'@' [] (ip ++ rest))
      ∙ ap some (omega arith))

  pub colon_found :
      find_from (codes ":") contact (some (length before)) ≡ some (length ip + 1 + length before)
  unfolding rest
  colon_found = rw shape (
      find_from-append (codes ":") before (b'@' ∷ (ip ++ rest)) (length ip + 1) (
        find_skip b':' 0 [] (b'@' ∷ ip) rest (omega arith, plain_ip)
          (find_here b':' [] (to_string port ++ after))
        ∙ ap some (omega arith)))

  pub ip_cut : (n : ℕ) → n ≡ length ip → substr contact (length before + 1) n ≡ ip
  unfolding rest
  ip_cut n e =
      rw (e, shape, drop-append before (b'@' ∷ (ip ++ rest)) 1 (length before + 1) refl)
        (take-length-append ip rest)

  pub port_cut : drop (length ip + 1 + length before + 1) contact ≡ to_string port ++ after
  unfolding rest
  port_cut = rw shape (
      drop-append before (b'@' ∷ (ip ++ rest)) (length ip + 2) _ (omega arith)
      ∙ drop-append (b'@' ∷ ip) rest 1 (length ip + 2) (omega arith))

  pub port_read : stoi (drop (length ip + 1 + length before + 1) contact) ≡ ok (pos port)
  port_read = rw port_cut (stoi-to_string port after (omega arith) port_ends)

  -- Of a contact "…@ip:port…", with one '@' up to the IP address, no ':' in that, and a port below
  -- 2 ^ 16 that no digit follows, the context of a call stores this IP address and port.
  pub address_of_lem : address_of contact ≡ ok (ip, port)
  unfolding address_of to_u16
  address_of_lem =
      rw (at_found, colon_found, port_read)
        (λ i. ok (
          ip_cut (length ip + 1 + length before - length before - 1) (omega arith) i,
          mod-eq_of_lt port_fits i,
        ))
