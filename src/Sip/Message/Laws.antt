-- ===== src/Sip/Message/Laws.antt =====
-- The header operations of a message against one another.
use minimal_sip_proxy_sip_cl.Base.{
  ◌≡◌, refl, ◌||◌, List, [], ◌∷◌, ◌++◌, arith, Bytes, str_eq, str_eq_iff, if◌then◌else◌, is_empty,
  not,
}
use minimal_sip_proxy_sip_cl.Sip.Message.{
  SipHeader, SipMessage, get_in, has_in, values_in, remove_in, set_in, get_header, set_header,
  get_headers, remove_first_header,
}

pub get_in-set_in :
    (hs : List SipHeader) (n v k : Bytes)
    → get_in (set_in hs n v) k ≡ (if str_eq n k then v else get_in hs k)
unfolding get_in set_in
get_in-set_in [] n v k = refl
get_in-set_in (h ∷ hs) n v k =
    ground (arith, str_eq_iff n k, str_eq_iff h.name n, str_eq_iff h.name k, get_in-set_in hs n v k)

pub has_in-set_in :
    (hs : List SipHeader) (n v k : Bytes) → has_in (set_in hs n v) k ≡ (str_eq n k || has_in hs k)
unfolding has_in set_in
has_in-set_in [] n v k = ground arith
has_in-set_in (h ∷ hs) n v k =
    ground (arith, str_eq_iff n k, str_eq_iff h.name n, str_eq_iff h.name k, has_in-set_in hs n v k)

pub get_in-append :
    (hs ks : List SipHeader) (k : Bytes)
    → get_in (hs ++ ks) k ≡ (if has_in hs k then get_in hs k else get_in ks k)
unfolding get_in has_in
get_in-append [] ks k = refl
get_in-append (h ∷ hs) ks k = ground (arith, get_in-append hs ks k)

pub has_in-append :
    (hs ks : List SipHeader) (k : Bytes) → has_in (hs ++ ks) k ≡ (has_in hs k || has_in ks k)
unfolding has_in
has_in-append [] ks k = refl
has_in-append (h ∷ hs) ks k = ground (arith, has_in-append hs ks k)

-- After `set_header` the name has the value, and every other name has what it had.
pub get_header-set_header :
    (m : SipMessage) (n v k : Bytes)
    → get_header (set_header m n v) k ≡ (if str_eq n k then v else get_header m k)
get_header-set_header m n v k = get_in-set_in m.headers n v k

abbrev pub tail_of : List Bytes → List Bytes
tail_of [] = []
tail_of (v ∷ vs) = vs

values-remove_in :
    (hs : List SipHeader) (n k : Bytes)
    → values_in (remove_in hs n) k
      ≡ (if str_eq n k then tail_of (values_in hs k) else values_in hs k)
unfolding values_in remove_in
values-remove_in [] n k = ground arith
values-remove_in (h ∷ hs) n k =
    ground
      (arith, str_eq_iff n k, str_eq_iff h.name n, str_eq_iff h.name k, values-remove_in hs n k)

has_in-values_in : (hs : List SipHeader) (n : Bytes) → has_in hs n ≡ not (is_empty (values_in hs n))
unfolding has_in values_in
has_in-values_in [] n = refl
has_in-values_in (h ∷ hs) n = ground (arith, has_in-values_in hs n)

-- `remove_first_header` drops the first value of its name and no other, and says whether the
-- name was there.
pub remove_first_header_lem :
    (m : SipMessage) (n k : Bytes)
    → (get_headers (remove_first_header m n).0 k
        ≡ (if str_eq n k then tail_of (get_headers m k) else get_headers m k))
      × ((remove_first_header m n).1 ≡ not (is_empty (get_headers m n)))
remove_first_header_lem m n k = (values-remove_in m.headers n k, has_in-values_in m.headers n)
