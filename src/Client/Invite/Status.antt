-- ===== src/Client/Invite/Status.antt =====
-- The status codes that the client reads out of a response.
use minimal_sip_proxy_sip_cl.Base.{
  ℕ, ◌<◌, ◌≡◌, refl, true, some, List, [], ◌∷◌, pos, arith, Bytes, codes, ok, Bool-cases,
  Option-cases, inl, inr,
}
use minimal_sip_proxy_sip_cl.Base.Decimal.{is_digit, is_space, read_digits, stoi-read_digits}
use minimal_sip_proxy_sip_cl.Base.Regex.{one, regex_search, match, group}
use minimal_sip_proxy_sip_cl.Base.Regex.Matches.{
  AllMatches, one-AllMatches, many-AllMatches, literal-AllMatches, regex_search-HoldsFound,
}
use minimal_sip_proxy_sip_cl.Client.Invite.{status_pattern, extract_status_code}

-- One group, of three digits.
pub record IsCode (groups : List Bytes) : Type 0 where
  pub a : ℕ
  pub b : ℕ
  pub c : ℕ
  pub shape : groups ≡ (a ∷ b ∷ c ∷ []) ∷ []
  pub digits : (is_digit a ≡ true) × (is_digit b ≡ true) × (is_digit c ≡ true)

three_digits : AllMatches IsCode (group (one is_digit ∷ one is_digit ∷ one is_digit ∷ []))
unfolding match
three_digits [] = tt
three_digits (a ∷ []) = elim (Bool-cases (is_digit a)) [ inl x ↦ rw x tt | inr x ↦ rw x tt ]
three_digits (a ∷ b ∷ []) = elim (Bool-cases (is_digit a)) [
  | inr x ↦ rw x tt
  | inl x ↦ elim (Bool-cases (is_digit b)) [ inl y ↦ rw (x, y) tt | inr y ↦ rw (x, y) tt ]
]
three_digits (a ∷ b ∷ c ∷ s) = elim (Bool-cases (is_digit a)) [
  | inr x ↦ rw x tt
  | inl x ↦ elim (Bool-cases (is_digit b)) [
    | inr y ↦ rw (x, y) tt
    | inl y ↦ elim (Bool-cases (is_digit c)) [
      | inr z ↦ rw (x, y, z) tt
      | inl z ↦ rw (x, y, z) (record { a = a; b = b; c = c; shape = refl; digits = (x, y, z) })
    ]
  ]
]

status-AllMatches : AllMatches IsCode status_pattern
status-AllMatches =
    literal-AllMatches IsCode (codes "SIP/2.0") _
      (one-AllMatches IsCode is_space _ (many-AllMatches IsCode is_space _ three_digits))

digits_bound :
    (a b c : ℕ)
    → is_digit a ≡ true
    → is_digit b ≡ true
    → is_digit c ≡ true
    → read_digits 0 (a ∷ b ∷ c ∷ []) < 1000
unfolding read_digits
digits_bound a b c x y z = ground arith

-- The status code of a response as the client reads it: it never throws, and is at most 999.
pub extract_status_code_bounds :
    (raw : Bytes) → (n : ℕ) × (extract_status_code raw ≡ ok (pos n)) × (n < 1000)
unfolding extract_status_code
extract_status_code_bounds raw =
    let h = regex_search-HoldsFound IsCode status_pattern status-AllMatches raw in
    elim (Option-cases (regex_search (status_pattern ∷ []) raw)) [
      | inl n ↦ (0, rw n refl, omega arith)
      | inr (groups, found) ↦ of_code groups (rw found at h) found
    ]
  where
    of_code :
        (groups : List Bytes)
        → IsCode groups
        → regex_search (status_pattern ∷ []) raw ≡ some groups
        → (n : ℕ) × (extract_status_code raw ≡ ok (pos n)) × (n < 1000)
    of_code groups k found =
        let less = digits_bound k.a k.b k.c k.digits.0 k.digits.1 k.digits.2 in
        (
          read_digits 0 (k.a ∷ k.b ∷ k.c ∷ []),
          rw (found, k.shape) (stoi-read_digits k.a _ k.digits.0 (omega arith)),
          less,
        )
