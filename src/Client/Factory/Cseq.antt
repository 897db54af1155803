-- ===== src/Client/Factory/Cseq.antt =====
-- The number of a CSeq that build_ack_for_error of client/src/sip_message_factory.cpp reads out of a
-- response.
use minimal_sip_proxy_sip_cl.Base.{
  ℕ, ◌≡◌, ◌≢◌, refl, ap, ◌∙◌, ◌==◌, true, false, Bool, none, some, List, [], ◌∷◌, ◌++◌, append-nil,
  arith, Bytes, codes, is_empty, to_string, Bool-cases, inl, inr, stoi,
}
use minimal_sip_proxy_sip_cl.Base.Search.{Lacks}
use minimal_sip_proxy_sip_cl.Base.Decimal.{
  is_digit, is_space, AllDigits, to_string-AllDigits, to_string-nonempty,
}
use minimal_sip_proxy_sip_cl.Base.Regex.{
  Item, one, many, close_group, match, match_any, regex_search, to_upper, is_word, plus, group,
}
use minimal_sip_proxy_sip_cl.Base.Regex.Runs.{AllIn, many_run, many_last}
use minimal_sip_proxy_sip_cl.Client.Factory.{cseq_number, cseq_of}

digits-AllIn : (s : Bytes) → AllDigits s → AllIn is_digit s
digits-AllIn [] h = tt
digits-AllIn (c ∷ s) h = (h.0, digits-AllIn s h.1)

-- `\s+\w+` at " INVITE"
method_matches :
    (rest : Bytes)
    → (taken : Bytes) × (match (plus is_space ++ plus is_word) (codes " INVITE" ++ rest)
        ≡ some (taken, []))
unfolding match
method_matches rest =
    let (word, h) = many_last is_word (codes "NVITE" ++ rest) in
    let space =
      many_run is_space (plus is_word) [] (codes "INVITE" ++ rest) (b'I' ∷ word) [] tt refl
        (rw h refl) in
    (b' ' ∷ b'I' ∷ word, rw space refl)

-- The group takes all the digits.
number_matches :
    (d : ℕ) (digits rest : Bytes)
    → is_digit d ≡ true
    → AllDigits digits
    → match
        (group (plus is_digit) ++ (plus is_space ++ plus is_word))
        (d ∷ digits ++ (codes " INVITE" ++ rest))
      ≡ some ([], (d ∷ digits) ∷ [])
unfolding match
number_matches d digits rest e a =
    let p : List Item = close_group ∷ (plus is_space ++ plus is_word) in
    let (taken, h) = method_matches rest in
    let run =
      many_run is_digit p digits (codes " INVITE" ++ rest) [] [] (digits-AllIn digits a) refl
        (rw h refl) in
    rw (e, run) (ap (λ ds. some ([], (d ∷ ds) ∷ [])) (append-nil digits))

-- "CSeq: ", the digits and " INVITE"
abbrev pub cseq_field : Bytes → Bytes → Bytes
cseq_field digits rest = codes "CSeq: " ++ (digits ++ (codes " INVITE" ++ rest))

field_matches :
    (d : ℕ) (digits rest : Bytes)
    → is_digit d ≡ true
    → is_space d ≡ false
    → AllDigits digits
    → (taken : Bytes) × (match cseq_number (cseq_field (d ∷ digits) rest)
        ≡ some (taken, (d ∷ digits) ∷ []))
unfolding match to_upper
field_matches d digits rest e sp a =
    let p = group (plus is_digit) ++ (plus is_space ++ plus is_word) in
    let after = d ∷ digits ++ (codes " INVITE" ++ rest) in
    let number = number_matches d digits rest e a in
    let spaces =
      many_run is_space p (codes " ") after [] ((d ∷ digits) ∷ []) (refl, tt) sp number in
    let before =
      many_run is_space (one (λ c. c == 58) ∷ many is_space ∷ p) [] (codes ": " ++ after)
        (codes ": ") ((d ∷ digits) ∷ []) tt refl (rw spaces refl) in
    (codes "CSeq: ", rw before refl)

-- No 'q', in neither case.
abbrev pub LacksQ : Bytes → Type 0
LacksQ s = Lacks b'q' s × Lacks b'Q' s

not_q : (c : ℕ) → c ≢ b'q' → c ≢ b'Q' → (to_upper c == to_upper b'q') ≡ false
unfolding to_upper
not_q c h k = ground arith

one_fails :
    (class : ℕ → Bool) (p : List Item) (c : ℕ) (s : Bytes)
    → class c ≡ false
    → match (one class ∷ p) (c ∷ s) ≡ none
unfolding match
one_fails class p c s e = rw e refl

later_fails :
    (class : ℕ → Bool) (p : List Item) (c : ℕ) (s : Bytes)
    → match p s ≡ none
    → match (one class ∷ p) (c ∷ s) ≡ none
unfolding match
later_fails class p c s e = elim (Bool-cases (class c)) [
  | inl x ↦ rw (x, e) refl
  | inr x ↦ rw x refl
]

-- The pattern does not match where a text without a 'q' stands in front of the field.
misses :
    (a : ℕ) (before t : Bytes)
    → LacksQ (a ∷ before)
    → match cseq_number (a ∷ before ++ (codes "CSeq: " ++ t)) ≡ none
unfolding to_upper
misses a [] t h = later_fails _ _ a _ (one_fails _ _ b'C' _ refl)
misses a (b ∷ []) t h = later_fails _ _ a _ (later_fails _ _ b _ (one_fails _ _ b'C' _ refl))
misses a (b ∷ c ∷ []) t h =
    later_fails _ _ a _ (later_fails _ _ b _ (later_fails _ _ c _ (one_fails _ _ b'C' _ refl)))
misses a (b ∷ c ∷ d ∷ before) t h = later_fails _ _ a _ (
    later_fails _ _ b _ (later_fails _ _ c _ (one_fails _ _ d _ (not_q d h.0.1.1.1.0 h.1.1.1.1.0))))

found_here :
    (p : List Item) (c : ℕ) (s taken : Bytes) (groups : List Bytes)
    → match p (c ∷ s) ≡ some (taken, groups)
    → regex_search (p ∷ []) (c ∷ s) ≡ some groups
unfolding regex_search match_any
found_here p c s taken groups e = rw (regex_search, match_any, e) refl

found_later :
    (p : List Item) (c : ℕ) (s : Bytes)
    → match p (c ∷ s) ≡ none
    → regex_search (p ∷ []) (c ∷ s) ≡ regex_search (p ∷ []) s
unfolding regex_search match_any
found_later p c s e = rw (regex_search, match_any, e) refl

field_found :
    (before digits rest taken : Bytes)
    → LacksQ before
    → match cseq_number (cseq_field digits rest) ≡ some (taken, digits ∷ [])
    → regex_search (cseq_number ∷ []) (before ++ cseq_field digits rest) ≡ some (digits ∷ [])
field_found [] digits rest taken h e = found_here cseq_number b'C' _ taken (digits ∷ []) e
field_found (a ∷ before) digits rest taken h e =
    found_later cseq_number a (before ++ cseq_field digits rest)
      (misses a before (digits ++ (codes " INVITE" ++ rest)) h)
    ∙ field_found before digits rest taken (h.0.1, h.1.1) e

digit_no_space : (d : ℕ) → is_digit d ≡ true → is_space d ≡ false
digit_no_space d e = ground arith

number_found :
    (before rest digits : Bytes)
    → is_empty digits ≡ false
    → AllDigits digits
    → LacksQ before
    → regex_search (cseq_number ∷ []) (before ++ cseq_field digits rest) ≡ some (digits ∷ [])
number_found before rest [] e a h = absurd (cc e)
number_found before rest (d ∷ digits) e a h =
    let (taken, m) = field_matches d digits rest a.0 (digit_no_space d a.0) a.1 in
    field_found before (d ∷ digits) rest taken h m

-- The number that is read, where the field is the first that the pattern can match.
pub cseq_of-field :
    (before rest : Bytes) (n : ℕ)
    → LacksQ before
    → cseq_of (before ++ cseq_field (to_string n) rest) ≡ stoi (to_string n)
unfolding cseq_of
cseq_of-field before rest n h =
    rw (number_found before rest (to_string n) (to_string-nonempty n) (to_string-AllDigits n) h)
      refl
