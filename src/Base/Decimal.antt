-- ===== src/Base/Decimal.antt =====
-- `std::to_string` of a non-negative number and `std::stoi`.
use Prim.Native.Nat.{ℕ, zero, suc, ◌+◌, ◌-◌, ◌*◌, ◌/◌, ◌%◌, ◌^◌, ◌<◌, ◌≤◌}
use mathlib.Core.Path.{◌≡◌, refl, sym, ap, ◌∙◌}
use mathlib.Core.Logic.{inl, inr}
use mathlib.Core.Bool.{Bool, true, false, ◌&&◌, ◌||◌}
use mathlib.Core.List.{[], ◌∷◌, ◌++◌, append_assoc, append-nil}
use native.Mathlib.Omega.{arith}
use minimal_sip_proxy_sip_cl.Base.Tests.{ltb, leb, ◌==◌, if◌then◌else◌, Bool-cases}
use minimal_sip_proxy_sip_cl.Base.Text.{Bytes, codes, is_empty}
use minimal_sip_proxy_sip_cl.Base.Throwing.{invalid_argument, out_of_range, Result, ok, err}
use minimal_sip_proxy_sip_cl.Base.Int.{ℤ, pos, negsuc, negate}

to_string_fuel : ℕ → ℕ → Bytes
to_string_fuel zero n = []
to_string_fuel (suc f) n =
    let rest = to_string_fuel f (n / 10) ++ (b'0' + n % 10) ∷ [] in
    if ltb n 10 then (b'0' + n) ∷ [] else rest

-- std::to_string(n)
unfoldable pub to_string : ℕ → Bytes
unfolding to_string_fuel
to_string n = to_string_fuel (suc n) n

abbrev pub is_digit : ℕ → Bool
is_digit c = leb b'0' c && leb c b'9'

-- isspace: space and \t \n \v \f \r
abbrev pub is_space : ℕ → Bool
is_space c = c == 32 || (leb 9 c && leb c 13)

unfoldable pub skip_space : Bytes → Bytes
skip_space [] = []
skip_space (c ∷ s) = if is_space c then skip_space s else c ∷ s

-- The value of the longest run of digits in front, read after `acc`.
unfoldable pub read_digits : ℕ → Bytes → ℕ
read_digits acc [] = acc
read_digits acc (c ∷ s) =
    let rest = read_digits (acc * 10 + (c - b'0')) s in if is_digit c then rest else acc

abbrev pub starts_with_digit : Bytes → Bool
starts_with_digit [] = false
starts_with_digit (c ∷ s) = is_digit c

-- The digits behind the sign, within the range of a 32-bit int.
signed_digits : Bool → Bytes → Result ℤ
signed_digits minus s =
    let n = read_digits 0 s in
    if starts_with_digit s
    then if minus
      then if leb n (2 ^ 31) then ok (negate n) else err out_of_range
      else if ltb n (2 ^ 31)
      then ok (pos n)
      else err out_of_range
    else err invalid_argument

read_sign : Bytes → Result ℤ
read_sign [] = err invalid_argument
read_sign (c ∷ s) =
    if c == b'-'
    then signed_digits true s
    else if c == b'+'
    then signed_digits false s
    else signed_digits false (c ∷ s)

-- std::stoi(s): white space, a sign, and as many digits as there are; what follows is ignored
unfoldable pub stoi : Bytes → Result ℤ
unfolding skip_space read_digits signed_digits read_sign
stoi s = read_sign (skip_space s)

abbrev pub AllDigits : Bytes → Type 0
AllDigits [] = Unit {0}
AllDigits (c ∷ s) = (is_digit c ≡ true) × AllDigits s

AllDigits-append : (s t : Bytes) → AllDigits s → AllDigits t → AllDigits (s ++ t)
AllDigits-append [] t h k = k
AllDigits-append (c ∷ s) t h k = (h.0, AllDigits-append s t h.1 k)

read_digits-append :
    (acc : ℕ) (s t : Bytes)
    → AllDigits s
    → read_digits acc (s ++ t) ≡ read_digits (read_digits acc s) t
unfolding read_digits
read_digits-append acc [] t h = refl
read_digits-append acc (c ∷ s) t h =
    ground (arith, read_digits-append (acc * 10 + (c - b'0')) s t h.1)

to_string_fuel-AllDigits : (f n : ℕ) → n < f → AllDigits (to_string_fuel f n)
unfolding to_string_fuel
to_string_fuel-AllDigits zero n h = elim h [ ]
to_string_fuel-AllDigits (suc f) n h = elim (Bool-cases (ltb n 10)) [
  | inl small ↦ rw small (ground arith, tt)
  | inr big ↦
      rw big (
        AllDigits-append _ _ (to_string_fuel-AllDigits f (n / 10) (ground arith))
          (ground arith, tt))
]

read_digits-to_string_fuel : (f n : ℕ) → n < f → read_digits 0 (to_string_fuel f n) ≡ n
unfolding to_string_fuel
read_digits-to_string_fuel zero n h = elim h [ ]
read_digits-to_string_fuel (suc f) n h = elim (Bool-cases (ltb n 10)) [
  | inl small ↦ rw small (unfold read_digits in ground arith)
  | inr big ↦
      rw
        (
          big,
          read_digits-append 0 (to_string_fuel f (n / 10)) _
              (to_string_fuel-AllDigits f (n / 10) (ground arith)),
          read_digits-to_string_fuel f (n / 10) (ground arith),
        )
        (unfold read_digits in ground arith)
]

pub to_string-AllDigits : (n : ℕ) → AllDigits (to_string n)
unfolding to_string
to_string-AllDigits n = to_string_fuel-AllDigits (suc n) n (omega arith)

pub read_digits-to_string : (n : ℕ) → read_digits 0 (to_string n) ≡ n
unfolding to_string
read_digits-to_string n = read_digits-to_string_fuel (suc n) n (omega arith)

to_string_fuel_front :
    (f n : ℕ) (rest : Bytes)
    → n < f
    → (c : ℕ) × (t : Bytes) × (to_string_fuel f n ++ rest ≡ c ∷ t) × (is_digit c ≡ true)
unfolding to_string_fuel
to_string_fuel_front zero n rest h = elim h [ ]
to_string_fuel_front (suc f) n rest h = elim (Bool-cases (ltb n 10)) [
  | inl small ↦ rw small (b'0' + n, rest, refl, ground arith)
  | inr big ↦
      let (c, t, e, d) = to_string_fuel_front f (n / 10) ((b'0' + n % 10) ∷ rest) (ground arith) in
      rw (big, append_assoc) (c, t, e, d)
]

pub to_string-nonempty : (n : ℕ) → is_empty (to_string n) ≡ false
unfolding to_string
to_string-nonempty n =
    let (c, t, e, d) = to_string_fuel_front (suc n) n [] (omega arith) in
    ap is_empty (sym (append-nil (to_string_fuel (suc n) n)) ∙ e)

-- What follows the number does not begin with a digit.
abbrev pub NoDigit : Bytes → Type 0
NoDigit s = starts_with_digit s ≡ false

read_digits_stop : (n : ℕ) (s : Bytes) → NoDigit s → read_digits n s ≡ n
unfolding read_digits
read_digits_stop n [] h = refl
read_digits_stop n (c ∷ s) h = rw h

-- A digit in front is neither white space nor a sign.
stoi_digits : (c : ℕ) (t : Bytes) → is_digit c ≡ true → stoi (c ∷ t) ≡ signed_digits false (c ∷ t)
unfolding stoi
stoi_digits c t d = ground arith

signed_digits_value :
    (c n : ℕ) (t : Bytes)
    → is_digit c ≡ true
    → read_digits 0 (c ∷ t) ≡ n
    → n < 2 ^ 31
    → signed_digits false (c ∷ t) ≡ ok (pos n)
unfolding signed_digits
signed_digits_value c n t d e h = rw (e, d) (ground arith)

-- A text that begins with digits is read as their number, if that is below 2^31.
pub stoi-read_digits :
    (c : ℕ) (t : Bytes)
    → is_digit c ≡ true
    → read_digits 0 (c ∷ t) < 2 ^ 31
    → stoi (c ∷ t) ≡ ok (pos (read_digits 0 (c ∷ t)))
stoi-read_digits c t d h = stoi_digits c t d ∙ signed_digits_value c _ t d refl h

-- A number below 2^31 is read back, whatever follows that is no digit.
pub stoi-to_string :
    (n : ℕ) (rest : Bytes) → n < 2 ^ 31 → NoDigit rest → stoi (to_string n ++ rest) ≡ ok (pos n)
unfolding to_string
stoi-to_string n rest h stop =
    let digits = to_string_fuel (suc n) n in
    let (c, t, e, d) = to_string_fuel_front (suc n) n rest (omega arith) in
    let all = to_string_fuel-AllDigits (suc n) n (omega arith) in
    let value : read_digits 0 (digits ++ rest) ≡ n =
      read_digits-append 0 digits rest all
      ∙ ap (λ a. read_digits a rest) (read_digits-to_string_fuel (suc n) n (omega arith))
      ∙ read_digits_stop n rest stop in
    rw e (stoi_digits c t d ∙ signed_digits_value c n t d (ap (read_digits 0) (sym e) ∙ value) h)

signed_digits_large :
    (c n : ℕ) (t : Bytes)
    → is_digit c ≡ true
    → read_digits 0 (c ∷ t) ≡ n
    → 2 ^ 31 ≤ n
    → signed_digits false (c ∷ t) ≡ err out_of_range
unfolding signed_digits
signed_digits_large c n t d e h = rw (e, d) (ground arith)

-- A number from 2^31 on is out of range.
pub stoi_large : (n : ℕ) → 2 ^ 31 ≤ n → stoi (to_string n) ≡ err out_of_range
unfolding to_string
stoi_large n h =
    let digits = to_string_fuel (suc n) n in
    let (c, t, e, d) = to_string_fuel_front (suc n) n [] (omega arith) in
    let whole : digits ≡ c ∷ t = sym (append-nil digits) ∙ e in
    rw whole (
      stoi_digits c t d
      ∙ signed_digits_large c n t d
          (ap (read_digits 0) (sym whole) ∙ read_digits-to_string_fuel (suc n) n (omega arith)) h)

stoi_tests :
    (stoi (codes " -12x") ≡ ok (negsuc 11))
    × (stoi (codes "4294967296") ≡ err out_of_range)
    × (stoi (codes "<sip:") ≡ err invalid_argument)
    × (to_string 5060 ≡ codes "5060")
unfolding stoi to_string
stoi_tests = (refl, refl, refl, refl)
