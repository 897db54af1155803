-- ===== src/Base/Regex.antt =====
-- `std::regex_search` for the patterns of the sources: a sequence of classes of bytes and of
-- greedy repetitions of a class, with groups. A search takes the leftmost match, and there the
-- first alternative that matches; a repetition is as long as the rest of the pattern allows.
pub mod Matches
pub mod Runs
use mathlib.Core.Bool.{Bool, not, ◌&&◌, ◌||◌}
use mathlib.Core.Option
use mathlib.Core.Option.{Option, none, some}
use mathlib.Core.List.{List, [], ◌∷◌, ◌++◌}
use Prim.Native.Nat.{ℕ, ◌-◌}
use minimal_sip_proxy_sip_cl.Base.Tests.{◌==◌, leb, if◌then◌else◌}
use minimal_sip_proxy_sip_cl.Base.Text.{Bytes}
use minimal_sip_proxy_sip_cl.Base.Decimal.{is_digit, is_space}

-- ::toupper in the "C" locale
unfoldable pub to_upper : ℕ → ℕ
to_upper c = if leb 97 c && leb c 122 then c - 32 else c

pub data Item : Type 0 where
  one many : (ℕ → Bool) → Item
  open_group close_group : Item

-- The text up to the next border of a group, and the groups behind it.
abbrev pub Groups : Type 0
Groups = Bytes × List Bytes

abbrev add_byte : ℕ → Groups → Groups
add_byte c g = (c ∷ g.0, g.1)

-- A greedy repetition in front of the rest of a pattern.
unfoldable pub repeat_class : (ℕ → Bool) → (Bytes → Option Groups) → Bytes → Option Groups
repeat_class class rest [] = rest []
repeat_class class rest (c ∷ s) =
    let more = Option.map (add_byte c) (repeat_class class rest s) in
    if class c then elim more [ none ↦ rest (c ∷ s) | some g ↦ some g ] else rest (c ∷ s)

unfoldable pub match : List Item → Bytes → Option Groups
unfolding repeat_class
match [] s = some ([], [])
match (one class ∷ p) [] = none
match (one class ∷ p) (c ∷ s) =
    let rest = Option.map (add_byte c) (match p s) in if class c then rest else none
match (many class ∷ p) s = repeat_class class (match p) s
match (open_group ∷ p) s = Option.map (λ (g : Groups). ([], g.0 ∷ g.1)) (match p s)
match (close_group ∷ p) s = Option.map (λ (g : Groups). ([], g.1)) (match p s)

unfoldable pub match_any : List (List Item) → Bytes → Option Groups
unfolding match
match_any [] s = none
match_any (p ∷ ps) s = elim (match p s) [ none ↦ match_any ps s | some g ↦ some g ]

-- The groups of the match.
unfoldable pub regex_search : List (List Item) → Bytes → Option (List Bytes)
unfolding match_any
regex_search ps [] = Option.map (λ (g : Groups). g.1) (match_any ps [])
regex_search ps (c ∷ s) =
    let later = regex_search ps s in
    elim (match_any ps (c ∷ s)) [ none ↦ later | some g ↦ some g.1 ]

-- m[1].str() of a match
abbrev pub group_one : List Bytes → Bytes
group_one [] = []
group_one (g ∷ gs) = g

abbrev pub group_two : List Bytes → Bytes
group_two [] = []
group_two (g ∷ gs) = group_one gs

-- A literal text, and one under std::regex::icase.
abbrev pub literal : Bytes → List Item
literal [] = []
literal (c ∷ s) = one (λ x. x == c) ∷ literal s

abbrev pub literal_icase : Bytes → List Item
literal_icase [] = []
literal_icase (c ∷ s) = one (λ x. to_upper x == to_upper c) ∷ literal_icase s

-- \s* and \s+, \d, \w, \S and .
abbrev pub is_word : ℕ → Bool
is_word c = is_digit c || (leb 65 c && leb c 90) || (leb 97 c && leb c 122) || c == 95

abbrev pub is_visible : ℕ → Bool
is_visible c = not (is_space c)

abbrev pub is_inline : ℕ → Bool
is_inline c = not (c == 10 || c == 13)

abbrev pub plus : (ℕ → Bool) → List Item
plus class = one class ∷ many class ∷ []

abbrev pub group : List Item → List Item
group p = open_group ∷ (p ++ close_group ∷ [])
