-- ===== src/Base/Regex/Matches.antt =====
-- What the groups of a match are made of.
use mathlib.Core.Logic.{inl, inr}
use mathlib.Core.Bool.{Bool}
use mathlib.Core.Option
use mathlib.Core.Option.{Option, none, some}
use mathlib.Core.List.{List, [], ◌∷◌, ◌++◌}
use Prim.Native.Nat.{ℕ}
use minimal_sip_proxy_sip_cl.Base.Tests.{Bool-cases}
use minimal_sip_proxy_sip_cl.Base.Text.{Bytes}
use minimal_sip_proxy_sip_cl.Base.Regex.{
  Item, one, many, Groups, add_byte, match, repeat_class, match_any, regex_search, literal,
}

module _ (Q : List Bytes → Type 0) where
  -- The groups behind the position, if there is a match.
  abbrev pub Holds : Option Groups → Type 0
  Holds none = Unit {0}
  Holds (some g) = Q g.1

  abbrev pub HoldsFound : Option (List Bytes) → Type 0
  HoldsFound none = Unit {0}
  HoldsFound (some groups) = Q groups

  abbrev pub AllMatches : List Item → Type 0
  AllMatches p = (s : Bytes) → Holds (match p s)

  Holds-map : (c : ℕ) (o : Option Groups) → Holds o → Holds (Option.map (add_byte c) o)
  Holds-map c none h = h
  Holds-map c (some g) h = h

  abbrev or_else : Option Groups → Option Groups → Option Groups
  or_else m r = elim m [ none ↦ r | some g ↦ some g ]

  Holds-or_else : (m r : Option Groups) → Holds m → Holds r → Holds (or_else m r)
  Holds-or_else none r h k = k
  Holds-or_else (some g) r h k = h

  pub one-AllMatches :
      (class : ℕ → Bool) (p : List Item) → AllMatches p → AllMatches (one class ∷ p)
  unfolding match
  one-AllMatches class p h [] = tt
  one-AllMatches class p h (c ∷ s) = elim (Bool-cases (class c)) [
    | inl fits ↦ rw fits (Holds-map c (match p s) (h s))
    | inr other ↦ rw other tt
  ]

  repeat_class-Holds :
      (class : ℕ → Bool) (rest : Bytes → Option Groups)
      → ((s : Bytes) → Holds (rest s))
      → (s : Bytes) → Holds (repeat_class class rest s)
  unfolding repeat_class
  repeat_class-Holds class rest h [] = h []
  repeat_class-Holds class rest h (c ∷ s) = elim (Bool-cases (class c)) [
    | inl fits ↦ rw fits (
        Holds-or_else _ (rest (c ∷ s))
          (Holds-map c (repeat_class class rest s) (repeat_class-Holds class rest h s)) (h (c ∷ s)))
    | inr other ↦ rw other (h (c ∷ s))
  ]

  pub many-AllMatches :
      (class : ℕ → Bool) (p : List Item) → AllMatches p → AllMatches (many class ∷ p)
  unfolding match
  many-AllMatches class p h s = repeat_class-Holds class (match p) h s

  pub literal-AllMatches :
      (text : Bytes) (p : List Item) → AllMatches p → AllMatches (literal text ++ p)
  literal-AllMatches [] p h = h
  literal-AllMatches (c ∷ text) p h = one-AllMatches _ _ (literal-AllMatches text p h)

  any-Holds : (p : List Item) → AllMatches p → (s : Bytes) → Holds (match_any (p ∷ []) s)
  unfolding match_any
  any-Holds p h s = Holds-or_else (match p s) none (h s) tt

  HoldsFound-or_else :
      (o : Option Groups) (later : Option (List Bytes))
      → Holds o
      → HoldsFound later
      → HoldsFound (elim o [ none ↦ later | some g ↦ some g.1 ])
  HoldsFound-or_else none later h k = k
  HoldsFound-or_else (some g) later h k = h

  HoldsFound-map : (o : Option Groups) → Holds o → HoldsFound (Option.map (λ (g : Groups). g.1) o)
  HoldsFound-map none h = h
  HoldsFound-map (some g) h = h

  -- The groups that a search finds are those of a match.
  pub regex_search-HoldsFound :
      (p : List Item) → AllMatches p → (s : Bytes) → HoldsFound (regex_search (p ∷ []) s)
  unfolding regex_search
  regex_search-HoldsFound p h [] = HoldsFound-map (match_any (p ∷ []) []) (any-Holds p h [])
  regex_search-HoldsFound p h (c ∷ s) =
      HoldsFound-or_else (match_any (p ∷ []) (c ∷ s)) _ (any-Holds p h (c ∷ s))
        (regex_search-HoldsFound p h s)
