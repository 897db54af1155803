-- ===== src/Base/Regex/Runs.antt =====
-- What a greedy repetition of std::regex takes where a run of its class comes to an end.
use mathlib.Core.Path.{◌≡◌, refl}
use mathlib.Core.Bool.{Bool, true, false}
use mathlib.Core.Option.{some}
use mathlib.Core.List.{[], ◌∷◌, ◌++◌, List}
use Prim.Native.Nat.{ℕ}
use minimal_sip_proxy_sip_cl.Base.Tests.{Bool-cases}
use mathlib.Core.Logic.{inl, inr}
use minimal_sip_proxy_sip_cl.Base.Text.{Bytes}
use minimal_sip_proxy_sip_cl.Base.Regex.{Item, many, repeat_class, match}

-- Every byte is in the class, and the first byte, if any, is not.
abbrev pub AllIn : (ℕ → Bool) → Bytes → Type 0
AllIn class [] = Unit {0}
AllIn class (c ∷ s) = (class c ≡ true) × AllIn class s

abbrev pub Stops : (ℕ → Bool) → Bytes → Type 0
Stops class [] = Unit {0}
Stops class (c ∷ s) = class c ≡ false

-- The repetition takes the whole run, if the rest of the pattern matches behind it.
pub many_run :
    (class : ℕ → Bool) (p : List Item) (run s taken : Bytes) (groups : List Bytes)
    → AllIn class run
    → Stops class s
    → match p s ≡ some (taken, groups)
    → match (many class ∷ p) (run ++ s) ≡ some (run ++ taken, groups)
unfolding match repeat_class
many_run class p [] [] taken groups a n h = h
many_run class p [] (c ∷ s) taken groups a n h = rw n h
many_run class p (c ∷ run) s taken groups a n h =
    rw (a.0, many_run class p run s taken groups a.1 n h) refl

-- At the end of a pattern it always matches, and has no group.
pub many_last :
    (class : ℕ → Bool) (s : Bytes)
    → (taken : Bytes) × (match (many class ∷ []) s ≡ some (taken, []))
unfolding match repeat_class
many_last class [] = ([], refl)
many_last class (c ∷ s) = elim (Bool-cases (class c)) [
  | inl e ↦ let (taken, h) = many_last class s in (c ∷ taken, rw (e, h) refl)
  | inr e ↦ ([], rw e refl)
]
