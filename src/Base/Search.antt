-- ===== src/Base/Search.antt =====
-- Searching a text that is given in parts.
use Prim.Native.Nat.{ℕ, zero, suc, ◌+◌, ◌≤◌, ◌-◌}
use mathlib.Core.Path.{◌≡◌, refl, sym, ap, ◌∙◌}
use mathlib.Core.Bool.{true, false}
use mathlib.Core.Logic.{◌≢◌, ◌⊎◌, inl, inr}
use mathlib.Core.Option.{some}
use mathlib.Core.List.{List, [], ◌∷◌, ◌++◌}
use native.Mathlib.Omega.{arith}
use minimal_sip_proxy_sip_cl.Base.Tests.{Bool-cases, Option-cases}
use minimal_sip_proxy_sip_cl.Base.Text.{
  Bytes, length, take, starts_with, length-append, drop, find, find_from, starts_with-append,
  drop-length-append,
}

abbrev pub Lacks : ℕ → Bytes → Type 0
Lacks b [] = Unit {0}
Lacks b (c ∷ s) = (c ≢ b) × Lacks b s

pub Lacks-append : (b : ℕ) (s t : Bytes) → Lacks b s → Lacks b t → Lacks b (s ++ t)
Lacks-append b [] t h k = k
Lacks-append b (c ∷ s) t h k = (h.0, Lacks-append b s t h.1 k)

-- A search skips what lacks the first byte of the pattern.
pub find_skip :
    (b i : ℕ) (p l s : Bytes)
    → Lacks b l
    → find (b ∷ p) s ≡ some i
    → find (b ∷ p) (l ++ s) ≡ some (length l + i)
unfolding find
find_skip b i p [] s h e = ground arith
find_skip b i p (c ∷ l) s h e = ground (arith, find_skip b i p l s h.1 e)

-- A pattern is found where the text begins with it.
pub find_here : (b : ℕ) (p s : Bytes) → find (b ∷ p) ((b ∷ p) ++ s) ≡ some 0
unfolding find
find_here b p s = rw (starts_with-append (b ∷ p) s)

pub drop-append : (a b : Bytes) (n k : ℕ) → k ≡ length a + n → drop k (a ++ b) ≡ drop n b
drop-append [] b n k e = ap (λ j. drop j b) (omega arith)
drop-append (c ∷ a) b n zero e = absurd (omega arith)
drop-append (c ∷ a) b n (suc k) e = drop-append a b n k (omega arith)

-- A search from the end of the first part is a search in the second.
pub find_from-append :
    (p a b : Bytes) (i : ℕ)
    → find p b ≡ some i
    → find_from p (a ++ b) (some (length a)) ≡ some (i + length a)
unfolding find_from
find_from-append p a b i e = rw (drop-length-append a b, e) (ground (arith, length-append a b))

starts_with_longer :
    (p s t : Bytes) → length p ≤ length s → starts_with p (s ++ t) ≡ starts_with p s
unfolding starts_with
starts_with_longer [] s t h = refl
starts_with_longer (c ∷ p) [] t h = absurd (omega arith)
starts_with_longer (c ∷ p) (d ∷ s) t h = rw (starts_with_longer p s t (omega arith))

starts_with-length : (p s : Bytes) → starts_with p s ≡ true → length p ≤ length s
unfolding starts_with
starts_with-length [] s h = omega arith
starts_with-length (c ∷ p) [] h = absurd (cc)
starts_with-length (c ∷ p) (d ∷ s) h = ground (arith, starts_with-length p s)

-- A search finds the pattern at the front, or behind the first byte.
find-cons :
    (p : Bytes) (c i : ℕ) (s : Bytes)
    → find p (c ∷ s) ≡ some i
    → ((starts_with p (c ∷ s) ≡ true) × (i ≡ 0))
      ⊎ ((j : ℕ) × (starts_with p (c ∷ s) ≡ false) × (find p s ≡ some j) × (i ≡ suc j))
unfolding find
find-cons p c i s h = elim (Bool-cases (starts_with p (c ∷ s))) [
  | inl e ↦ inl (e, ground arith)
  | inr e ↦ elim (Option-cases (find p s)) [
    | inl n ↦ absurd (cc (rw (e, n) at h))
    | inr (j, f) ↦ inr (j, e, f, cc (rw (e, f) at h))
  ]
]

-- What is found lies within the text.
pub find_within : (p s : Bytes) (i : ℕ) → find p s ≡ some i → i + length p ≤ length s
find_within [] [] i h = unfold find in ground arith
find_within (b ∷ p) [] i h = absurd (unfold find in cc)
find_within p (c ∷ s) i h = elim (find-cons p c i s h) [
  | inl (e, z) ↦ omega (arith, starts_with-length p (c ∷ s) e)
  | inr (j, e, f, k) ↦ omega (arith, find_within p s j f)
]

-- What is found stays where it is when more text comes.
pub find_longer : (p s t : Bytes) (i : ℕ) → find p s ≡ some i → find p (s ++ t) ≡ some i
unfolding find
find_longer [] [] [] i h = h
find_longer [] [] (c ∷ t) i h = ground (arith, starts_with-append [] (c ∷ t))
find_longer (b ∷ p) [] t i h = ground arith
find_longer p (c ∷ s) t i h =
    let same = starts_with_longer p (c ∷ s) t (omega (arith, find_within p (c ∷ s) i h)) in
    elim (find-cons p c i s h) [
      | inl (e, z) ↦ rw (same, e, z) refl
      | inr (j, e, f, k) ↦ rw (same, e, find_longer p s t j f, k) refl
    ]

pub take-drop {ℓ} : {A : Type ℓ} (n : ℕ) (s : List A) → take n s ++ drop n s ≡ s
take-drop zero s = refl
take-drop (suc n) [] = refl
take-drop (suc n) (c ∷ s) = ap (◌∷◌ c) (take-drop n s)

pub length-take {ℓ} : {A : Type ℓ} (n : ℕ) (s : List A) → n ≤ length s → length (take n s) ≡ n
length-take zero s h = refl
length-take (suc n) [] h = absurd (omega arith)
length-take (suc n) (c ∷ s) h = omega (arith, length-take n s (omega arith))

pub length-drop {ℓ} : {A : Type ℓ} (n : ℕ) (s : List A) → length (drop n s) ≡ length s - n
length-drop zero s = omega arith
length-drop (suc n) [] = omega arith
length-drop (suc n) (c ∷ s) = omega (arith, length-drop n s)

starts_with-take :
    (p s : Bytes) (n : ℕ) → length p ≤ n → n ≤ length s → starts_with p (take n s) ≡ starts_with p s
starts_with-take p s n h k =
    sym (starts_with_longer p (take n s) (drop n s) (omega (arith, length-take {0} n s)))
    ∙ ap (starts_with p) (take-drop n s)

pub found_zero : (p s : Bytes) → starts_with p s ≡ true → find p s ≡ some 0
unfolding find starts_with
found_zero [] [] h = refl
found_zero (b ∷ p) [] h = cc
found_zero p (c ∷ s) h = rw h

found_suc :
    (p : Bytes) (c j : ℕ) (s : Bytes)
    → starts_with p (c ∷ s) ≡ false
    → find p s ≡ some j
    → find p (c ∷ s) ≡ some (suc j)
unfolding find
found_suc p c j s e f = rw (e, f) refl

-- A text up to the end of what is found holds it at the same place.
pub find-take :
    (p s : Bytes) (i k : ℕ) → k ≡ i + length p → find p s ≡ some i → find p (take k s) ≡ some i
find-take p [] i k e h = ap (find p) (take-nil k) ∙ h
  where
    take-nil : (n : ℕ) → take {A = ℕ} n [] ≡ []
    take-nil zero = refl
    take-nil (suc n) = refl
find-take p (c ∷ s) i zero e h = elim (find-cons p c i s h) [
  | inl (f, z) ↦ rw (only_empty p (omega arith), z) (unfold find in refl)
  | inr (j, f, g, z) ↦ absurd (omega arith)
]
  where
    only_empty : (q : Bytes) → length q ≡ 0 → q ≡ []
    only_empty [] h' = refl
    only_empty (b ∷ q) h' = absurd (omega arith)
find-take p (c ∷ s) i (suc k) e h =
    let same : starts_with p (c ∷ take k s) ≡ starts_with p (c ∷ s) =
      starts_with-take p (c ∷ s) (suc k) (omega arith) (omega (arith, find_within p (c ∷ s) i h)) in
    elim (find-cons p c i s h) [
      | inl (f, z) ↦ rw z (found_zero p (c ∷ take k s) (same ∙ f))
      | inr (j, f, g, z) ↦
          rw z (found_suc p c j (take k s) (same ∙ f) (find-take p s j k (omega arith) g))
    ]
