-- ===== src/Base/Map.antt =====
-- `std::unordered_map<std::string, V>` as an association list, with its laws. The order of the
-- entries is the order of their first insertion; C++ leaves it unspecified.
use mathlib.Core.Path.{◌≡◌, refl}
use mathlib.Core.Bool.{Bool, true, false}
use mathlib.Core.Option.{Option, none, some}
use mathlib.Core.List.{List, [], ◌∷◌}
use native.Mathlib.Omega.{arith}
use minimal_sip_proxy_sip_cl.Base.Tests.{if◌then◌else◌}
use minimal_sip_proxy_sip_cl.Base.Text.{Bytes, str_eq, str_eq_iff}

abbrev pub Dict {ℓ} : Type ℓ → Type ℓ
Dict V = List (Bytes × V)

module _ {ℓ} {V : Type ℓ} where
  -- m.find(k)
  unfoldable pub lookup : Dict V → Bytes → Option V
  lookup [] k = none
  lookup ((j, v) ∷ m) k = if str_eq j k then some v else lookup m k

  -- m.contains(k)
  abbrev pub has_key : Dict V → Bytes → Bool
  has_key m k = elim (lookup m k) [ none ↦ false | some v ↦ true ]

  -- m[k] = v
  unfoldable pub insert : Dict V → Bytes → V → Dict V
  insert [] k v = (k, v) ∷ []
  insert ((j, w) ∷ m) k v = if str_eq j k then (j, v) ∷ m else (j, w) ∷ insert m k v

  -- m.erase(k)
  unfoldable pub erase : Dict V → Bytes → Dict V
  erase [] k = []
  erase ((j, w) ∷ m) k = let rest = erase m k in if str_eq j k then rest else (j, w) ∷ rest

  pub lookup-insert :
      (m : Dict V) (k j : Bytes) (v : V)
      → lookup (insert m k v) j ≡ (if str_eq k j then some v else lookup m j)
  unfolding lookup insert
  lookup-insert [] k j v = refl
  lookup-insert ((i, w) ∷ m) k j v =
      ground (arith, str_eq_iff k j, str_eq_iff i k, str_eq_iff i j, lookup-insert m k j v)

  pub lookup-erase :
      (m : Dict V) (k j : Bytes) → lookup (erase m k) j ≡ (if str_eq k j then none else lookup m j)
  unfolding lookup erase
  lookup-erase [] k j = ground arith
  lookup-erase ((i, w) ∷ m) k j =
      ground (arith, str_eq_iff k j, str_eq_iff i k, str_eq_iff i j, lookup-erase m k j)

pub ruleset dict_laws = (lookup-insert, lookup-erase)
