-- ===== src/Dict.antt =====
-- Python's `dict` with text keys: an association list in the order of insertion. Clients use
-- `dict_laws`.
use text.Mathlib.Text.{◌==◌ as str_eq}
use text.Mathlib.TextEquality.{eq_iff}
use portex.Common.{
  ◌≡◌, refl, Option, none, some, Bool, true, false, ◌||◌, List, [], ◌∷◌, String, arith,
  if◌then◌else◌,
}

abbrev pub Dict {ℓ} : Type ℓ → Type ℓ
Dict V = List (String × V)

abbrev pub is_some {ℓ} : {A : Type ℓ} → Option A → Bool
is_some none = false
is_some (some x) = true

module _ {ℓ} {V : Type ℓ} where
  -- `d.get(key)`
  unfoldable pub get : Dict V → String → Option V
  get [] key = none
  get ((k, v) ∷ d) key = if str_eq k key then some v else get d key

  -- `d[key] = value`: a key that is there keeps its place.
  unfoldable pub put : Dict V → String → V → Dict V
  put [] key value = (key, value) ∷ []
  put ((k, v) ∷ d) key value = if str_eq k key then (k, value) ∷ d else (k, v) ∷ put d key value

  -- `d.pop(key, None)`
  unfoldable pub pop : Dict V → String → Dict V
  pop [] key = []
  pop ((k, v) ∷ d) key = let rest = pop d key in if str_eq k key then rest else (k, v) ∷ rest

  -- `key in d`
  abbrev pub has : Dict V → String → Bool
  has d key = is_some (get d key)

  -- `list(d.values())`
  unfoldable pub values : Dict V → List V
  values [] = []
  values ((k, v) ∷ d) = v ∷ values d

  pub get-put :
      (d : Dict V) (key other : String) (value : V)
      → get (put d key value) other ≡ (if str_eq key other then some value else get d other)
  unfolding get put
  get-put [] key other value = refl
  get-put ((k, v) ∷ d) key other value =
      ground (arith, eq_iff k key, eq_iff k other, eq_iff key other, get-put d key other value)

  pub get-pop :
      (d : Dict V) (key other : String)
      → get (pop d key) other ≡ (if str_eq key other then none else get d other)
  unfolding get pop
  get-pop [] key other = ground arith
  get-pop ((k, v) ∷ d) key other =
      ground (arith, eq_iff k key, eq_iff k other, eq_iff key other, get-pop d key other)

  pub has-put :
      (d : Dict V) (key other : String) (value : V)
      → has (put d key value) other ≡ (str_eq key other || has d other)
  has-put d key other value = ground (arith, get-put d key other value)

pub ruleset dict_laws = (get-put, get-pop)
