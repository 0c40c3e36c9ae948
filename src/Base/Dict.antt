-- ===== src/Base/Dict.antt =====
-- Python's dict and set with text keys, in insertion order.
use turn_vector_benchmark.Base.{
  String, ◌≡◌, refl, Option, none, some, List, [], ◌∷◌, arith, str_eq, eq_iff, if◌then◌else◌,
  Result, ok, err, key_error,
}

abbrev pub Dict {ℓ} : Type ℓ → Type ℓ
Dict V = List (String × V)

module _ {ℓ} {V : Type ℓ} where
  -- `d.get(k)`
  unfoldable pub lookup : String → Dict V → Option V
  lookup k [] = none
  lookup k ((j, v) ∷ d) = if str_eq j k then some v else lookup k d

  -- `d[k] = v`
  unfoldable pub insert : String → V → Dict V → Dict V
  insert k v [] = (k, v) ∷ []
  insert k v ((j, w) ∷ d) = if str_eq j k then (j, v) ∷ d else (j, w) ∷ insert k v d

  pub lookup-nil : (k : String) → lookup k [] ≡ none
  lookup-nil k = unfold lookup in refl

  pub lookup-insert :
      (k j : String) (v : V) (d : Dict V)
      → lookup j (insert k v d) ≡ (if str_eq k j then some v else lookup j d)
  unfolding lookup insert
  lookup-insert k j v [] = refl
  lookup-insert k j v ((i, w) ∷ d) =
      ground (arith, eq_iff k j, eq_iff i k, eq_iff i j, lookup-insert k j v d)

  -- `d[k]`
  abbrev pub or_key_error : Option V → Result V
  or_key_error none = err key_error
  or_key_error (some v) = ok v

  abbrev pub keys : Dict V → List String
  keys [] = []
  keys ((k, _) ∷ d) = k ∷ keys d
