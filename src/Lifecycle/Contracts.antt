-- ===== src/Lifecycle/Contracts.antt =====
-- The checks of turnvector_benchmark/cross_engine/contracts.py: each returns what it accepts or raises
-- a `ContractError`. Texts are `String`s, all of which encode in UTF-8.
use Prim.Native.String.{len}
use turn_vector_benchmark.Base.{
  ℕ, zero, suc, ◌+◌, ◌/◌, ltb, leb, ◌==◌, String, Bool, true, false, not, ◌&&◌, ◌||◌, List, [], ◌∷◌,
  all, any, is_empty, length, str_eq, Result, ok, err, raise_if, contract_error, ◌>>=◌, ◌>>◌,
}
use turn_vector_benchmark.Base.Order.{codes}
use turn_vector_benchmark.Base.Dict.{Dict, lookup, or_key_error, keys}
use turn_vector_benchmark.Base.Sets.{contains, all_distinct}
use turn_vector_benchmark.Base.Int.{ℤ, pos, negsuc, ltb_ℤ}
use turn_vector_benchmark.Lifecycle.{
  Json, null, bool, int, float, str, arr, obj, Items, no_items, item, Fields, no_fields, field,
  items, entries,
}

abbrev pub max_text_bytes : ℕ
max_text_bytes = 4096

abbrev pub max_identifier_bytes : ℕ
max_identifier_bytes = 128

abbrev pub max_array_items : ℕ
max_array_items = 1024

-- 2 ** 63 - 1
abbrev pub i64_max : ℤ
i64_max = pos 9223372036854775807

-- `d[k]`
abbrev pub get {ℓ} : {V : Type ℓ} → Dict V → String → Result V
get d k = or_key_error (lookup k d)

-- An object with the required keys, and of the others only optional ones.
unfoldable pub strict_object : List String → List String → Json → Result (Dict Json)
strict_object required optional (obj fs) = do
  let d = entries fs
  raise_if (any (λ k. not (contains k (keys d))) required) contract_error
  raise_if (any (λ k. not (contains k required || contains k optional)) (keys d)) contract_error
  ok d
strict_object required optional _ = err contract_error

unfoldable pub bounded_string : ℕ → Bool → Json → Result String
bounded_string maximum_bytes allow_empty (str s) = do
  raise_if (str_eq s "" && not allow_empty) contract_error
  raise_if (any (λ c. c == 0) (codes s)) contract_error
  raise_if (ltb maximum_bytes (len s)) contract_error
  ok s
bounded_string maximum_bytes allow_empty _ = err contract_error

abbrev pub between : ℕ → ℕ → ℕ → Bool
between low high c = leb low c && leb c high

-- A non-empty text whose first character and whose other characters are of the given kinds.
abbrev pub begins : (ℕ → Bool) → (ℕ → Bool) → List ℕ → Bool
begins first others [] = false
begins first others (c ∷ cs) = first c && all others cs

-- `[a-z0-9][a-z0-9._-]*`
abbrev pub is_identifier : List ℕ → Bool
is_identifier =
    begins (λ c. between 97 122 c || between 48 57 c)
      (λ c. between 97 122 c || between 48 57 c || (c == 46) || (c == 95) || (c == 45))

-- `[A-Z_][A-Z0-9_]*`
abbrev pub is_environment_name : List ℕ → Bool
is_environment_name =
    begins (λ c. between 65 90 c || (c == 95))
      (λ c. between 65 90 c || between 48 57 c || (c == 95))

-- `[0-9a-f]{64}`
abbrev pub is_sha256 : List ℕ → Bool
is_sha256 cs = (length cs == 64) && all (λ c. between 48 57 c || between 97 102 c) cs

unfoldable pub identifier : Json → Result String
identifier value = do
  s ← bounded_string max_identifier_bytes false value
  raise_if (not (is_identifier (codes s))) contract_error
  ok s

unfoldable pub environment_name : Json → Result String
environment_name value = do
  s ← bounded_string max_identifier_bytes false value
  raise_if (not (is_environment_name (codes s))) contract_error
  ok s

unfoldable pub sha256_digest : Json → Result String
sha256_digest value = do
  s ← bounded_string 64 false value
  raise_if (not (is_sha256 (codes s))) contract_error
  ok s

unfoldable pub integer : ℤ → ℤ → Json → Result ℤ
integer minimum maximum (int v) = do
  raise_if (ltb_ℤ v minimum || ltb_ℤ maximum v) contract_error
  ok v
integer minimum maximum _ = err contract_error

unfoldable pub boolean : Json → Result Bool
boolean (bool b) = ok b
boolean _ = err contract_error

unfoldable pub bounded_array : ℕ → Bool → Json → Result (List Json)
bounded_array maximum_items allow_empty (arr vs) = do
  raise_if (not allow_empty && is_empty (items vs)) contract_error
  raise_if (ltb maximum_items (length (items vs))) contract_error
  ok (items vs)
bounded_array maximum_items allow_empty _ = err contract_error

-- `tuple(parse(item) for item in raw)`
abbrev pub parse_all {ℓ} : {A : Type ℓ} → (Json → Result A) → List Json → Result (List A)
parse_all parse [] = ok []
parse_all parse (v ∷ vs) = do a ← parse v; rest ← parse_all parse vs; ok (a ∷ rest)

unfoldable pub unique_strings : ℕ → (Json → Result String) → Json → Result (List String)
unique_strings maximum_items parse value = do
  raw ← bounded_array maximum_items true value
  parsed ← parse_all parse raw
  raise_if (not (all_distinct parsed)) contract_error
  ok parsed

-- `len(canonical_json_bytes(value))`: compact, with the escapes of `json.dumps(ensure_ascii=False)`.
abbrev pub escape_size : ℕ → ℕ
escape_size c = elim ((c == 34) || (c == 92) || between 8 10 c || between 12 13 c) [
  | true ↦ 2
  | false ↦ elim (ltb c 32) [
    | true ↦ 6
    | false ↦ elim (ltb c 128) [
      | true ↦ 1
      | false ↦ elim (ltb c 2048) [ true ↦ 2 | false ↦ elim (ltb c 65536) [ true ↦ 3 | false ↦ 4 ] ]
    ]
  ]
]

abbrev pub codes_size : List ℕ → ℕ
codes_size [] = 0
codes_size (c ∷ cs) = escape_size c + codes_size cs

-- The count of a number's decimal digits: the number itself is fuel enough, since a tenth is smaller.
abbrev pub digits : ℕ → ℕ → ℕ
digits zero n = 1
digits (suc fuel) n = elim (ltb n 10) [ true ↦ 1 | false ↦ 1 + digits fuel (n / 10) ]

abbrev pub comma : ℕ → ℕ
comma zero = 0
comma (suc n) = 1

unfoldable mutual
  pub canonical_size : Json → Result ℕ
  canonical_size null = ok 4
  canonical_size (bool true) = ok 4
  canonical_size (bool false) = ok 5
  canonical_size (int (pos n)) = ok (digits n n)
  canonical_size (int (negsuc n)) = ok (1 + digits (suc n) (suc n))
  canonical_size (float true n _) = ok n
  canonical_size (float false n _) = err contract_error
  canonical_size (str s) = ok (2 + codes_size (codes s))
  canonical_size (arr vs) = do n ← items_size vs; ok (2 + n)
  canonical_size (obj fs) = do n ← fields_size fs; ok (2 + n)

  pub items_size : Items → Result ℕ
  items_size no_items = ok 0
  items_size (item v vs) = do n ← canonical_size v; rest ← items_size vs; ok (n + comma rest + rest)

  pub fields_size : Fields → Result ℕ
  fields_size no_fields = ok 0
  fields_size (field k v fs) = do
    n ← canonical_size v
    rest ← fields_size fs
    ok (2 + codes_size (codes k) + 1 + n + comma rest + rest)
