-- ===== src/Runner/Ledgers.antt =====
-- Ledgers as texts: `fraction_text` and `fraction_map` of turnvector_benchmark/core.py, and the checks of
-- a reply's fields and ledgers in turnvector_benchmark/runner.py.
use Prim.Native.String
use turn_vector_benchmark.Base.{
  ℕ, zero, suc, ◌+◌, ◌-◌, ◌*◌, ◌/◌, ◌%◌, ltb, ◌==◌, String, Bool, true, false, not, ◌&&◌, ◌||◌,
  Option, none, some, List, [], ◌∷◌, all, length, is_empty, str_eq, Result, ok, err, raise_if,
  contract_error, value_error, ◌>>=◌, ◌>>◌,
}
use turn_vector_benchmark.Base.Order.{codes}
use turn_vector_benchmark.Base.Dict.{Dict, lookup, keys}
use turn_vector_benchmark.Base.Sets.{contains, set_of}
use turn_vector_benchmark.Base.Gcd.{gcd}
use turn_vector_benchmark.Base.Fraction.{Fraction, denominator}
use turn_vector_benchmark.Lifecycle.{Json, str, obj, entries}
use turn_vector_benchmark.Lifecycle.Contracts.{between}

-- Python's `str(n)`: the number itself is fuel enough, since a tenth is smaller.
abbrev pub decimal : ℕ → ℕ → String
decimal zero n = String.slice "0123456789" n (n + 1)
decimal (suc fuel) n = elim (ltb n 10) [
  | true ↦ String.slice "0123456789" n (n + 1)
  | false ↦ String.◌++◌ (decimal fuel (n / 10)) (String.slice "0123456789" (n % 10) (n % 10 + 1))
]

unfoldable pub fraction_text : Fraction → String
fraction_text f =
    String.◌++◌ (decimal f.numerator f.numerator)
      (String.◌++◌ "/" (decimal (denominator f) (denominator f)))

abbrev pub text_at : Dict Fraction → List String → Dict String
text_at d [] = []
text_at d (k ∷ ks) = elim (lookup k d) [
  | none ↦ text_at d ks
  | some f ↦ (k, fraction_text f) ∷ text_at d ks
]

unfoldable pub fraction_map : Dict Fraction → Dict String
fraction_map d = text_at d (set_of (keys d))

-- `set(a) == set(b)`
abbrev pub same_set : List String → List String → Bool
same_set a b = all (λ k. contains k b) a && all (λ k. contains k a) b

abbrev pub is_value : String → Option String → Bool
is_value v none = false
is_value v (some w) = str_eq v w

-- `a == b` of two dicts, whose keys are distinct
unfoldable pub same_dict : Dict String → Dict String → Bool
same_dict a b =
    (length a == length b) && all (λ (p : String × String). is_value p.1 (lookup p.0 b)) a

unfoldable pub require_response : List String → Dict Json → Result (Unit {0})
require_response required response =
    raise_if (not (same_set required (keys response))) contract_error

abbrev pub number_of : ℕ → List ℕ → ℕ
number_of n [] = n
number_of n (c ∷ cs) = number_of (n * 10 + (c - 48)) cs

-- Decimal digits with no leading zero.
abbrev pub is_number : List ℕ → Bool
is_number [] = false
is_number (c ∷ cs) = all (between 48 57) (c ∷ cs) && (not (c == 48) || is_empty cs)

abbrev pub is_lowest : List ℕ → List ℕ → Bool
is_lowest n d =
    is_number n
    && is_number d
    && not (number_of 0 d == 0)
    && (gcd (number_of 0 n) (number_of 0 d) == 1)

abbrev pub snoc : List ℕ → ℕ → List ℕ
snoc [] c = c ∷ []
snoc (b ∷ bs) c = b ∷ snoc bs c

abbrev pub begins_zero : List ℕ → Bool
begins_zero [] = false
begins_zero (c ∷ cs) = c == 48

-- A numerator, as read so far, then a slash and a denominator.
abbrev pub is_ratio : List ℕ → List ℕ → Bool
is_ratio n [] = false
is_ratio n (c ∷ cs) = elim (c == 47) [ true ↦ is_lowest n cs | false ↦ is_ratio (snoc n c) cs ]

-- `fraction_text` of the fraction that was read is the same text: of the spellings that `Fraction`
-- reads only a ratio in lowest terms, with a minus sign before a positive numerator at most.
unfoldable pub is_canonical : List ℕ → Bool
is_canonical [] = false
is_canonical (c ∷ cs) = elim (c == 45) [
  | true ↦ is_ratio [] cs && not (begins_zero cs)
  | false ↦ is_ratio [] (c ∷ cs)
]

-- What Python makes of a text: `Fraction` refuses it (no number, a zero denominator, more digits than an
-- integer may be read from), or reads a fraction whose numerator or denominator has more digits than an
-- integer may be written with, or reads one that can be written.
pub data Reading : Type 0 where
  refused oversized readable : Reading

-- A readable text against `fraction_text` of what was read.
abbrev pub check_canonical : Reading → String → Result (Unit {0})
check_canonical refused ledger = err contract_error
check_canonical oversized ledger = err value_error
check_canonical readable ledger = raise_if (not (is_canonical (codes ledger))) contract_error

module _ (reading : String → Reading) where
  abbrev pub ledger_values : Dict Json → Result (Dict String)
  ledger_values [] = ok []
  ledger_values ((model_id, str ledger) ∷ d) = do
    check_canonical (reading ledger) ledger
    rest ← ledger_values d
    ok ((model_id, ledger) ∷ rest)
  ledger_values ((model_id, _) ∷ d) = err contract_error

  unfoldable pub ledger_response : Json → List String → Result (Dict String)
  ledger_response (obj fs) expected_models = do
    raise_if (not (same_set (keys (entries fs)) expected_models)) contract_error
    ledger_values (entries fs)
  ledger_response value expected_models = err contract_error
