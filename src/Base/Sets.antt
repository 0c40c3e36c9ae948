-- ===== src/Base/Sets.antt =====
-- Python's sets of texts, kept as `sorted(set(...))`: ascending and without repetition.
use turn_vector_benchmark.Base.{
  String, ◌≡◌, refl, Bool, true, false, not, ◌&&◌, ◌||◌, List, [], ◌∷◌, arith, str_eq, eq_iff, In,
  if◌then◌else◌, keep_if,
}
use turn_vector_benchmark.Base.Order.{lte, text_ord}

-- `k in s`
abbrev pub contains : String → List String → Bool
contains k [] = false
contains k (j ∷ s) = str_eq j k || contains k s

pub contains→In : (k : String) (s : List String) → contains k s ≡ true → In k s
contains→In k [] h = cc
contains→In k (j ∷ s) h = ground (arith, eq_iff j k, contains→In k s)

pub In→contains : (k : String) (s : List String) → In k s → contains k s ≡ true
In→contains k [] h = absurd h
In→contains k (j ∷ s) h = ground (arith, eq_iff j k, In→contains k s)

-- `s.add(k)`
unfoldable pub add : String → List String → List String
add k [] = k ∷ []
add k (j ∷ s) =
    let rest = add k s in if str_eq k j then j ∷ s else if lte k j then k ∷ j ∷ s else j ∷ rest

-- `set(ks)`
unfoldable pub set_of : List String → List String
unfolding add
set_of [] = []
set_of (k ∷ ks) = add k (set_of ks)

pub contains-add :
    (j k : String) (s : List String) → contains j (add k s) ≡ (str_eq k j || contains j s)
unfolding add
contains-add j k [] = refl
contains-add j k (i ∷ s) = ground (arith, eq_iff k i, eq_iff k j, eq_iff i j, contains-add j k s)

pub contains-set_of : (j : String) (ks : List String) → contains j (set_of ks) ≡ contains j ks
unfolding set_of
contains-set_of j [] = refl
contains-set_of j (k ∷ ks) = simp (contains-add, contains-set_of j ks)

pub contains-keep_if :
    (p : String → Bool) (j : String) (s : List String)
    → contains j (keep_if p s) ≡ (p j && contains j s)
contains-keep_if p j [] = ground arith
contains-keep_if p j (k ∷ s) = ground (arith, eq_iff k j, contains-keep_if p j s)

-- `len(ks) == len(set(ks))`
unfoldable pub all_distinct : List String → Bool
all_distinct [] = true
all_distinct (k ∷ ks) = not (contains k ks) && all_distinct ks
