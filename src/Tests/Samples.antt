-- ===== src/Tests/Samples.antt =====
-- A set of two nodes, each full, that the tests and the instances of the results run on.
use indexset.Base.{◌==◌, if◌then◌else◌, ℕ, List, [], ◌∷◌, refl, arith}
use indexset.Order.{nat_ord}
use indexset.Concurrent.SkipMap.{entry}
use indexset.Concurrent.Operation.{Shared}
use indexset.Set.{BTreeSet}
use indexset.Pair.{Pair, pair_ord}
use indexset.Map.{BTreeMap}
use indexset.Set.Valid.{IsValid}
use indexset.Tests.Sums.{sums, sums_counts}

abbrev pub sample : BTreeSet (List ℕ) ℕ
sample = record {
  inner = (1 ∷ 3 ∷ []) ∷ (5 ∷ 8 ∷ []) ∷ [];
  index = 2 ∷ 2 ∷ [];
  node_capacity = 2;
  len = 4;
}

pub sample-IsValid : IsValid sample
sample-IsValid = record {
  nodes = (tt, (tt, tt));
  sorted = ((refl, (refl, (refl, tt))), ((refl, (refl, tt)), ((refl, tt), (tt, tt))));
  counted = sums_counts.counts-from_iter (2 ∷ 2 ∷ []);
  measured = refl;
  capacity = omega arith;
}

-- entries of a map, and a map of two nodes
abbrev pub one : Pair ℕ ℕ
one = record { key = 1; value = 10 }

abbrev pub two : Pair ℕ ℕ
two = record { key = 2; value = 20 }

abbrev pub five : Pair ℕ ℕ
five = record { key = 5; value = 50 }

abbrev pub sample_map : BTreeMap (List ℕ) ℕ ℕ
sample_map = record {
  set = record {
    inner = (one ∷ two ∷ []) ∷ (five ∷ []) ∷ [];
    index = 2 ∷ 1 ∷ [];
    node_capacity = 2;
    len = 3;
  };
}

pub sample_map-IsValid : IsValid sample_map.set
sample_map-IsValid = record {
  nodes = (tt, (tt, tt));
  sorted = ((refl, (refl, tt)), ((refl, tt), (tt, tt)));
  counted = sums_counts.counts-from_iter (2 ∷ 1 ∷ []);
  measured = refl;
  capacity = omega arith;
}

-- a concurrent set of two nodes, each full
abbrev pub full_nodes : Shared (List (Pair ℕ ℕ)) ℕ
full_nodes = record {
  index = entry 3 0 ∷ entry 8 1 ∷ [];
  cell = λ a. if a == 0 then 1 ∷ 3 ∷ [] else if a == 1 then 5 ∷ 8 ∷ [] else [];
  next = 2;
  node_capacity = 2;
  event_id = 7;
}
