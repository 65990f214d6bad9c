-- ===== src/Tests/Skip.antt =====
-- A list of entries as a skip map: the behaviour that the concurrent set relies on can be met.
use indexset.Base.{ℕ, refl, List, [], length, get_elem?, get_last?}
use indexset.Order.{Ord, against_item}
use indexset.Order.Spec.{find, erase, put}
use indexset.Pair.{Pair, pair_ord}
use indexset.Concurrent.SkipMap.{SkipMap, Ordered, first_not, entry}

module _ {ℓ} {T : Type ℓ} ⦃t : Ord T⦄ where
  instance abbrev pub skip : SkipMap (List (Pair T ℕ)) T
  skip = record {
    new = [];
    iter = λ m. m;
    lower_bound = λ m below. first_not below m;
    front = λ m. get_elem? m 0;
    back = λ m. get_last? m;
    get = λ m key. find (against_item (entry key 0)) m;
    insert =
        λ m key node. put (against_item (entry key node)) (λ _. entry key node) (entry key node) m;
    remove = λ m key. erase (against_item (entry key 0)) m;
    len = λ m. length m;
  }

  instance pub skip_ordered : Ordered (List (Pair T ℕ)) T
  skip_ordered = record {
    iter-new = refl;
    lower_bound_lem = λ m below. refl;
    front_lem = λ m. refl;
    back_lem = λ m. refl;
    get_lem = λ m key. refl;
    iter-insert = λ m key node. refl;
    iter-remove = λ m key. refl;
    len_lem = λ m. refl;
  }
