-- ===== src/Tests/Pairs.antt =====
-- The results on multi-pairs and on events, at concrete pairs and an event.
use indexset.Base.{ℕ, ◌≡◌, lt, gt, false}
use indexset.Order.{nat_ord}
use indexset.MultiPair.{OrdMultiPair, ord_cmp, ord_eq}
use indexset.MultiPair.Order.{Lies, ord_cmp_refines}
use indexset.Cdc.{ChangeEventUnassigned, insert_at}

abbrev first_pair : OrdMultiPair ℕ ℕ
first_pair = record { key = 1; value = 7 }

abbrev second_pair : OrdMultiPair ℕ ℕ
second_pair = record { key = 1; value = 8 }

abbrev third_pair : OrdMultiPair ℕ ℕ
third_pair = record { key = 2; value = 0 }

ord_cmp_refines_example :
    Lies lt first_pair second_pair
    × (ord_cmp second_pair first_pair ≡ gt)
    × (ord_eq first_pair second_pair ≡ false)
ord_cmp_refines_example = ord_cmp_refines first_pair second_pair

abbrev insertion : ChangeEventUnassigned (OrdMultiPair ℕ ℕ)
insertion = insert_at third_pair first_pair 0
