-- ===== src/Map/Keys.antt =====
-- src/lib.rs: `Keys`, the iterator that `keys` of a map returns.
use indexset.Base.{Option, Run, ok, ◌>>=◌}
use mathlib.Core.Option
use indexset.Pair.{Pair}
use indexset.Set.Iter as SetIter
use indexset.Set.Iter.{Iter}
use indexset.Map.{BTreeMap}

pub record Keys {ℓ κ} (I : Type 0) (K : Type ℓ) (V : Type κ) : Type (ℓ ⊔ κ) where
  pub inner : Iter I (Pair K V)

module _ {ℓ κ} {K : Type ℓ} {V : Type κ} {I : Type 0} where
  unfoldable pub keys : BTreeMap I K V → Run (Keys I K V)
  keys m = do i ← SetIter.new m.set; ok (record { inner = i })

  unfoldable pub next : Keys I K V → Run (Option K × Keys I K V)
  next i = do
    r ← SetIter.next i.inner
    ok (Option.map (λ entry. entry.key) r.0, record { inner = r.1 })

  unfoldable pub next_back : Keys I K V → Run (Option K × Keys I K V)
  next_back i = do
    r ← SetIter.next_back i.inner
    ok (Option.map (λ entry. entry.key) r.0, record { inner = r.1 })
