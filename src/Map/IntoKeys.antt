-- ===== src/Map/IntoKeys.antt =====
-- src/lib.rs: `IntoKeys`, the iterator that `into_keys` of a map returns, which owns the map.
use indexset.Base.{Option, Run, ok, ◌>>=◌}
use mathlib.Core.Option
use indexset.Fenwick.{FenwickTree}
use indexset.Map.IntoIter
use indexset.Map.IntoIter.{IntoIterMap}
use indexset.Map.{BTreeMap}

pub record IntoKeys {ℓ κ} (I : Type 0) (K : Type ℓ) (V : Type κ) : Type (ℓ ⊔ κ) where
  pub inner : IntoIterMap I K V

module _ {ℓ κ} {K : Type ℓ} {V : Type κ} {I : Type 0} where
  unfoldable pub into_keys : BTreeMap I K V → IntoKeys I K V
  into_keys m = record { inner = IntoIter.into_iter m }

module _ {ℓ κ} {K : Type ℓ} {V : Type κ} {I : Type 0} ⦃f : FenwickTree I⦄ where
  unfoldable pub next : IntoKeys I K V → Run (Option K × IntoKeys I K V)
  next i = do
    r ← IntoIter.next i.inner
    ok (Option.map (λ entry. entry.0) r.0, record { inner = r.1 })

  unfoldable pub next_back : IntoKeys I K V → Run (Option K × IntoKeys I K V)
  next_back i = do
    r ← IntoIter.next_back i.inner
    ok (Option.map (λ entry. entry.0) r.0, record { inner = r.1 })
