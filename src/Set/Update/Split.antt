-- ===== src/Set/Update/Split.antt =====
-- `insert_at` of src/lib.rs at a full node, which it halves first.
use indexset.Base.{
  ℕ, suc, ◌+◌, ◌≤◌, ◌≡◌, ◌≢◌, refl, sym, ap, ◌∙◌, List, [], ◌∷◌, ◌++◌, append_assoc, append-nil,
  true, false, Ordering, gt, is_lt, length, length-append, flatten, flatten-append, arith, ok, ◌==◌,
  if◌then◌else◌, inl, inr, Bool-cases,
}
use indexset.Base.Vec
use indexset.Order.{Ord, IsProbe, against_item, against_item-IsProbe, ◌≺◌}
use indexset.Order.Sorted.{
  All, All-append, All-append_left, All-append_right, IsSorted, IsSorted-append_left,
  IsSorted-append_right, IsSorted-Precedes, Precedes,
}
use indexset.Order.Spec
use indexset.Order.Spec.{find, is_some}
use indexset.Order.View.{Below, Above-after}
use indexset.Fenwick.{FenwickTree, Counts}
use indexset.Node.{halve}
use indexset.Node.Insert.{insert_node_refines}
use indexset.Set.{BTreeSet}
use indexset.Set.Valid.{IsNonempty, HasNodes, IsValid, IsBounded, items}
use indexset.Set.Bounded.{Fit, Fit-around, Fit-node, insert_at_most}
use indexset.Set.Nodes.{HasNodes-around, before-IsNonempty, after-IsNonempty, insert-IsNonempty}
use indexset.Set.Locate.Cut.{Cut}
use indexset.Set.Spot.{node-IsSorted}
use indexset.Set.CutSpec.{find-cut, insert-cut, index-cut, assign-cut}
use indexset.Set.Update.{insert_at, index_nodes}
use indexset.Set.Update.Insert.{fresh, Inserted}

length-IsNonempty {ℓ} : {T : Type ℓ} (xs : List T) → IsNonempty xs → 1 ≤ length xs
length-IsNonempty [] h = absurd h
length-IsNonempty (x ∷ xs) h = omega arith

-- an item before one that does not lie above lies below
Below-before {ℓ} :
    {T : Type ℓ} ⦃t : Ord T⦄ {p : T → Ordering} (probe : IsProbe p) (lo : List T) (b : T)
    → All (λ a. a ≺ b) lo
    → p b ≢ gt
    → Below p lo
Below-before probe [] b h n = tt
Below-before {p} probe (a ∷ lo) b h n =
    (ground (arith, probe.meets a b h.0, probe.above a b h.0), Below-before probe lo b h.1 n)

Precedes-first {ℓ} :
    {T : Type ℓ} ⦃t : Ord T⦄ (lo : List T) (b : T) (hi : List T)
    → Precedes lo (b ∷ hi)
    → All (λ a. a ≺ b) lo
Precedes-first [] b hi h = tt
Precedes-first (a ∷ lo) b hi h = (h.0.0, Precedes-first lo b hi h.1)

module _ {ℓ} {T : Type ℓ} {I : Type 0} ⦃t : Ord T⦄ ⦃f : FenwickTree I⦄ ⦃c : Counts I⦄
    (s : BTreeSet I T) (v : T) (valid : IsValid s) where
  abbrev pub p : T → Ordering
  p = against_item v

  -- The tree after the insertion into one node of `inner`, which holds the items of `s`.
  abbrev pub rebuilt : (inner : List (List T)) (node_idx : ℕ) → Cut p inner node_idx → BTreeSet I T
  rebuilt inner node_idx k = record s {
    inner = k.before ++ Spec.insert p v k.node ∷ k.after;
    index = index_nodes (k.before ++ Spec.insert p v k.node ∷ k.after);
    len = if fresh s v then s.len + 1 else s.len;
  }

  pub rebuilt-Inserted :
      (inner : List (List T)) (node_idx : ℕ) (k : Cut p inner node_idx)
      → flatten inner ≡ items s
      → HasNodes inner
      → (IsBounded s → Fit s.node_capacity inner × (suc (length k.node) ≤ s.node_capacity))
      → Inserted s v (rebuilt inner node_idx k)
  rebuilt-Inserted inner node_idx k same nodes fits = record {
    nodes =
        HasNodes-around k.before _ k.after
          (before-IsNonempty k.before k.node k.after (rw (← k.nodes_eq) nodes))
          (insert-IsNonempty p v k.node)
          (after-IsNonempty k.before k.node k.after (rw (← k.nodes_eq) nodes));
    holds = sym (insert-cut inner node_idx k v) ∙ ap (Spec.insert p v) same;
    counted = c.counts-from_iter _;
    measured = refl;
    capacity = refl;
    bounded = λ h.
        let (fit, room) = fits h in
        Fit-around s.node_capacity k.before k.node k.after (rw (← k.nodes_eq) fit)
          (Spec.insert p v k.node) (omega (arith, insert_at_most p v k.node));
  }

  module _ (node_idx : ℕ) (k : Cut p s.inner node_idx) (lo : List T) (b : T) (hi : List T)
      (whole : k.node ≡ lo ++ b ∷ hi) (halves : halve k.node ≡ ok (lo, b ∷ hi))
      (low : IsNonempty lo) (full : (length k.node == s.node_capacity) ≡ true) where
    abbrev pub halved : List (List T)
    halved = k.before ++ lo ∷ (b ∷ hi) ∷ k.after

    pub halved-same : flatten halved ≡ items s
    halved-same =
        rw
          (
            k.nodes_eq,
            flatten-append k.before (lo ∷ (b ∷ hi) ∷ k.after),
            flatten-append k.before (k.node ∷ k.after),
            whole,
          )
          (ap (λ l. flatten k.before ++ l) (sym (append_assoc lo (b ∷ hi) (flatten k.after))))

    pub halved-HasNodes : HasNodes halved
    halved-HasNodes =
        HasNodes-around k.before lo ((b ∷ hi) ∷ k.after)
          (before-IsNonempty k.before k.node k.after (rw (← k.nodes_eq) valid.nodes)) low
          (tt, after-IsNonempty k.before k.node k.after (rw (← k.nodes_eq) valid.nodes))

    cut_node-IsSorted : IsSorted (lo ++ b ∷ hi)
    cut_node-IsSorted =
        rw whole at (node-IsSorted k.before k.node k.after (rw (← k.nodes_eq) valid.sorted))

    pub low_cut : is_lt (t.cmp v b) ≡ true → Cut p halved node_idx
    low_cut e = record {
      before = k.before;
      node = lo;
      after = (b ∷ hi) ∷ k.after;
      nodes_eq = refl;
      node_idx_eq = k.node_idx_eq;
      below = k.below;
      above =
          let gt_b : p b ≡ gt = ground (arith, t.cmp_reverse v b) in
          (
            gt_b,
            All-append _ hi (flatten k.after)
                (Above-after (against_item-IsProbe v) b hi gt_b
                  (IsSorted-append_right lo (b ∷ hi) cut_node-IsSorted).0)
                k.above,
          );
    }

    next_idx : node_idx + 1 ≡ length (k.before ++ lo ∷ [])
    next_idx = omega (arith, length-append k.before (lo ∷ []), k.node_idx_eq)

    pub high_cut : is_lt (t.cmp v b) ≡ false → Cut p halved (node_idx + 1)
    high_cut e = record {
      before = k.before ++ lo ∷ [];
      node = b ∷ hi;
      after = k.after;
      nodes_eq = sym (append_assoc k.before (lo ∷ []) ((b ∷ hi) ∷ k.after));
      node_idx_eq = next_idx;
      below =
          rw (flatten-append k.before (lo ∷ []), append-nil lo)
            (All-append _ (flatten k.before) lo k.below (
              Below-before (against_item-IsProbe v) lo b
                (Precedes-first lo b hi (IsSorted-Precedes lo (b ∷ hi) cut_node-IsSorted))
                (ground (arith, t.cmp_reverse v b))));
      above = k.above;
    }

    insert_nodes : Vec.insert (k.before ++ lo ∷ k.after) (node_idx + 1) (b ∷ hi) ≡ ok halved
    insert_nodes =
        rw
          (
            ← append_assoc k.before (lo ∷ []) k.after,
            ← append_assoc k.before (lo ∷ []) ((b ∷ hi) ∷ k.after),
            next_idx,
          )
          (Vec.insert_lem (k.before ++ lo ∷ []) k.after (b ∷ hi))

    pub insert_at_low :
        (e : is_lt (t.cmp v b) ≡ true)
        → insert_at s node_idx v ≡ ok (fresh s v, rebuilt halved node_idx (low_cut e))
    unfolding insert_at low_cut
    insert_at_low e = rw (
      index-cut s.inner node_idx k,
      full,
      halves,
      e,
      assign-cut s.inner node_idx k lo,
      insert_nodes,
      index-cut halved node_idx (low_cut e),
      insert_node_refines v lo (IsSorted-append_left lo (b ∷ hi) cut_node-IsSorted),
      assign-cut halved node_idx (low_cut e) (Spec.insert p v lo),
      ← find-cut halved node_idx (low_cut e),
      halved-same,
    )

    pub insert_at_high :
        (e : is_lt (t.cmp v b) ≡ false)
        → insert_at s node_idx v ≡ ok (fresh s v, rebuilt halved (node_idx + 1) (high_cut e))
    unfolding insert_at high_cut
    insert_at_high e = rw (
      index-cut s.inner node_idx k,
      full,
      halves,
      e,
      assign-cut s.inner node_idx k lo,
      insert_nodes,
      index-cut halved (node_idx + 1) (high_cut e),
      insert_node_refines v (b ∷ hi) (IsSorted-append_right lo (b ∷ hi) cut_node-IsSorted),
      assign-cut halved (node_idx + 1) (high_cut e) (Spec.insert p v (b ∷ hi)),
      ← find-cut halved (node_idx + 1) (high_cut e),
      halved-same,
    )

    -- both halves have room
    halved-fits :
        IsBounded s
        → Fit s.node_capacity halved
          × (suc (length lo) ≤ s.node_capacity)
          × (suc (length (b ∷ hi)) ≤ s.node_capacity)
    halved-fits h =
        let fit : Fit s.node_capacity (k.before ++ k.node ∷ k.after) = rw (← k.nodes_eq) h in
        let total : length k.node ≡ length lo + length (b ∷ hi) =
          ap length whole ∙ length-append lo (b ∷ hi) in
        let upper : length k.node ≤ s.node_capacity =
          Fit-node s.node_capacity k.before k.node k.after fit in
        let lower : 1 ≤ length lo = length-IsNonempty lo low in
        (
          All-append _ k.before (lo ∷ (b ∷ hi) ∷ k.after)
              (All-append_left _ k.before (k.node ∷ k.after) fit)
              (omega arith, (omega arith, (All-append_right _ k.before (k.node ∷ k.after) fit).1)),
          omega arith,
          omega arith,
        )

    -- The insertion at a full node, whichever half takes the value.
    pub insert_at_full :
        (s' : BTreeSet I T) × (insert_at s node_idx v ≡ ok (fresh s v, s')) × Inserted s v s'
    unfolding low_cut high_cut
    insert_at_full = elim (Bool-cases (is_lt (t.cmp v b))) [
      | inl e ↦ (
        rebuilt halved node_idx (low_cut e),
        insert_at_low e,
        rebuilt-Inserted halved node_idx (low_cut e) halved-same halved-HasNodes
            (λ h. let r = halved-fits h in (r.0, r.1)),
      )
      | inr e ↦ (
        rebuilt halved (node_idx + 1) (high_cut e),
        insert_at_high e,
        rebuilt-Inserted halved (node_idx + 1) (high_cut e) halved-same halved-HasNodes
            (λ h. let r = halved-fits h in (r.0, r.2)),
      )
    ]
