-- ===== src/Set/Locate/Cut.antt =====
-- A probe cuts the nodes of a sorted tree at the node that the `locate` methods choose.
use indexset.Base.{
  ℕ, zero, suc, ◌≡◌, refl, ap, ◌∙◌, List, [], ◌∷◌, ◌++◌, some, Bool, true, false, Ordering, lt, eq,
  gt, is_lt, length, get_last?, flatten, arith, inl, inr, Bool-cases,
}
use indexset.Base.Vec
use indexset.Order.{Borrow, against, against-IsProbe, Ord, IsProbe, ◌≺◌}
use indexset.Order.Sorted.{
  All, All-append, All-imp, All-append_right, IsSorted, IsSorted-append_left, IsSorted-append_right,
}
use indexset.Order.View.{Below, Above}
use indexset.Set.Valid.{IsNonempty, HasNodes}
use indexset.Set.{BTreeSet}
use indexset.Set.Locate.{ends_below, ends_before, locate_node, locate_node_cmp, clamp}

clamp_cons {ℓ} :
    {A : Type ℓ} (x y : A) (xs : List A) (i : ℕ)
    → clamp (x ∷ y ∷ xs) (suc i) ≡ suc (clamp (y ∷ xs) i)
clamp_cons x y xs zero = refl
clamp_cons x y xs (suc i) = ground arith

-- the last item of a node, and those before it
abbrev pub Last {ℓ} : {A : Type ℓ} → List A → Type ℓ
Last {A} xs = (init : List A) × (last : A) × (xs ≡ init ++ last ∷ []) × (get_last? xs ≡ some last)

pub last {ℓ} : {A : Type ℓ} (xs : List A) → IsNonempty xs → Last xs
last [] h = absurd h
last (x ∷ []) h = ([], x, refl, refl)
last (x ∷ y ∷ xs) h = let r = last (y ∷ xs) tt in (x ∷ r.0, r.1, ap (λ l. x ∷ l) r.2, r.3)

HasNodes-rest {ℓ} :
    {A : Type ℓ} (next : List A) (rest : List (List A))
    → All IsNonempty (next ∷ rest)
    → HasNodes (next ∷ rest)
HasNodes-rest next [] h = tt
HasNodes-rest next (other ∷ rest) h = h

pub lt_of_is_lt : (c : Ordering) → is_lt c ≡ true → c ≡ lt
lt_of_is_lt c h = ground arith

-- the nodes before the one chosen lie below, the nodes after it above
pub record Cut {ℓ} {T : Type ℓ} (p : T → Ordering) (inner : List (List T)) (node_idx : ℕ)
    : Type ℓ where
  pub before : List (List T)
  pub node : List T
  pub after : List (List T)
  pub nodes_eq : inner ≡ before ++ node ∷ after
  pub node_idx_eq : node_idx ≡ length before
  pub below : Below p (flatten before)
  pub above : Above p (flatten after)

-- Such a cut after which nothing comes if the whole chosen node lies below.
abbrev pub TightCut {ℓ} :
    {T : Type ℓ} (p : T → Ordering) (inner : List (List T)) (node_idx : ℕ) → Type ℓ
TightCut p inner node_idx = (k : Cut p inner node_idx) × (Below p k.node → k.after ≡ [])

module _ {ℓ} {T : Type ℓ} ⦃t : Ord T⦄ {p : T → Ordering} (probe : IsProbe p) where
  -- a sorted list whose last item lies below does so whole
  pub Below-of_last :
      (init : List T) (x : T) → IsSorted (init ++ x ∷ []) → p x ≡ lt → Below p (init ++ x ∷ [])
  Below-of_last [] x h e = (e, tt)
  Below-of_last (y ∷ init) x h e =
      (probe.below y x (All-append_right _ init (x ∷ []) h.0).0 e, Below-of_last init x h.1 e)

  -- behind an item that does not lie below, all lies above
  pub Above-behind :
      (init : List T) (x : T) (rest : List T)
      → IsSorted ((init ++ x ∷ []) ++ rest)
      → is_lt (p x) ≡ false
      → Above p rest
  Above-behind [] x rest h e =
      (elim (p x) as (λ c. p x ≡ c → is_lt c ≡ false → Above p rest) [
        | lt ↦ λ k n. absurd (ground arith)
        | eq ↦ λ k n. All-imp (λ y. x ≺ y) (λ y. p y ≡ gt) (λ y l. probe.meets x y l k) rest h.0
        | gt ↦ λ k n. All-imp (λ y. x ≺ y) (λ y. p y ≡ gt) (λ y l. probe.above x y l k) rest h.0
      ])
        refl e
  Above-behind (y ∷ init) x rest h e = Above-behind init x rest h.1 e

  module _ (test : List T → Bool)
      (tests : (node : List T) (x : T) → get_last? node ≡ some x → test node ≡ is_lt (p x)) where
    abbrev pub chosen : List (List T) → ℕ
    chosen inner = clamp inner (Vec.partition_point test inner)

    chosen_next :
        (node next : List T) (rest : List (List T))
        → test node ≡ true
        → chosen (node ∷ next ∷ rest) ≡ suc (chosen (next ∷ rest))
    chosen_next node next rest e = rw e (clamp_cons node next rest _)

    cut_later :
        (node next : List T) (rest : List (List T))
        → test node ≡ true
        → Below p node
        → TightCut p (next ∷ rest) (chosen (next ∷ rest))
        → TightCut p (node ∷ next ∷ rest) (chosen (node ∷ next ∷ rest))
    cut_later node next rest e low (k, tight) = (
      record {
        before = node ∷ k.before;
        node = k.node;
        after = k.after;
        nodes_eq = ap (λ l. node ∷ l) k.nodes_eq;
        node_idx_eq = chosen_next node next rest e ∙ ap suc k.node_idx_eq;
        below = All-append _ node (flatten k.before) low k.below;
        above = k.above;
      },
      tight,
    )

    cut_here :
        (node next : List T) (rest : List (List T)) (init : List T) (x : T)
        → node ≡ init ++ x ∷ []
        → IsSorted (node ++ flatten (next ∷ rest))
        → test node ≡ is_lt (p x)
        → is_lt (p x) ≡ false
        → TightCut p (node ∷ next ∷ rest) (chosen (node ∷ next ∷ rest))
    cut_here node next rest init x whole s e high = (
      record {
        before = [];
        node = node;
        after = next ∷ rest;
        nodes_eq = refl;
        node_idx_eq = ground arith;
        below = tt;
        above = Above-behind init x (flatten (next ∷ rest)) (rw (← whole) s) high;
      },
      λ below.
          let low : p x ≡ lt = (All-append_right _ init (x ∷ []) (rw whole at below)).0 in
          absurd (ground arith),
    )

    pub cut :
        (inner : List (List T))
        → HasNodes inner
        → IsSorted (flatten inner)
        → TightCut p inner (chosen inner)
    cut [] h s = absurd h
    cut (node ∷ []) h s = (
      record {
        before = [];
        node = node;
        after = [];
        nodes_eq = refl;
        node_idx_eq = ground arith;
        below = tt;
        above = tt;
      },
      λ below. refl,
    )
    cut (node ∷ next ∷ rest) h s =
        let r = last node h.0 in
        let s' : IsSorted ((r.0 ++ r.1 ∷ []) ++ flatten (next ∷ rest)) = rw (← r.2) s in
        let e : test node ≡ is_lt (p r.1) = tests node r.1 r.3 in
        elim (Bool-cases (is_lt (p r.1))) [
          | inl low ↦
              let k =
                cut (next ∷ rest) (HasNodes-rest next rest h.1) (IsSorted-append_right node _ s) in
              cut_later node next rest (e ∙ low)
                (rw r.2
                  (Below-of_last r.0 r.1 (IsSorted-append_left _ _ s') (lt_of_is_lt (p r.1) low)))
                k
          | inr high ↦ cut_here node next rest r.0 r.1 r.2 s e high
        ]

module _ {ℓ} {T : Type ℓ} {I : Type 0} ⦃t : Ord T⦄ (s : BTreeSet I T) (nodes : HasNodes s.inner)
    (sorted : IsSorted (flatten s.inner)) where
  -- `locate_node` cuts the nodes
  pub locate_node-Cut {κ} :
      {Q : Type κ} ⦃q : Ord Q⦄ ⦃b : Borrow T Q⦄ (value : Q)
      → TightCut (against value) s.inner (locate_node s value)
  unfolding locate_node
  locate_node-Cut value =
      cut (against-IsProbe value) (ends_below value) (λ node x e. rw (e, ends_below)) s.inner nodes
        sorted

  -- a closure that tests for lying below is as good as a value
  pub locate_node_cmp-Cut :
      {p : T → Ordering} → IsProbe p → TightCut p s.inner (locate_node_cmp s (λ x. is_lt (p x)))
  unfolding locate_node_cmp
  locate_node_cmp-Cut {p} probe =
      cut probe (ends_before (λ x. is_lt (p x))) (λ node x e. rw (e, ends_before)) s.inner nodes
        sorted
