-- ===== src/Order/Sorted.antt =====
-- Strictly ascending lists.
use indexset.Base.{List, [], ◌∷◌, ◌++◌}
use indexset.Order.{Ord, ◌≺◌}

-- every item satisfies `P`
abbrev pub All {ℓ κ} : {A : Type ℓ} → (A → Type κ) → List A → Type κ
All P [] = Unit
All P (x ∷ xs) = P x × All P xs

module _ {ℓ} {A : Type ℓ} where
  pub All-append {κ} : (P : A → Type κ) (xs ys : List A) → All P xs → All P ys → All P (xs ++ ys)
  All-append P [] ys h k = k
  All-append P (x ∷ xs) ys h k = (h.0, All-append _ xs ys h.1 k)

  pub All-append_left {κ} : (P : A → Type κ) (xs ys : List A) → All P (xs ++ ys) → All P xs
  All-append_left P [] ys h = tt
  All-append_left P (x ∷ xs) ys h = (h.0, All-append_left _ xs ys h.1)

  pub All-append_right {κ} : (P : A → Type κ) (xs ys : List A) → All P (xs ++ ys) → All P ys
  All-append_right P [] ys h = h
  All-append_right P (x ∷ xs) ys h = All-append_right _ xs ys h.1

  pub All-imp {κ μ} :
      (P : A → Type κ) (Q : A → Type μ)
      → ((a : A) → P a → Q a)
      → (xs : List A) → All P xs
      → All Q xs
  All-imp P Q f [] h = tt
  All-imp P Q f (x ∷ xs) h = (f x h.0, All-imp _ _ f xs h.1)

module _ {ℓ} {T : Type ℓ} ⦃o : Ord T⦄ where
  abbrev pub IsSorted : List T → Type 0
  IsSorted [] = Unit
  IsSorted (x ∷ xs) = All (λ y. x ≺ y) xs × IsSorted xs

  -- every item of the first list is less than every item of the second
  abbrev pub Precedes : List T → List T → Type 0
  Precedes xs ys = All (λ x. All (λ y. x ≺ y) ys) xs

  pub append-IsSorted :
      (xs ys : List T) → IsSorted xs → IsSorted ys → Precedes xs ys → IsSorted (xs ++ ys)
  append-IsSorted [] ys h k c = k
  append-IsSorted (x ∷ xs) ys h k c = (All-append _ xs ys h.0 c.0, append-IsSorted xs ys h.1 k c.1)

  pub IsSorted-append_left : (xs ys : List T) → IsSorted (xs ++ ys) → IsSorted xs
  IsSorted-append_left [] ys h = tt
  IsSorted-append_left (x ∷ xs) ys h = (All-append_left _ xs ys h.0, IsSorted-append_left xs ys h.1)

  pub IsSorted-append_right : (xs ys : List T) → IsSorted (xs ++ ys) → IsSorted ys
  IsSorted-append_right [] ys h = h
  IsSorted-append_right (x ∷ xs) ys h = IsSorted-append_right xs ys h.1

  pub IsSorted-Precedes : (xs ys : List T) → IsSorted (xs ++ ys) → Precedes xs ys
  IsSorted-Precedes [] ys h = tt
  IsSorted-Precedes (x ∷ xs) ys h = (All-append_right _ xs ys h.0, IsSorted-Precedes xs ys h.1)

  pub IsSorted-skip : (xs ys zs : List T) → IsSorted (xs ++ (ys ++ zs)) → IsSorted (xs ++ zs)
  IsSorted-skip [] ys zs h = IsSorted-append_right ys zs h
  IsSorted-skip (x ∷ xs) ys zs h = (
    All-append _ xs zs (All-append_left _ xs (ys ++ zs) h.0)
        (All-append_right _ ys zs (All-append_right _ xs (ys ++ zs) h.0)),
    IsSorted-skip xs ys zs h.1,
  )
