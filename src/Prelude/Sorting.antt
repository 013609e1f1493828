-- ===== src/Prelude/Sorting.antt =====
-- `sort.Slice` and `sort.SliceStable` of Go: insertion by a Boolean "comes before". Elements of
-- which neither comes before the other keep their order, which `sort.Slice` leaves open.
use Prim.Native.Nat.{◌+◌}
use mathlib.Core.Path.{◌≡◌, refl, subst}
use mathlib.Core.Logic.{inl, inr}
use mathlib.Core.Bool.{Bool, true, false}
use mathlib.Core.List.{List, [], ◌∷◌, Perm}
use mathlib.Core.List.Perm
use native.Mathlib.Omega.{arith}
use lead.Prelude.Tests.{if◌then◌else◌, Bool-cases}
use lead.Prelude.Lists.{length, All, All-mono}

module _ {ℓ} {A : Type ℓ} (before : A → A → Bool) where
  abbrev pub insert_by : A → List A → List A
  insert_by x [] = x ∷ []
  insert_by x (y ∷ ys) = let rest = insert_by x ys in if before y x then y ∷ rest else x ∷ y ∷ ys

  unfoldable pub sort_by : List A → List A
  sort_by [] = []
  sort_by (x ∷ xs) = insert_by x (sort_by xs)

  -- Nothing stands behind an element before which it comes.
  abbrev pub Ordered : List A → Type ℓ
  Ordered [] = Unit
  Ordered (x ∷ xs) = All (λ y. before y x ≡ false) xs × Ordered xs

  module _ {κ} (P : A → Type κ) where
    pub All-insert_by : (x : A) (xs : List A) → P x → All P xs → All P (insert_by x xs)
    All-insert_by x [] h hs = (h, tt)
    All-insert_by x (y ∷ ys) h hs = elim (Bool-cases (before y x)) [
      | inl e ↦ rw e (hs.0, All-insert_by x ys h hs.1)
      | inr e ↦ rw e (h, hs)
    ]

    pub All-sort_by : (xs : List A) → All P xs → All P (sort_by xs)
    unfolding sort_by
    All-sort_by [] h = tt
    All-sort_by (x ∷ xs) h = All-insert_by x (sort_by xs) h.0 (All-sort_by xs h.1)

    insert_by-All : (x : A) (xs : List A) → All P (insert_by x xs) → P x × All P xs
    insert_by-All x [] h = h
    insert_by-All x (y ∷ ys) h =
        let at : Bool → Type κ = λ b. All P (if b then y ∷ insert_by x ys else x ∷ y ∷ ys) in
        elim (Bool-cases (before y x)) [
          | inl e ↦
              let (hy, rest) : P y × All P (insert_by x ys) = subst at e h in
              let (hx, hys) = insert_by-All x ys rest in (hx, (hy, hys))
          | inr e ↦ subst at e h
        ]

    pub sort_by-All : (xs : List A) → All P (sort_by xs) → All P xs
    unfolding sort_by
    sort_by-All [] h = h
    sort_by-All (x ∷ xs) h =
        let (hx, hxs) = insert_by-All x (sort_by xs) h in (hx, sort_by-All xs hxs)

  length-insert_by : (x : A) (xs : List A) → length (insert_by x xs) ≡ length xs + 1
  length-insert_by x [] = omega arith
  length-insert_by x (y ∷ ys) = ground (arith, length-insert_by x ys)

  pub length-sort_by : (xs : List A) → length (sort_by xs) ≡ length xs
  unfolding sort_by
  length-sort_by [] = refl
  length-sort_by (x ∷ xs) = omega (arith, length-insert_by x (sort_by xs), length-sort_by xs)

  -- "Comes before" is a strict weak order.
  pub record IsWeakOrder : Type ℓ where
    pub asym : (x y : A) → before x y ≡ true → before y x ≡ false
    pub between : (x y z : A) → before x y ≡ false → before y z ≡ false → before x z ≡ false

  module _ (order : IsWeakOrder) where
    insert_by-Ordered : (x : A) (xs : List A) → Ordered xs → Ordered (insert_by x xs)
    insert_by-Ordered x [] h = (tt, tt)
    insert_by-Ordered x (y ∷ ys) h = elim (Bool-cases (before y x)) [
      | inl e ↦ rw e (
        All-insert_by (λ z. before z y ≡ false) x ys (order.asym y x e) h.0,
        insert_by-Ordered x ys h.1,
      )
      | inr e ↦ rw e (
        (
          e,
          All-mono (λ z. before z y ≡ false) (λ z. before z x ≡ false)
              (λ z f. order.between z y x f e) ys h.0,
        ),
        h,
      )
    ]

    pub sort_by-Ordered : (xs : List A) → Ordered (sort_by xs)
    unfolding sort_by
    sort_by-Ordered [] = tt
    sort_by-Ordered (x ∷ xs) = insert_by-Ordered x (sort_by xs) (sort_by-Ordered xs)

-- The first order decides, and where it ties the second one does.
abbrev pub then_by {ℓ} : {A : Type ℓ} → (A → A → Bool) → (A → A → Bool) → A → A → Bool
then_by first second x y = if first x y then true else (if first y x then false else second x y)

module _ {ℓ} {A : Type ℓ} (first second : A → A → Bool) where
  pub then_by-IsWeakOrder :
      IsWeakOrder first → IsWeakOrder second → IsWeakOrder (then_by first second)
  then_by-IsWeakOrder o p = record {
    asym = λ x y h. ground (arith, o.asym x y, o.asym y x, p.asym x y);
    between = λ x y z h k. ground (
      arith,
      o.asym x y,
      o.asym y z,
      o.asym x z,
      o.between x y z,
      o.between z x y,
      o.between y z x,
      o.between z y x,
      o.between y x z,
      o.between x z y,
      p.between x y z,
    );
  }

module _ {ℓ} {A : Type ℓ} (before : A → A → Bool) where
  insert_by-Perm : (x : A) (xs : List A) → Perm (insert_by before x xs) (x ∷ xs)
  insert_by-Perm x [] = Perm.refl (x ∷ [])
  insert_by-Perm x (y ∷ ys) = elim (Bool-cases (before y x)) [
    | inl e ↦ rw e (Perm.trans (Perm.cons y (insert_by-Perm x ys)) (Perm.swap x y ys))
    | inr e ↦ rw e (Perm.refl (x ∷ y ∷ ys))
  ]

  -- A sort only moves elements.
  pub sort_by-Perm : (xs : List A) → Perm (sort_by before xs) xs
  unfolding sort_by
  sort_by-Perm [] = Perm.refl []
  sort_by-Perm (x ∷ xs) =
      Perm.trans (insert_by-Perm x (sort_by before xs)) (Perm.cons x (sort_by-Perm xs))
