-- ===== src/Common/Pages.antt =====
-- The pages of a table: `order_by`, `offset` and `limit`.
use Prim.Native.Nat.{ℕ, zero, suc, ◌+◌, ◌*◌, ◌≤◌}
use mathlib.Core.Path.{◌≡◌, refl, ap, sym, ◌∙◌}
use mathlib.Core.Logic.{inl, inr, ◌⊎◌}
use mathlib.Core.Bool.{Bool, true, false}
use mathlib.Core.List.{List, [], ◌∷◌, ◌++◌}
use native.Mathlib.Omega.{arith}
use event_booking_ticketing.Common.Lists.{
  length, drop, take, sort, select, insert_sorted, insert_by, order_by,
}
use event_booking_ticketing.Common.Tests.{Bool-cases, if-cases, leb, if◌then◌else◌}

module _ {ℓ} {A : Type ℓ} where
  abbrev pub AllPass : (A → Bool) → List A → Type 0
  AllPass p [] = Unit
  AllPass p (x ∷ xs) = (p x ≡ true) × AllPass p xs

  -- Each row stands where the comparison lets it stand before the next.
  abbrev pub IsOrdered : (A → A → Bool) → List A → Type 0
  IsOrdered le [] = Unit
  IsOrdered le (x ∷ []) = Unit
  IsOrdered le (x ∷ y ∷ ys) = (le x y ≡ true) × IsOrdered le (y ∷ ys)

  pub AllPass-select : (p : A → Bool) (xs : List A) → AllPass p (select p xs)
  AllPass-select p [] = tt
  AllPass-select p (x ∷ xs) = elim (Bool-cases (p x)) [
    | inl h ↦ rw h (h, AllPass-select p xs)
    | inr h ↦ rw h (AllPass-select p xs)
  ]

  AllPass-insert_sorted :
      (p : A → Bool) (le : A → A → Bool) (x : A) (xs : List A)
      → p x ≡ true
      → AllPass p xs
      → AllPass p (insert_sorted le x xs)
  AllPass-insert_sorted p le x [] h hs = (h, tt)
  AllPass-insert_sorted p le x (y ∷ ys) h hs =
      if-cases (AllPass p) (le x y) (λ _. (h, hs))
        (λ _. (hs.0, AllPass-insert_sorted p le x ys h hs.1))

  pub AllPass-sort :
      (p : A → Bool) (le : A → A → Bool) (xs : List A) → AllPass p xs → AllPass p (sort le xs)
  AllPass-sort p le [] h = tt
  AllPass-sort p le (x ∷ xs) h =
      AllPass-insert_sorted p le x (sort le xs) h.0 (AllPass-sort p le xs h.1)

  pub AllPass-drop : (p : A → Bool) (n : ℕ) (xs : List A) → AllPass p xs → AllPass p (drop n xs)
  AllPass-drop p zero xs h = h
  AllPass-drop p (suc n) [] h = tt
  AllPass-drop p (suc n) (x ∷ xs) h = AllPass-drop p n xs h.1

  pub AllPass-take : (p : A → Bool) (n : ℕ) (xs : List A) → AllPass p xs → AllPass p (take n xs)
  AllPass-take p zero xs h = tt
  AllPass-take p (suc n) [] h = tt
  AllPass-take p (suc n) (x ∷ xs) h = (h.0, AllPass-take p n xs h.1)

  IsOrdered-insert_sorted :
      (le : A → A → Bool) (x : A) (xs : List A)
      → ((a b : A) → le a b ≡ false → le b a ≡ true)
      → IsOrdered le xs
      → IsOrdered le (insert_sorted le x xs)
  IsOrdered-insert_sorted le x [] total h = tt
  IsOrdered-insert_sorted le x (y ∷ []) total h = elim (Bool-cases (le x y)) [
    | inl q ↦ rw q (q, tt)
    | inr q ↦ rw q (total x y q, tt)
  ]
  IsOrdered-insert_sorted le x (y ∷ z ∷ zs) total h =
      let rest = IsOrdered-insert_sorted le x (z ∷ zs) total h.1 in
      elim (Bool-cases (le x y)) [
        | inl q ↦ rw q (q, h)
        | inr q ↦ rw q (elim (Bool-cases (le x z)) [
          | inl r ↦ rw r (total x y q, (rw r at rest))
          | inr r ↦ rw r (h.0, (rw r at rest))
        ])
      ]

  pub IsOrdered-sort :
      (le : A → A → Bool) (xs : List A)
      → ((a b : A) → le a b ≡ false → le b a ≡ true)
      → IsOrdered le (sort le xs)
  IsOrdered-sort le [] total = tt
  IsOrdered-sort le (x ∷ xs) total =
      IsOrdered-insert_sorted le x (sort le xs) total (IsOrdered-sort le xs total)

  pub IsOrdered-drop :
      (le : A → A → Bool) (n : ℕ) (xs : List A) → IsOrdered le xs → IsOrdered le (drop n xs)
  IsOrdered-drop le zero xs h = h
  IsOrdered-drop le (suc n) [] h = tt
  IsOrdered-drop le (suc n) (x ∷ []) h = IsOrdered-drop le n [] tt
  IsOrdered-drop le (suc n) (x ∷ y ∷ ys) h = IsOrdered-drop le n (y ∷ ys) h.1

  pub IsOrdered-take :
      (le : A → A → Bool) (n : ℕ) (xs : List A) → IsOrdered le xs → IsOrdered le (take n xs)
  IsOrdered-take le zero xs h = tt
  IsOrdered-take le (suc n) [] h = tt
  IsOrdered-take le (suc zero) (x ∷ []) h = tt
  IsOrdered-take le (suc (suc n)) (x ∷ []) h = tt
  IsOrdered-take le (suc zero) (x ∷ y ∷ ys) h = tt
  IsOrdered-take le (suc (suc n)) (x ∷ y ∷ ys) h = (h.0, IsOrdered-take le (suc n) (y ∷ ys) h.1)

  take_nil : (n : ℕ) → take {A = A} n [] ≡ []
  take_nil zero = refl
  take_nil (suc n) = refl

  drop_nil : (n : ℕ) → drop {A = A} n [] ≡ []
  drop_nil zero = refl
  drop_nil (suc n) = refl

  take_add : (m n : ℕ) (xs : List A) → take (m + n) xs ≡ take m xs ++ take n (drop m xs)
  take_add zero n xs = let e : 0 + n ≡ n = omega arith in rw e
  take_add (suc m) n [] = let e : suc m + n ≡ suc (m + n) = omega arith in rw (e, take_nil n)
  take_add (suc m) n (x ∷ xs) =
      let e : suc m + n ≡ suc (m + n) = omega arith in rw e (ap (λ ys. x ∷ ys) (take_add m n xs))

  drop_add : (m n : ℕ) (xs : List A) → drop n (drop m xs) ≡ drop (m + n) xs
  drop_add zero n xs = let e : 0 + n ≡ n = omega arith in rw e
  drop_add (suc m) n [] = let e : suc m + n ≡ suc (m + n) = omega arith in rw (e, drop_nil n)
  drop_add (suc m) n (x ∷ xs) =
      let e : suc m + n ≡ suc (m + n) = omega arith in rw e (drop_add m n xs)

  -- A page, and the k pages that follow it.
  pub next_pages :
      (k limit offset : ℕ) (xs : List A)
      → take limit (drop offset xs) ++ take (k * limit) (drop (offset + limit) xs)
        ≡ take (suc k * limit) (drop offset xs)
  next_pages k limit offset xs =
      let more : suc k * limit ≡ limit + k * limit = omega arith in
      ap (λ rest. take limit (drop offset xs) ++ take (k * limit) rest)
        (sym (drop_add offset limit xs))
      ∙ sym (take_add limit (k * limit) (drop offset xs))
      ∙ ap (λ n. take n (drop offset xs)) (sym more)

  pub no_pages : (limit : ℕ) (xs : List A) → [] ≡ take (0 * limit) xs
  no_pages limit xs = let nothing : 0 * limit ≡ 0 = omega arith in sym (ap (λ n. take n xs) nothing)

  pub length-take-le : (n : ℕ) (xs : List A) → length (take n xs) ≤ n
  length-take-le zero xs = omega arith
  length-take-le (suc n) [] = omega arith
  length-take-le (suc n) (x ∷ xs) = omega (arith, length-take-le n xs)

  pub take_all : (n : ℕ) (xs : List A) → length xs ≤ n → take n xs ≡ xs
  take_all zero [] h = refl
  take_all zero (x ∷ xs) h = absurd (omega (arith, h))
  take_all (suc n) [] h = refl
  take_all (suc n) (x ∷ xs) h = ap (λ ys. x ∷ ys) (take_all n xs (omega (arith, h)))

  -- A predicate that holds of every row, and a relation of each row and the next.
  abbrev pub All {κ} : (A → Type κ) → List A → Type κ
  All P [] = Unit
  All P (x ∷ xs) = P x × All P xs

  abbrev pub Chain {κ} : (A → A → Type κ) → List A → Type κ
  Chain R [] = Unit
  Chain R (x ∷ []) = Unit
  Chain R (x ∷ y ∷ ys) = R x y × Chain R (y ∷ ys)

  pub All-pass {κ} :
      (P : A → Type κ) (p : A → Bool) (xs : List A)
      → ((a : A) → p a ≡ true → P a)
      → AllPass p xs
      → All P xs
  All-pass P p [] means h = tt
  All-pass P p (x ∷ xs) means h = (means x h.0, All-pass P p xs means h.1)

  pub Chain-ordered {κ} :
      (R : A → A → Type κ) (le : A → A → Bool) (xs : List A)
      → ((a b : A) → le a b ≡ true → R a b)
      → IsOrdered le xs
      → Chain R xs
  Chain-ordered R le [] means h = tt
  Chain-ordered R le (x ∷ []) means h = tt
  Chain-ordered R le (x ∷ y ∷ ys) means h = (means x y h.0, Chain-ordered R le (y ∷ ys) means h.1)

  abbrev pub by_key : (A → ℕ) → A → A → Bool
  by_key key a b = leb (key a) (key b)

  insert_by-sorted :
      (key : A → ℕ) (x : A) (xs : List A) → insert_by key x xs ≡ insert_sorted (by_key key) x xs
  insert_by-sorted key x [] = refl
  insert_by-sorted key x (y ∷ ys) =
      ap (λ zs. if leb (key x) (key y) then x ∷ y ∷ ys else y ∷ zs) (insert_by-sorted key x ys)

  -- The ascending order of a column is a sort.
  pub order_by-sort : (key : A → ℕ) (xs : List A) → order_by key xs ≡ sort (by_key key) xs
  order_by-sort key [] = refl
  order_by-sort key (x ∷ xs) =
      insert_by-sorted key x (order_by key xs)
      ∙ ap (insert_sorted (by_key key) x) (order_by-sort key xs)

module _ {A : Type 0} where
  -- A row stands in a table.
  abbrev pub Occurs : A → List A → Type 0
  Occurs a [] = ⊥
  Occurs a (x ∷ xs) = (a ≡ x) ⊎ Occurs a xs

  pub Occurs-select :
      (p : A → Bool) (a : A) (xs : List A) → p a ≡ true → Occurs a xs → Occurs a (select p xs)
  Occurs-select p a [] h m = m
  Occurs-select p a (x ∷ xs) h (inl e) = let q : p x ≡ true = ap p (sym e) ∙ h in rw q (inl e)
  Occurs-select p a (x ∷ xs) h (inr m) =
      if-cases (Occurs a) (p x) (λ _. inr (Occurs-select p a xs h m))
        (λ _. Occurs-select p a xs h m)

  Occurs-insert_sorted :
      (le : A → A → Bool) (a x : A) (xs : List A)
      → Occurs a (x ∷ xs)
      → Occurs a (insert_sorted le x xs)
  Occurs-insert_sorted le a x [] m = m
  Occurs-insert_sorted le a x (y ∷ ys) (inl e) =
      if-cases (Occurs a) (le x y) (λ _. inl e) (λ _. inr (Occurs-insert_sorted le a x ys (inl e)))
  Occurs-insert_sorted le a x (y ∷ ys) (inr (inl e)) =
      if-cases (Occurs a) (le x y) (λ _. inr (inl e)) (λ _. inl e)
  Occurs-insert_sorted le a x (y ∷ ys) (inr (inr m)) =
      if-cases (Occurs a) (le x y) (λ _. inr (inr m))
        (λ _. inr (Occurs-insert_sorted le a x ys (inr m)))

  pub Occurs-sort : (le : A → A → Bool) (a : A) (xs : List A) → Occurs a xs → Occurs a (sort le xs)
  Occurs-sort le a [] m = m
  Occurs-sort le a (x ∷ xs) (inl e) = Occurs-insert_sorted le a x (sort le xs) (inl e)
  Occurs-sort le a (x ∷ xs) (inr m) =
      Occurs-insert_sorted le a x (sort le xs) (inr (Occurs-sort le a xs m))
