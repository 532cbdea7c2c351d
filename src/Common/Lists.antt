-- ===== src/Common/Lists.antt =====
-- Queries on a table, which is a list of rows: first, filter, update, sums and counts.
use Prim.Native.Nat.{ℕ, zero, suc, ◌+◌, ◌≤◌}
use mathlib.Core.Path.{◌≡◌, refl}
use mathlib.Core.Bool.{Bool, true, false, ◌||◌, ◌&&◌, not}
use mathlib.Core.List.{List, [], ◌∷◌}
use mathlib.Core.Option.{Option, none, some}
use native.Mathlib.Omega.{arith}
use event_booking_ticketing.Common.Tests.{leb, ◌==◌, if◌then◌else◌, ==→eq}

module _ {ℓ} {A : Type ℓ} where
  abbrev pub length : List A → ℕ
  length [] = 0
  length (x ∷ xs) = suc (length xs)

  -- `query.filter(p).first()`
  abbrev pub first : (A → Bool) → List A → Option A
  first p [] = none
  first p (x ∷ xs) = if p x then some x else first p xs

  -- `query.filter(p).all()`
  abbrev pub select : (A → Bool) → List A → List A
  select p [] = []
  select p (x ∷ xs) = if p x then x ∷ select p xs else select p xs

  -- An assignment to the attributes of the row that `first p` finds.
  abbrev pub update : (A → Bool) → (A → A) → List A → List A
  update p f [] = []
  update p f (x ∷ xs) = if p x then f x ∷ xs else x ∷ update p f xs

  -- `query.filter(p).update(...)`
  abbrev pub update_all : (A → Bool) → (A → A) → List A → List A
  update_all p f [] = []
  update_all p f (x ∷ xs) = (if p x then f x else x) ∷ update_all p f xs

  -- `func.coalesce(func.sum(w), 0)`
  abbrev pub sum_by : (A → ℕ) → List A → ℕ
  sum_by w [] = 0
  sum_by w (x ∷ xs) = w x + sum_by w xs

  abbrev pub any : (A → Bool) → List A → Bool
  any p [] = false
  any p (x ∷ xs) = p x || any p xs

  abbrev pub all : (A → Bool) → List A → Bool
  all p [] = true
  all p (x ∷ xs) = p x && all p xs

  abbrev pub is_empty : List A → Bool
  is_empty [] = true
  is_empty (x ∷ xs) = false

-- `n in ns`
abbrev pub mem : ℕ → List ℕ → Bool
mem n [] = false
mem n (x ∷ xs) = (x == n) || mem n xs

abbrev pub count : ℕ → List ℕ → ℕ
count n [] = 0
count n (x ∷ xs) = (if x == n then 1 else 0) + count n xs

-- `len(ns) == len(set(ns))`
abbrev pub distinct : List ℕ → Bool
distinct [] = true
distinct (x ∷ xs) = not (mem x xs) && distinct xs

abbrev pub is_some {ℓ} : {A : Type ℓ} → Option A → Bool
is_some none = false
is_some (some a) = true

module _ {ℓ} {A : Type ℓ} where
  -- `order_by(key.asc())`
  abbrev pub insert_by : (A → ℕ) → A → List A → List A
  insert_by key x [] = x ∷ []
  insert_by key x (y ∷ ys) = if leb (key x) (key y) then x ∷ y ∷ ys else y ∷ insert_by key x ys

  abbrev pub order_by : (A → ℕ) → List A → List A
  order_by key [] = []
  order_by key (x ∷ xs) = insert_by key x (order_by key xs)

  -- `order_by(...)` of a comparison of rows.
  abbrev pub insert_sorted : (A → A → Bool) → A → List A → List A
  insert_sorted le x [] = x ∷ []
  insert_sorted le x (y ∷ ys) = if le x y then x ∷ y ∷ ys else y ∷ insert_sorted le x ys

  abbrev pub sort : (A → A → Bool) → List A → List A
  sort le [] = []
  sort le (x ∷ xs) = insert_sorted le x (sort le xs)

  -- `offset(n)` and `limit(n)`
  abbrev pub drop : ℕ → List A → List A
  drop zero xs = xs
  drop (suc n) [] = []
  drop (suc n) (x ∷ xs) = drop n xs

  abbrev pub take : ℕ → List A → List A
  take zero xs = []
  take (suc n) [] = []
  take (suc n) (x ∷ xs) = x ∷ take n xs

  pub first-true : (p : A → Bool) (xs : List A) (a : A) → first p xs ≡ some a → p a ≡ true
  first-true p [] a h = cc
  first-true p (x ∷ xs) a h = ground (arith, first-true p xs a)

  pub sum_by-update :
      (w : A → ℕ) (p : A → Bool) (f : A → A) (xs : List A) (a : A)
      → first p xs ≡ some a
      → sum_by w (update p f xs) + w a ≡ sum_by w xs + w (f a)
  sum_by-update w p f [] a h = cc
  sum_by-update w p f (x ∷ xs) a h = ground (arith, sum_by-update w p f xs a)

  -- A row that two queries find is found by the one once the other has updated it.
  pub first-update :
      (p q : A → Bool) (f : A → A) (xs : List A) (a : A)
      → first p xs ≡ some a
      → first q xs ≡ some a
      → p (f a) ≡ true
      → first p (update q f xs) ≡ some (f a)
  first-update p q f [] a h h' k = cc
  first-update p q f (x ∷ xs) a h h' k = ground (arith, first-update p q f xs a, first-true q xs a)

  pub sum_by-first-le :
      (w : A → ℕ) (p : A → Bool) (xs : List A) (a : A) → first p xs ≡ some a → w a ≤ sum_by w xs
  sum_by-first-le w p [] a h = cc
  sum_by-first-le w p (x ∷ xs) a h = ground (arith, sum_by-first-le w p xs a)

  pub sum_by_mono : (v w : A → ℕ) (xs : List A) → ((x : A) → v x ≤ w x) → sum_by v xs ≤ sum_by w xs
  sum_by_mono v w [] h = omega arith
  sum_by_mono v w (x ∷ xs) h = omega (arith, h x, sum_by_mono v w xs h)

  -- Of two weights, the row that is found may take the larger one alone.
  pub sum_by-mono_first :
      (v w : A → ℕ) (p : A → Bool) (xs : List A) (a : A)
      → ((x : A) → v x ≤ w x)
      → first p xs ≡ some a
      → sum_by v xs + w a ≤ sum_by w xs + v a
  sum_by-mono_first v w p [] a h q = cc
  sum_by-mono_first v w p (x ∷ xs) a h q =
      ground (arith, h x, sum_by_mono v w xs h, sum_by-mono_first v w p xs a h)

  pub sum_by-insert_by :
      (w : A → ℕ) (key : A → ℕ) (x : A) (xs : List A)
      → sum_by w (insert_by key x xs) ≡ w x + sum_by w xs
  sum_by-insert_by w key x [] = omega arith
  sum_by-insert_by w key x (y ∷ ys) = ground (arith, sum_by-insert_by w key x ys)

  -- Ordering keeps every total.
  pub sum_by-order_by :
      (w : A → ℕ) (key : A → ℕ) (xs : List A) → sum_by w (order_by key xs) ≡ sum_by w xs
  sum_by-order_by w key [] = refl
  sum_by-order_by w key (x ∷ xs) =
      omega (arith, sum_by-insert_by w key x (order_by key xs), sum_by-order_by w key xs)

  any-insert_by :
      (p : A → Bool) (key : A → ℕ) (x : A) (xs : List A)
      → any p (insert_by key x xs) ≡ (p x || any p xs)
  any-insert_by p key x [] = refl
  any-insert_by p key x (y ∷ ys) = ground (arith, any-insert_by p key x ys)

  pub any-order_by : (p : A → Bool) (key : A → ℕ) (xs : List A) → any p (order_by key xs) ≡ any p xs
  any-order_by p key [] = refl
  any-order_by p key (x ∷ xs) =
      ground (arith, any-insert_by p key x (order_by key xs), any-order_by p key xs)

  length-insert_by :
      (key : A → ℕ) (x : A) (xs : List A) → length (insert_by key x xs) ≡ suc (length xs)
  length-insert_by key x [] = refl
  length-insert_by key x (y ∷ ys) = ground (arith, length-insert_by key x ys)

  pub length-order_by : (key : A → ℕ) (xs : List A) → length (order_by key xs) ≡ length xs
  length-order_by key [] = refl
  length-order_by key (x ∷ xs) =
      omega (arith, length-insert_by key x (order_by key xs), length-order_by key xs)

pub count-not-mem : (n : ℕ) (xs : List ℕ) → mem n xs ≡ false → count n xs ≡ 0
count-not-mem n [] h = refl
count-not-mem n (x ∷ xs) h = ground (arith, count-not-mem n xs)

pub count-distinct : (n : ℕ) (xs : List ℕ) → distinct xs ≡ true → count n xs ≤ 1
count-distinct n [] h = omega arith
count-distinct n (x ∷ xs) h = ground (arith, count-distinct n xs, count-not-mem x xs, ==→eq x n)

pub mem-count : (n : ℕ) (xs : List ℕ) → mem n xs ≡ true → 1 ≤ count n xs
mem-count n [] h = cc
mem-count n (x ∷ xs) h = ground (arith, mem-count n xs)
