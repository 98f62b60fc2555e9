-- ===== src/Prelude/Tables.antt =====
-- SQL over a table held as a list of rows: `UPDATE … WHERE`, `SELECT … WHERE` and `SUM`.
use Prim.Native.Nat.{ℕ, ◌+◌, ◌≤◌}
use mangrove_agent.Prelude.Tests.{◌==◌, if◌then◌else◌, is_some, Bool-cases}
use mangrove_agent.Prelude.Lists.{All}
use mathlib.Core.Path.{◌≡◌, refl}
use mathlib.Core.Bool.{Bool, true, false}
use mathlib.Core.Option.{Option, none, some, map}
use mathlib.Core.Logic.{inl, inr}
use mathlib.Core.List.{List, [], ◌∷◌, ◌++◌}
use native.Mathlib.Omega.{arith}

module _ {ℓ} {A : Type ℓ} where
  -- `UPDATE … SET g WHERE c`
  unfoldable pub update_where : (A → Bool) → (A → A) → List A → List A
  update_where c g [] = []
  update_where c g (x ∷ xs) = (if c x then g x else x) ∷ update_where c g xs

  -- `SELECT … WHERE c` with `fetchone`
  unfoldable pub find_where : (A → Bool) → List A → Option A
  find_where c [] = none
  find_where c (x ∷ xs) = if c x then some x else find_where c xs

  -- `SELECT … WHERE c` with `fetchall`
  unfoldable pub select_where : (A → Bool) → List A → List A
  select_where c [] = []
  select_where c (x ∷ xs) = if c x then x ∷ select_where c xs else select_where c xs

  -- `INSERT … ON CONFLICT DO UPDATE SET g` of the row `x`, where `c` tests the key
  unfoldable pub upsert : (A → Bool) → (A → A) → A → List A → List A
  upsert c g x [] = x ∷ []
  upsert c g x (y ∷ ys) = if c y then g y ∷ ys else y ∷ upsert c g x ys

  -- `SUM` of a column that is a test and a number
  unfoldable pub sum_by : (A → ℕ) → List A → ℕ
  sum_by f [] = 0
  sum_by f (x ∷ xs) = f x + sum_by f xs

  -- A row that `update_where` keeps or changes without lowering `f` leaves no smaller sum.
  pub sum_by-update_le :
      (f : A → ℕ) (c : A → Bool) (g : A → A) (xs : List A)
      → All (λ x. c x ≡ true → f (g x) ≤ f x) xs
      → sum_by f (update_where c g xs) ≤ sum_by f xs
  unfolding sum_by update_where
  sum_by-update_le f c g [] h = omega arith
  sum_by-update_le f c g (x ∷ xs) h = ground (arith, h.0, sum_by-update_le f c g xs h.1)

  pub sum_by-update_ge :
      (f : A → ℕ) (c : A → Bool) (g : A → A) (xs : List A)
      → All (λ x. c x ≡ true → f x ≤ f (g x)) xs
      → sum_by f xs ≤ sum_by f (update_where c g xs)
  unfolding sum_by update_where
  sum_by-update_ge f c g [] h = omega arith
  sum_by-update_ge f c g (x ∷ xs) h = ground (arith, h.0, sum_by-update_ge f c g xs h.1)

  pub sum_by_mono : (f g : A → ℕ) (xs : List A) → ((x : A) → f x ≤ g x) → sum_by f xs ≤ sum_by g xs
  unfolding sum_by
  sum_by_mono f g [] h = omega arith
  sum_by_mono f g (x ∷ xs) h = omega (arith, h x, sum_by_mono f g xs h)

  pub sum_by-zero : (f : A → ℕ) (xs : List A) → ((x : A) → f x ≡ 0) → sum_by f xs ≡ 0
  unfolding sum_by
  sum_by-zero f [] h = refl
  sum_by-zero f (x ∷ xs) h = omega (arith, h x, sum_by-zero f xs h)

  pub sum_by-append : (f : A → ℕ) (xs ys : List A) → sum_by f (xs ++ ys) ≡ sum_by f xs + sum_by f ys
  unfolding sum_by
  sum_by-append f [] ys = omega arith
  sum_by-append f (x ∷ xs) ys = omega (arith, sum_by-append f xs ys)

  pub sum_by-snoc : (f : A → ℕ) (xs : List A) (x : A) → sum_by f (xs ++ x ∷ []) ≡ sum_by f xs + f x
  unfolding sum_by
  sum_by-snoc f [] x = omega arith
  sum_by-snoc f (y ∷ xs) x = omega (arith, sum_by-snoc f xs x)

  pub sum_by-eq : (f g : A → ℕ) (xs : List A) → ((x : A) → f x ≡ g x) → sum_by f xs ≡ sum_by g xs
  unfolding sum_by
  sum_by-eq f g [] h = refl
  sum_by-eq f g (x ∷ xs) h = omega (arith, h x, sum_by-eq f g xs h)

-- Predicates of all rows, under the writes to a table.
module _ {ℓ κ} {A : Type ℓ} where
  pub All-intro : (P : A → Type κ) (xs : List A) → ((x : A) → P x) → All P xs
  All-intro P [] h = tt
  All-intro P (x ∷ xs) h = (h x, All-intro P xs h)

  pub All-mono {μ} :
      (P : A → Type κ) (Q : A → Type μ) (xs : List A) → ((x : A) → P x → Q x) → All P xs → All Q xs
  All-mono P Q [] h a = tt
  All-mono P Q (x ∷ xs) h a = (h x a.0, All-mono P Q xs h a.1)

  pub All-snoc : (P : A → Type κ) (xs : List A) (x : A) → All P xs → P x → All P (xs ++ x ∷ [])
  All-snoc P [] x a h = (h, tt)
  All-snoc P (y ∷ xs) x a h = (a.0, All-snoc P xs x a.1 h)

  pub All-update :
      (P : A → Type κ) (c : A → Bool) (g : A → A) (xs : List A)
      → All (λ x. c x ≡ true → P x → P (g x)) xs
      → All P xs
      → All P (update_where c g xs)
  unfolding update_where
  All-update P c g [] h a = tt
  All-update P c g (x ∷ xs) h a = (one (c x) refl, All-update P c g xs h.1 a.1)
    where
      one : (b : Bool) → c x ≡ b → P (if b then g x else x)
      one true e = h.0 e a.0
      one false e = a.0

module _ {ℓ} {A : Type ℓ} where
  -- The row that a test selects, after an update that the test does not read.
  pub find_where-update :
      (q c : A → Bool) (g : A → A) (xs : List A)
      → ((x : A) → c x ≡ true → q (g x) ≡ q x)
      → find_where q (update_where c g xs) ≡ map (λ x. if c x then g x else x) (find_where q xs)
  unfolding find_where update_where
  find_where-update q c g [] h = refl
  find_where-update q c g (x ∷ xs) h = elim (Bool-cases (c x)) [
    | inl e ↦ elim (Bool-cases (q x)) [
      | inl k ↦ rw (e, h x e, k) (rw e refl)
      | inr k ↦ rw (e, h x e, k) (find_where-update q c g xs h)
    ]
    | inr e ↦ elim (Bool-cases (q x)) [
      | inl k ↦ rw (e, k) (rw e refl)
      | inr k ↦ rw (e, k) (find_where-update q c g xs h)
    ]
  ]

  -- The row that is found satisfies the test.
  pub find_where-holds :
      (q : A → Bool) (xs : List A) (x : A) → find_where q xs ≡ some x → q x ≡ true
  unfolding find_where
  find_where-holds q [] x h = cc
  find_where-holds q (y ∷ xs) x h = elim (Bool-cases (q y)) [
    | inl k ↦ ground arith
    | inr k ↦ find_where-holds q xs x (rw k at h)
  ]

-- Tables with a number as their key.
module _ {ℓ} {A : Type ℓ} (key : A → ℕ) where
  -- The row with a key, after a write to the row of another key.
  pub find_where-upsert_other :
      (k j : ℕ) (g : A → A) (x : A) (xs : List A)
      → ((y : A) → key (g y) ≡ key y)
      → key x ≡ k
      → (k == j) ≡ false
      → find_where (λ y. key y == j) (upsert (λ y. key y == k) g x xs)
        ≡ find_where (λ y. key y == j) xs
  unfolding find_where upsert
  find_where-upsert_other k j g x [] h e n = ground arith
  find_where-upsert_other k j g x (y ∷ ys) h e n =
      ground (arith, h y, find_where-upsert_other k j g x ys h e n)

  -- After the first write of a key, and after a later one.
  pub find_where-upsert_new :
      (k : ℕ) (g : A → A) (x : A) (xs : List A)
      → key x ≡ k
      → find_where (λ y. key y == k) xs ≡ none
      → find_where (λ y. key y == k) (upsert (λ y. key y == k) g x xs) ≡ some x
  unfolding find_where upsert
  find_where-upsert_new k g x [] e n = ground arith
  find_where-upsert_new k g x (y ∷ ys) e n = ground (arith, find_where-upsert_new k g x ys e)

  pub find_where-upsert_old :
      (k : ℕ) (g : A → A) (x y : A) (xs : List A)
      → ((z : A) → key (g z) ≡ key z)
      → find_where (λ z. key z == k) xs ≡ some y
      → find_where (λ z. key z == k) (upsert (λ z. key z == k) g x xs) ≡ some (g y)
  unfolding find_where upsert
  find_where-upsert_old k g x y [] h e = cc
  find_where-upsert_old k g x y (z ∷ zs) h e =
      ground (arith, h z, find_where-upsert_old k g x y zs h)

  -- The row with a key, after an update of the row of another key, and of that key.
  pub find_where-set_other :
      (k j : ℕ) (g : A → A) (xs : List A)
      → ((y : A) → key (g y) ≡ key y)
      → (k == j) ≡ false
      → find_where (λ y. key y == j) (update_where (λ y. key y == k) g xs)
        ≡ find_where (λ y. key y == j) xs
  unfolding find_where update_where
  find_where-set_other k j g [] h n = refl
  find_where-set_other k j g (y ∷ ys) h n = ground (arith, h y, find_where-set_other k j g ys h n)

  pub find_where-set_same :
      (k : ℕ) (g : A → A) (x : A) (xs : List A)
      → ((y : A) → key (g y) ≡ key y)
      → find_where (λ y. key y == k) xs ≡ some x
      → find_where (λ y. key y == k) (update_where (λ y. key y == k) g xs) ≡ some (g x)
  unfolding find_where update_where
  find_where-set_same k g x [] h e = cc
  find_where-set_same k g x (y ∷ ys) h e = ground (arith, h y, find_where-set_same k g x ys h)

  -- The row with a key at the end of a table that has no such row.
  pub find_where-snoc :
      (j : ℕ) (x : A) (xs : List A)
      → find_where (λ y. key y == j) (xs ++ x ∷ []) ≡ (
          if is_some (find_where (λ y. key y == j) xs)
          then find_where (λ y. key y == j) xs
          else if key x == j
          then some x
          else none)
  unfolding find_where
  find_where-snoc j x [] = ground arith
  find_where-snoc j x (y ∷ ys) = ground (arith, find_where-snoc j x ys)
