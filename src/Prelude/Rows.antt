-- ===== src/Prelude/Rows.antt =====
-- Tables as lists of rows, and what the queries of the source do with them: `WHERE` takes a Boolean
-- test, `ORDER BY … LIMIT 1` a strict order.
use Prim.Native.Nat.{ℕ, suc, ◌≤◌, max}
use mathlib.Core.Path.{◌≡◌, refl}
use mathlib.Core.Logic.{◌⊎◌, inl, inr}
use mathlib.Core.Bool.{Bool, true, false, ◌||◌}
use mathlib.Core.Option
use mathlib.Core.Option.{Option, none, some}
use mathlib.Core.List.{List, [], ◌∷◌}
use native.Mathlib.Omega.{arith}
use package.telegram_lead_assistent.Prelude.Tests.{leb, if◌then◌else◌, Option-cases, Bool-cases}

module _ {ℓ} {A : Type ℓ} where
  abbrev pub length : List A → ℕ
  length [] = 0
  length (x ∷ xs) = suc (length xs)

  -- The first row that passes the test.
  unfoldable pub find_where : (A → Bool) → List A → Option A
  find_where p [] = none
  find_where p (x ∷ xs) = if p x then some x else find_where p xs

  unfoldable pub select_where : (A → Bool) → List A → List A
  select_where p [] = []
  select_where p (x ∷ xs) = let rest = select_where p xs in if p x then x ∷ rest else rest

  unfoldable pub update_where : (A → Bool) → (A → A) → List A → List A
  update_where p f [] = []
  update_where p f (x ∷ xs) = (if p x then f x else x) ∷ update_where p f xs

  unfoldable pub delete_where : (A → Bool) → List A → List A
  delete_where p [] = []
  delete_where p (x ∷ xs) = let rest = delete_where p xs in if p x then rest else x ∷ rest

  unfoldable pub any_where : (A → Bool) → List A → Bool
  any_where p [] = false
  any_where p (x ∷ xs) = p x || any_where p xs

  earlier : (A → A → Bool) → A → Option A → A
  earlier before x none = x
  earlier before x (some y) = if before y x then y else x

  -- `ORDER BY … LIMIT 1`: a row before which no other stands, the first such in the table.
  unfoldable pub first_by : (A → A → Bool) → List A → Option A
  unfolding earlier
  first_by before [] = none
  first_by before (x ∷ xs) = some (earlier before x (first_by before xs))

  -- The same with a `WHERE`.
  unfoldable pub first_where : (A → A → Bool) → (A → Bool) → List A → Option A
  first_where before p xs = first_by before (select_where p xs)

  -- `SELECT max(f)`, `NULL` for no row.
  unfoldable pub max_of : (A → ℕ) → List A → Option ℕ
  max_of f [] = none
  max_of f (x ∷ xs) = elim (max_of f xs) [ none ↦ some (f x) | some m ↦ some (max (f x) m) ]

-- `a` is a row of the table.
infix 50 ◌∈◌
abbrev pub ◌∈◌ : {A : Type 0} → A → List A → Type 0
a ∈ [] = ⊥
a ∈ (x ∷ xs) = (a ≡ x) ⊎ (a ∈ xs)

module _ {A : Type 0} (p : A → Bool) where
  pub find_where_sound : (xs : List A) (a : A) → find_where p xs ≡ some a → (a ∈ xs) × (p a ≡ true)
  unfolding find_where
  find_where_sound [] a h = ground arith
  find_where_sound (x ∷ xs) a h = ground (arith, find_where_sound xs a)

  pub find_where-none : (xs : List A) (a : A) → find_where p xs ≡ none → a ∈ xs → p a ≡ false
  unfolding find_where
  find_where-none [] a h m = absurd m
  find_where-none (x ∷ xs) a h m = ground (arith, find_where-none xs a)

  pub mem-select_where : (xs : List A) (a : A) → a ∈ xs → p a ≡ true → a ∈ select_where p xs
  unfolding select_where
  mem-select_where [] a m t = m
  mem-select_where (x ∷ xs) a m t = ground (arith, mem-select_where xs a)

  pub select_where_sound : (xs : List A) (a : A) → a ∈ select_where p xs → (a ∈ xs) × (p a ≡ true)
  unfolding select_where
  select_where_sound [] a m = absurd m
  select_where_sound (x ∷ xs) a m = ground (arith, select_where_sound xs a)

  pub mem-update_where :
      (f : A → A) (xs : List A) (a : A) → a ∈ xs → (if p a then f a else a) ∈ update_where p f xs
  unfolding update_where
  mem-update_where f [] a m = absurd m
  mem-update_where f (x ∷ xs) a m = ground (arith, mem-update_where f xs a)

  pub update_where_sound :
      (f : A → A) (xs : List A) (b : A)
      → b ∈ update_where p f xs
      → (a : A) × (a ∈ xs) × (b ≡ (if p a then f a else a))
  unfolding update_where
  update_where_sound f [] b m = absurd m
  update_where_sound f (x ∷ xs) b (inl e) = (x, inl refl, e)
  update_where_sound f (x ∷ xs) b (inr m) =
      let (a, i, e) = update_where_sound f xs b m in (a, inr i, e)

  pub delete_where_sound : (xs : List A) (a : A) → a ∈ delete_where p xs → (a ∈ xs) × (p a ≡ false)
  unfolding delete_where
  delete_where_sound [] a m = absurd m
  delete_where_sound (x ∷ xs) a m = ground (arith, delete_where_sound xs a)

  pub mem-delete_where : (xs : List A) (a : A) → a ∈ xs → p a ≡ false → a ∈ delete_where p xs
  unfolding delete_where
  mem-delete_where [] a m t = m
  mem-delete_where (x ∷ xs) a m t = ground (arith, mem-delete_where xs a)

  -- An update that meets no row changes nothing.
  pub update_where_idle :
      (f : A → A) (xs : List A) → any_where p xs ≡ false → update_where p f xs ≡ xs
  unfolding update_where any_where
  update_where_idle f [] h = refl
  update_where_idle f (x ∷ xs) h = ground (arith, update_where_idle f xs)

  -- An update after which no row passes the test leaves none.
  pub any_where-update :
      (f : A → A)
      → ((a : A) → p (f a) ≡ false)
      → (xs : List A) → any_where p (update_where p f xs) ≡ false
  unfolding update_where any_where
  any_where-update f stops [] = refl
  any_where-update f stops (x ∷ xs) = ground (arith, stops x, any_where-update f stops xs)

  pub select_where-none : (xs : List A) → any_where p xs ≡ false → select_where p xs ≡ []
  unfolding select_where any_where
  select_where-none [] h = refl
  select_where-none (x ∷ xs) h = ground (arith, select_where-none xs)

  -- A look-up after an update that keeps the key.
  pub find_where-update :
      (q : A → Bool) (f : A → A)
      → ((a : A) → p a ≡ true → q (f a) ≡ q a)
      → (xs : List A)
      → find_where q (update_where p f xs)
        ≡ Option.map (λ a. if p a then f a else a) (find_where q xs)
  unfolding find_where update_where
  find_where-update q f keep [] = refl
  find_where-update q f keep (x ∷ xs) = ground (arith, keep x, find_where-update q f keep xs)

-- The order of a query: if neither `y` stands before `x` nor `z` before `y`, then `z` not before `x`.
pub record IsOrder {A : Type 0} (before : A → A → Bool) : Type 0 where
  pub asymm : (x y : A) → before x y ≡ true → before y x ≡ false
  pub trans : (x y z : A) → before y x ≡ false → before z y ≡ false → before z x ≡ false

no_row : {A : Type 0} (xs : List A) (a : A) → xs ≡ [] → ¬ (a ∈ xs)
no_row [] a h m = m
no_row (x ∷ xs) a h m = cc

module _ {A : Type 0} (before : A → A → Bool) where
  pub first_by-mem : (xs : List A) (a : A) → first_by before xs ≡ some a → a ∈ xs
  unfolding first_by
  first_by-mem [] a h = ground arith
  first_by-mem (x ∷ xs) a h = elim (Option-cases (first_by before xs)) [
    | inl e ↦ ground arith
    | inr (y, e) ↦ ground (arith, first_by-mem xs y e)
  ]

  pub first_by-none : (xs : List A) → first_by before xs ≡ none → xs ≡ []
  unfolding first_by
  first_by-none [] h = refl
  first_by-none (x ∷ xs) h = ground arith

  -- No row of the table stands before the one that the query returns.
  pub first_by-least :
      IsOrder before
      → (xs : List A) (a b : A) → first_by before xs ≡ some a
      → b ∈ xs
      → before b a ≡ false
  unfolding first_by
  first_by-least o [] a b h m = absurd m
  first_by-least o (x ∷ xs) a b h m = elim (Option-cases (first_by before xs)) [
    | inl e ↦ ground (arith, o.asymm x x, no_row xs b (first_by-none xs e))
    | inr (y, e) ↦
        ground (arith, o.asymm x x, o.asymm y x, o.trans x y b, first_by-least o xs y b e)
  ]

-- `a` is what the query returns: a row that passes the test, and before which no such row stands.
pub record IsFirst {A : Type 0} (before : A → A → Bool) (p : A → Bool) (xs : List A) (a : A)
    : Type 0 where
  pub stored : a ∈ xs
  pub meets : p a ≡ true
  pub least : (b : A) → b ∈ xs → p b ≡ true → before b a ≡ false

module _ {A : Type 0} (before : A → A → Bool) (p : A → Bool) (xs : List A) where
  pub first_where-IsFirst :
      IsOrder before → (a : A) → first_where before p xs ≡ some a → IsFirst before p xs a
  unfolding first_where
  first_where-IsFirst o a e =
      let (m, t) = select_where_sound p xs a (first_by-mem before (select_where p xs) a e) in
      record {
        stored = m;
        meets = t;
        least = λ b i u.
            first_by-least before o (select_where p xs) a b e (mem-select_where p xs b i u);
      }

  pub first_where-none : first_where before p xs ≡ none → (b : A) → b ∈ xs → p b ≡ false
  unfolding first_where
  first_where-none e b i = elim (Bool-cases (p b)) [
    | inl t ↦ absurd (
        no_row (select_where p xs) b (first_by-none before (select_where p xs) e)
          (mem-select_where p xs b i t))
    | inr f ↦ f
  ]

module _ {A : Type 0} (f : A → ℕ) where
  pub max_of-none : (xs : List A) → max_of f xs ≡ none → (a : A) → ¬ (a ∈ xs)
  unfolding max_of
  max_of-none [] h a m = m
  max_of-none (x ∷ xs) h a m = ground arith

  pub max_of-le : (xs : List A) (a : A) (m : ℕ) → max_of f xs ≡ some m → a ∈ xs → f a ≤ m
  unfolding max_of
  max_of-le [] a m h i = absurd i
  max_of-le (x ∷ xs) a m h i = elim (Option-cases (max_of f xs)) [
    | inl e ↦ ground (arith, max_of-none xs e a)
    | inr (k, e) ↦ ground (arith, max_of-le xs a k e)
  ]

  pub max_of-attained :
      (xs : List A) (m : ℕ) → max_of f xs ≡ some m → (a : A) × (a ∈ xs) × (f a ≡ m)
  unfolding max_of
  max_of-attained [] m h = absurd (ground arith)
  max_of-attained (x ∷ xs) m h = elim (Option-cases (max_of f xs)) [
    | inl e ↦ (x, inl refl, ground arith)
    | inr (k, e) ↦
        let (a, i, n) = max_of-attained xs k e in
        elim (Bool-cases (leb k (f x))) [
          | inl top ↦ (x, inl refl, ground arith)
          | inr below ↦ (a, inr i, ground arith)
        ]
  ]
