-- ===== src/Prelude/Keyed.antt =====
-- Rows read and written by a key.
use Prim.Native.Nat.{ℕ}
use mathlib.Core.Path.{◌≡◌}
use mathlib.Core.Logic.{◌≢◌, ◌⊎◌, inl, inr}
use mathlib.Core.Option
use mathlib.Core.Option.{Option, none, some}
use mathlib.Core.List.{List}
use native.Mathlib.Omega.{arith}
use package.telegram_lead_assistent.Prelude.Tests.{
  ◌==◌, ==_refl, if◌then◌else◌, Option-cases, Bool-cases,
}
use package.telegram_lead_assistent.Prelude.Rows.{
  ◌∈◌, find_where, find_where_sound, find_where-none, find_where-update, update_where,
  update_where_sound,
}

module _ {A : Type 0} (key : A → ℕ) where
  -- `SELECT … WHERE key = k`
  unfoldable pub row_by : ℕ → List A → Option A
  row_by k rows = find_where (λ row. key row == k) rows

  -- `UPDATE … WHERE key = …` with every column given: what the flush of a mapped object does.
  unfoldable pub put_row : A → List A → List A
  put_row new rows = update_where (λ row. key row == key new) (λ _. new) rows

  -- Reading after a write.
  pub row_by-put_row :
      (k : ℕ) (new : A) (rows : List A)
      → row_by k (put_row new rows)
        ≡ (if k == key new then Option.map (λ _. new) (row_by k rows) else row_by k rows)
  unfolding row_by put_row
  row_by-put_row k new rows = elim (Option-cases (find_where (λ row. key row == k) rows)) [
    | inl e ↦ rw (updated, e) (ground arith)
    | inr (row, e) ↦ rw (updated, e) (ground (arith, find_where_sound (λ r. key r == k) rows row e))
  ]
    where
      updated :
          find_where
            (λ row. key row == k)
            (update_where (λ row. key row == key new) (λ _. new) rows)
          ≡ Option.map
              (λ a. if key a == key new then new else a)
              (find_where (λ row. key row == k) rows)
      updated =
          find_where-update (λ row. key row == key new) (λ row. key row == k) (λ _. new)
            (λ a h. ground arith) rows

  -- A row that is read has the key, and is in the table.
  pub row_by_sound :
      (k : ℕ) (rows : List A) (row : A) → row_by k rows ≡ some row → (row ∈ rows) × (key row ≡ k)
  unfolding row_by
  row_by_sound k rows row e = ground (arith, find_where_sound (λ r. key r == k) rows row e)

  -- What was read and is written back is read again.
  pub row_by-put_row_self :
      (k : ℕ) (old new : A) (rows : List A)
      → row_by k rows ≡ some old
      → key new ≡ k
      → row_by k (put_row new rows) ≡ some new
  row_by-put_row_self k old new rows e h = ground (arith, row_by-put_row k new rows, ==_refl k)

  pub row_by-put_row_ne :
      (k : ℕ) (new : A) (rows : List A) → k ≢ key new → row_by k (put_row new rows) ≡ row_by k rows
  row_by-put_row_ne k new rows h = ground (arith, row_by-put_row k new rows)

  -- A row of the table can be read by its key.
  pub row_by-mem :
      (row : A) (rows : List A) → row ∈ rows → (found : A) × (row_by (key row) rows ≡ some found)
  unfolding row_by
  row_by-mem row rows m = elim (Option-cases (find_where (λ r. key r == key row) rows)) [
    | inl e ↦ absurd (ground (arith, find_where-none (λ r. key r == key row) rows row e m))
    | inr found ↦ found
  ]

  -- After a write a row of the table is the new one, or an old one of another key.
  pub put_row_sound :
      (new : A) (rows : List A) (row : A)
      → row ∈ put_row new rows
      → ((row ≡ new) ⊎ ((row ∈ rows) × (key row ≢ key new)))
  unfolding put_row
  put_row_sound new rows row m =
      let (old, i, e) = update_where_sound (λ r. key r == key new) (λ _. new) rows row m in
      elim (Bool-cases (key old == key new)) [
        | inl hit ↦ inl (ground arith)
        | inr miss ↦ ground arith
      ]
