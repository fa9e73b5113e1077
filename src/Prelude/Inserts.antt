-- ===== src/Prelude/Inserts.antt =====
-- Look-ups after an insert and after a deletion.
use mathlib.Core.Path.{◌≡◌, refl}
use mathlib.Core.Bool.{Bool, true, false}
use mathlib.Core.Option.{none, some}
use mathlib.Core.List.{List, [], ◌∷◌, ◌++◌}
use native.Mathlib.Omega.{arith}
use package.telegram_lead_assistent.Prelude.Tests.{if◌then◌else◌}
use package.telegram_lead_assistent.Prelude.Rows.{find_where, delete_where, any_where}

module _ {A : Type 0} (p : A → Bool) where
  pub find_where-append_none :
      (rows : List A) (row : A)
      → find_where p rows ≡ none
      → find_where p (rows ++ row ∷ []) ≡ (if p row then some row else none)
  unfolding find_where
  find_where-append_none [] row h = refl
  find_where-append_none (x ∷ xs) row h = ground (arith, find_where-append_none xs row)

  pub find_where-append_some :
      (rows more : List A) (row : A)
      → find_where p rows ≡ some row
      → find_where p (rows ++ more) ≡ some row
  unfolding find_where
  find_where-append_some [] more row h = ground arith
  find_where-append_some (x ∷ xs) more row h = ground (arith, find_where-append_some xs more row)

  pub find_where-delete : (rows : List A) → find_where p (delete_where p rows) ≡ none
  unfolding find_where delete_where
  find_where-delete [] = refl
  find_where-delete (x ∷ xs) = ground (arith, find_where-delete xs)

  -- Whether a row passes the test, by the look-up.
  pub any_where_of_find :
      (rows : List A) (row : A) → find_where p rows ≡ some row → any_where p rows ≡ true
  unfolding find_where any_where
  any_where_of_find [] row h = ground arith
  any_where_of_find (x ∷ xs) row h = ground (arith, any_where_of_find xs row)

  pub find_where_of_any : (rows : List A) → any_where p rows ≡ false → find_where p rows ≡ none
  unfolding find_where any_where
  find_where_of_any [] h = refl
  find_where_of_any (x ∷ xs) h = ground (arith, find_where_of_any xs)
