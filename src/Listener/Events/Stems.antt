-- ===== src/Listener/Events/Stems.antt =====
-- app/listener/events/prefilter.py, `_compile_stem_terms`, with the part of Python's `re` that its
-- patterns use: a matcher that returns what may remain of the text after a match, every alternative
-- and every length of a repetition included, so that backtracking is the choice of a remainder.
pub mod Matching
pub mod Words
use telegram_lead_assistent.Prelude.{
  ℕ, ◌==◌, Bool, true, false, not, ◌&&◌, ◌||◌, if◌then◌else◌, List, [], ◌∷◌, ◌++◌, Option, none,
  some, String,
}
use telegram_lead_assistent.Listener.Events.Characters.{Unicode, codes}

-- `literal` is an escaped character, `word_star` is `\w*` and `space_plus` is `\s+`.
pub data Pattern : Type 0 where
  empty never word_star space_plus boundary : Pattern
  literal : ℕ → Pattern
  sequence alternative : Pattern → Pattern → Pattern

-- A position in a text: the character before it, and the rest.
abbrev pub Position : Type 0
Position = Option ℕ × List ℕ

module _ (u : Unicode) where
  abbrev pub is_word_before : Option ℕ → Bool
  is_word_before none = false
  is_word_before (some c) = u.is_word c

  abbrev pub is_word_next : List ℕ → Bool
  is_word_next [] = false
  is_word_next (c ∷ cs) = u.is_word c

  -- `\b`
  abbrev pub at_boundary : Position → Bool
  at_boundary (before, rest) =
      (is_word_before before && not (is_word_next rest))
      || (not (is_word_before before) && is_word_next rest)

  -- The positions after none or more characters that pass the test, from a position.
  unfoldable pub star_rests : (ℕ → Bool) → Option ℕ → List ℕ → List Position
  star_rests p before [] = (before, []) ∷ []
  star_rests p before (c ∷ cs) =
      let more = star_rests p (some c) cs in (before, c ∷ cs) ∷ (if p c then more else [])

  unfoldable pub literal_rests : ℕ → List ℕ → List Position
  literal_rests c [] = []
  literal_rests c (d ∷ ds) = if d == c then (some d, ds) ∷ [] else []

  unfoldable pub plus_rests : (ℕ → Bool) → List ℕ → List Position
  unfolding star_rests
  plus_rests p [] = []
  plus_rests p (c ∷ cs) = if p c then star_rests p (some c) cs else []

  unfoldable pub flat_map : (Position → List Position) → List Position → List Position
  flat_map f [] = []
  flat_map f (x ∷ xs) = f x ++ flat_map f xs

  -- The positions at which a match that starts at the position may end.
  unfoldable pub rests : Pattern → Position → List Position
  unfolding star_rests literal_rests plus_rests flat_map
  rests empty at = at ∷ []
  rests never at = []
  rests word_star at = star_rests u.is_word at.0 at.1
  rests space_plus at = plus_rests u.is_space at.1
  rests boundary at = if at_boundary at then at ∷ [] else []
  rests (literal c) at = literal_rests c at.1
  rests (sequence p q) at = flat_map (rests q) (rests p at)
  rests (alternative p q) at = rests p at ++ rests q at

  abbrev pub is_some_rest : List Position → Bool
  is_some_rest [] = false
  is_some_rest (x ∷ xs) = true

  -- `pattern.search(text)`, from a position on.
  unfoldable pub search_from : Pattern → Option ℕ → List ℕ → Bool
  unfolding rests
  search_from p before [] = is_some_rest (rests p (before, []))
  search_from p before (c ∷ cs) =
      is_some_rest (rests p (before, c ∷ cs)) || search_from p (some c) cs

  unfoldable pub search : Pattern → List ℕ → Bool
  unfolding search_from
  search p cs = search_from p none cs

  unfoldable pub all_alnum : List ℕ → Bool
  all_alnum [] = true
  all_alnum (c ∷ cs) = u.is_alnum c && all_alnum cs

  abbrev pub is_underscore : List ℕ → Bool
  is_underscore (c ∷ []) = c == 95
  is_underscore _ = false

  -- `part.isalnum() or part == "_"`, for the run of word characters that a part is.
  abbrev pub takes_suffix : List ℕ → Bool
  takes_suffix part = all_alnum part || is_underscore part

  -- The part that is being read, after one more character.
  abbrev pub part_after : List ℕ → ℕ → List ℕ
  part_after part c = if u.is_word c then part ++ c ∷ [] else []

  -- The pattern of the rest of a term, with the characters of the part that is being read: each
  -- character of the term, `\w*` after the last one of a part that takes it, and `\s+` for a blank.
  unfoldable pub compile_from : List ℕ → List ℕ → Pattern
  unfolding all_alnum
  compile_from part [] = empty
  compile_from part (c ∷ cs) =
      let current = part_after part c in
      let rest = compile_from current cs in
      if c == 32
      then sequence space_plus rest
      else if u.is_word c && (not (is_word_next cs) && takes_suffix current)
      then sequence (literal c) (sequence word_star rest)
      else sequence (literal c) rest

  unfoldable pub compile_term : List ℕ → Pattern
  unfolding compile_from
  compile_term term = compile_from [] term

  -- `"|".join(patterns)`, which is the empty pattern for no terms.
  unfoldable pub alternatives : List (List ℕ) → Pattern
  unfolding compile_term
  alternatives [] = empty
  alternatives (term ∷ []) = compile_term term
  alternatives (term ∷ (next ∷ terms)) =
      alternative (compile_term term) (alternatives (next ∷ terms))

  unfoldable pub compile_stem_terms : List (List ℕ) → Pattern
  unfolding alternatives
  compile_stem_terms terms = sequence boundary (sequence (alternatives terms) boundary)
