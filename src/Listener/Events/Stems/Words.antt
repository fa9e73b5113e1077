-- ===== src/Listener/Events/Stems/Words.antt =====
-- What the compiled terms of one word find: the words of the text that begin with one of them.
use telegram_lead_assistent.Prelude.{
  ℕ, ◌==◌, ◌≡◌, refl, ap, ◌∙◌, Bool, true, false, not, ◌&&◌, ◌||◌, Option, none, some, List, [],
  ◌∷◌, ◌++◌, arith, any_where,
}
use telegram_lead_assistent.Listener.Events.Characters.{Unicode}
use telegram_lead_assistent.Listener.Events.Stems.{
  empty, word_star, literal, sequence, is_word_before, is_word_next, at_boundary, rests,
  is_some_rest, search_from, search, all_alnum, compile_from, compile_term, alternatives,
  compile_stem_terms,
}
use telegram_lead_assistent.Listener.Events.Stems.Matching.{
  any_where-append, star_then_nothing, literal_step, literal_step_end, between_boundaries,
}

unfoldable pub is_prefix : List ℕ → List ℕ → Bool
is_prefix [] cs = true
is_prefix (p ∷ ps) [] = false
is_prefix (p ∷ ps) (c ∷ cs) = c == p && is_prefix ps cs

module _ (u : Unicode) where
  -- A term of one word: its characters are letters or digits, so word characters, and no blanks.
  unfoldable pub is_word_text : List ℕ → Bool
  is_word_text [] = true
  is_word_text (c ∷ cs) = (u.is_word c && (u.is_alnum c && not (c == 32))) && is_word_text cs

  abbrev pub is_one_word : List ℕ → Bool
  is_one_word [] = false
  is_one_word (c ∷ cs) = is_word_text (c ∷ cs)

  -- Some word of the text begins with one of the terms: the reference of the search. `before` is the
  -- character before the text.
  unfoldable pub some_word_begins : List (List ℕ) → Option ℕ → List ℕ → Bool
  unfolding is_prefix
  some_word_begins terms before [] = false
  some_word_begins terms before (c ∷ cs) =
      (not (is_word_before u before) && any_where (λ term. is_prefix term (c ∷ cs)) terms)
      || some_word_begins terms (some c) cs

  all_alnum-append :
      (part : List ℕ) (c : ℕ)
      → all_alnum u part ≡ true
      → u.is_alnum c ≡ true
      → all_alnum u (part ++ c ∷ []) ≡ true
  unfolding all_alnum
  all_alnum-append [] c a h = ground arith
  all_alnum-append (x ∷ xs) c a h = ground (arith, all_alnum-append xs c)

  compile_last :
      (part : List ℕ) (c : ℕ)
      → all_alnum u part ≡ true
      → u.is_word c ≡ true
      → u.is_alnum c ≡ true
      → (c == 32) ≡ false
      → compile_from u part (c ∷ []) ≡ sequence (literal c) (sequence word_star empty)
  unfolding compile_from
  compile_last part c a w n blank = rw (blank, w, all_alnum-append part c a n) refl

  compile_more :
      (part : List ℕ) (c e : ℕ) (term : List ℕ)
      → u.is_word c ≡ true
      → (c == 32) ≡ false
      → u.is_word e ≡ true
      → compile_from u part (c ∷ e ∷ term)
        ≡ sequence (literal c) (compile_from u (part ++ c ∷ []) (e ∷ term))
  unfolding compile_from
  compile_more part c e term w blank next = rw (compile_from, blank, w, next) refl

  -- The matches of a term end at a boundary exactly when the text begins with the term.
  term_boundary :
      (part : List ℕ) (c : ℕ) (term : List ℕ) (before : Option ℕ) (cs : List ℕ)
      → all_alnum u part ≡ true
      → is_word_text (c ∷ term) ≡ true
      → any_where (at_boundary u) (rests u (compile_from u part (c ∷ term)) (before, cs))
        ≡ is_prefix (c ∷ term) cs
  unfolding is_word_text is_prefix
  term_boundary part c [] before [] a w =
      rw (compile_last part c a (ground arith) (ground arith) (ground arith))
        (literal_step_end u c (sequence word_star empty) before)
  term_boundary part c [] before (d ∷ ds) a w =
      rw (compile_last part c a (ground arith) (ground arith) (ground arith)) (
        literal_step u c (sequence word_star empty) before d ds
        ∙ ground (arith, star_then_nothing u d ds))
  term_boundary part c (e ∷ term) before [] a w =
      rw (compile_more part c e term (ground arith) (ground arith) (ground arith))
        (literal_step_end u c (compile_from u (part ++ c ∷ []) (e ∷ term)) before)
  term_boundary part c (e ∷ term) before (d ∷ ds) a w =
      rw (compile_more part c e term (ground arith) (ground arith) (ground arith)) (
        literal_step u c (compile_from u (part ++ c ∷ []) (e ∷ term)) before d ds
        ∙ ap (λ b. d == c && b)
            (term_boundary (part ++ c ∷ []) e term (some d) ds
              (all_alnum-append part c a (ground arith)) (ground arith)))

  unfoldable pub are_words : List (List ℕ) → Bool
  unfolding is_word_text
  are_words [] = true
  are_words (term ∷ terms) = is_one_word term && are_words terms

  one_word_boundary :
      (term : List ℕ) (before : Option ℕ) (cs : List ℕ)
      → is_one_word term ≡ true
      → any_where (at_boundary u) (rests u (compile_term u term) (before, cs)) ≡ is_prefix term cs
  unfolding compile_term all_alnum
  one_word_boundary [] before cs w = cc
  one_word_boundary (c ∷ term) before cs w = term_boundary [] c term before cs refl w

  alternatives_boundary :
      (term : List ℕ) (terms : List (List ℕ)) (before : Option ℕ) (cs : List ℕ)
      → are_words (term ∷ terms) ≡ true
      → any_where (at_boundary u) (rests u (alternatives u (term ∷ terms)) (before, cs))
        ≡ any_where (λ t. is_prefix t cs) (term ∷ terms)
  unfolding alternatives rests any_where are_words
  alternatives_boundary term [] before cs w =
      one_word_boundary term before cs (ground arith) ∙ ground arith
  alternatives_boundary term (next ∷ terms) before cs w =
      any_where-append (at_boundary u) (rests u (compile_term u term) (before, cs))
        (rests u (alternatives u (next ∷ terms)) (before, cs))
      ∙ ap
          (λ b.
            b || any_where (at_boundary u) (rests u (alternatives u (next ∷ terms)) (before, cs)))
          (one_word_boundary term before cs (ground arith))
      ∙ ap (λ b. is_prefix term cs || b) (alternatives_boundary next terms before cs (ground arith))

  prefix_of_word :
      (term : List ℕ) (cs : List ℕ)
      → is_one_word term ≡ true
      → is_prefix term cs ≡ true
      → is_word_next u cs ≡ true
  unfolding is_prefix is_word_text
  prefix_of_word [] cs w p = cc
  prefix_of_word (c ∷ term) [] w p = cc
  prefix_of_word (c ∷ term) (d ∷ ds) w p = ground arith

  prefix_of_words :
      (terms : List (List ℕ)) (cs : List ℕ)
      → are_words terms ≡ true
      → any_where (λ term. is_prefix term cs) terms ≡ true
      → is_word_next u cs ≡ true
  unfolding are_words any_where
  prefix_of_words [] cs w p = cc
  prefix_of_words (term ∷ terms) cs w p =
      ground (arith, prefix_of_word term cs, prefix_of_words terms cs)

  module _ (first : List ℕ) (others : List (List ℕ))
      (words : are_words (first ∷ others) ≡ true) where
    abbrev terms : List (List ℕ)
    terms = first ∷ others

    abbrev begins : List ℕ → Bool
    begins cs = any_where (λ term. is_prefix term cs) terms

    found_at :
        (before : Option ℕ) (cs : List ℕ)
        → is_some_rest u (rests u (compile_stem_terms u terms) (before, cs))
          ≡ (not (is_word_before u before) && begins cs)
    unfolding compile_stem_terms
    found_at before cs =
        between_boundaries u (alternatives u terms) (before, cs)
        ∙ ap (λ b. at_boundary u (before, cs) && b)
            (alternatives_boundary first others before cs words)
        ∙ only_word_starts (is_word_before u before) (is_word_next u cs) (begins cs)
            (prefix_of_words terms cs words)
      where
        only_word_starts :
            (w n b : Bool)
            → (b ≡ true → n ≡ true)
            → (((w && not n) || (not w && n)) && b) ≡ (not w && b)
        only_word_starts w n true h = rw (h refl) (ground arith)
        only_word_starts w n false h = ground arith

    nothing_begins_empty :
        (ts : List (List ℕ))
        → are_words ts ≡ true
        → any_where (λ term. is_prefix term []) ts ≡ false
    unfolding are_words any_where is_prefix
    nothing_begins_empty [] w = refl
    nothing_begins_empty ([] ∷ ts) w = cc
    nothing_begins_empty ((c ∷ term) ∷ ts) w = nothing_begins_empty ts (ground arith)

    search_from_lem :
        (before : Option ℕ) (cs : List ℕ)
        → search_from u (compile_stem_terms u terms) before cs ≡ some_word_begins terms before cs
    unfolding search_from some_word_begins
    search_from_lem before [] =
        found_at before []
        ∙ ap (λ b. not (is_word_before u before) && b) (nothing_begins_empty terms words)
        ∙ ground arith
    search_from_lem before (c ∷ cs) =
        ap (λ b. b || search_from u (compile_stem_terms u terms) (some c) cs)
          (found_at before (c ∷ cs))
        ∙ ap (λ b. (not (is_word_before u before) && begins (c ∷ cs)) || b)
            (search_from_lem (some c) cs)

    -- For at least one term, where the terms are single words, not empty and of letters and digits, the
    -- search of the compiled pattern, with its boundaries and inflection suffixes, finds a text
    -- exactly when some word of the text begins with a term.
    pub search_words :
        (cs : List ℕ)
        → search u (compile_stem_terms u (first ∷ others)) cs
          ≡ some_word_begins (first ∷ others) none cs
    unfolding search
    search_words cs = search_from_lem none cs
