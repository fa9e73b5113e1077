-- ===== src/Listener/Events/Stems/Matching.antt =====
-- What the matcher of the stems finds between two boundaries.
use telegram_lead_assistent.Prelude.{
  ℕ, ◌==◌, ◌≡◌, refl, ap, ◌∙◌, Bool, true, false, ◌&&◌, ◌||◌, Option, some, List, [], ◌∷◌, ◌++◌,
  arith, inl, inr, Bool-cases, any_where,
}
use telegram_lead_assistent.Listener.Events.Characters.{Unicode}
use telegram_lead_assistent.Listener.Events.Stems.{
  Pattern, empty, word_star, literal, sequence, boundary, Position, at_boundary, star_rests,
  literal_rests, flat_map, rests, is_some_rest,
}

pub any_where-append :
    (p : Position → Bool) (xs ys : List Position)
    → any_where p (xs ++ ys) ≡ (any_where p xs || any_where p ys)
unfolding any_where
any_where-append p [] ys = refl
any_where-append p (x ∷ xs) ys = ground (arith, any_where-append p xs ys)

-- A test of the only element.
test_of_one : (p : Position → Bool) (x : Position) → any_where p (x ∷ []) ≡ p x
unfolding any_where
test_of_one p x = ground arith

same_test : (p : Position → Bool) → (λ x. any_where p (x ∷ [])) ≡ p
same_test p = λ i x. test_of_one p x i

module _ (u : Unicode) where
  any_where-flat_map :
      (p : Position → Bool) (f : Position → List Position) (xs : List Position)
      → any_where p (flat_map u f xs) ≡ any_where (λ x. any_where p (f x)) xs
  unfolding flat_map any_where
  any_where-flat_map p f [] = refl
  any_where-flat_map p f (x ∷ xs) =
      any_where-append p (f x) (flat_map u f xs)
      ∙ ap (λ b. any_where p (f x) || b) (any_where-flat_map p f xs)

  -- Behind a word character, the longest repetition of `\w` ends at a boundary.
  star_reaches_boundary :
      (c : ℕ) (cs : List ℕ)
      → u.is_word c ≡ true
      → any_where (at_boundary u) (star_rests u u.is_word (some c) cs) ≡ true
  unfolding star_rests any_where
  star_reaches_boundary c [] w = ground arith
  star_reaches_boundary c (d ∷ ds) w = elim (Bool-cases (u.is_word d)) [
    | inl e ↦ ground (arith, star_reaches_boundary d ds e)
    | inr e ↦ ground arith
  ]

  pub star_then_nothing :
      (c : ℕ) (cs : List ℕ)
      → u.is_word c ≡ true
      → any_where (at_boundary u) (rests u (sequence word_star empty) (some c, cs)) ≡ true
  unfolding rests
  star_then_nothing c cs w =
      any_where-flat_map (at_boundary u) (rests u empty) (star_rests u u.is_word (some c) cs)
      ∙ ap (λ f. any_where f (star_rests u u.is_word (some c) cs)) (same_test (at_boundary u))
      ∙ star_reaches_boundary c cs w

  pub literal_step :
      (c : ℕ) (q : Pattern) (before : Option ℕ) (d : ℕ) (ds : List ℕ)
      → any_where (at_boundary u) (rests u (sequence (literal c) q) (before, d ∷ ds))
        ≡ (d == c && any_where (at_boundary u) (rests u q (some d, ds)))
  unfolding rests literal_rests
  literal_step c q before d ds =
      any_where-flat_map (at_boundary u) (rests u q) (literal_rests u c (d ∷ ds)) ∙ rest
    where
      rest :
          any_where (λ x. any_where (at_boundary u) (rests u q x)) (literal_rests u c (d ∷ ds))
          ≡ (d == c && any_where (at_boundary u) (rests u q (some d, ds)))
      rest = elim (Bool-cases (d == c)) [
        | inl e ↦ rw e (unfold any_where in ground arith)
        | inr e ↦ rw e (unfold any_where in refl)
      ]

  pub literal_step_end :
      (c : ℕ) (q : Pattern) (before : Option ℕ)
      → any_where (at_boundary u) (rests u (sequence (literal c) q) (before, [])) ≡ false
  unfolding rests literal_rests flat_map any_where
  literal_step_end c q before = refl

  is_some_rest-any : (xs : List Position) → is_some_rest u xs ≡ any_where (λ x. true) xs
  unfolding any_where
  is_some_rest-any [] = refl
  is_some_rest-any (x ∷ xs) = refl

  boundary_rests : (x : Position) → any_where (λ y. true) (rests u boundary x) ≡ at_boundary u x
  unfolding rests
  boundary_rests x = elim (Bool-cases (at_boundary u x)) [
    | inl e ↦ rw e (unfold any_where in refl)
    | inr e ↦ rw e (unfold any_where in refl)
  ]

  at_once :
      (q : Position → Bool) (at : Position)
      → any_where q (rests u boundary at) ≡ (at_boundary u at && q at)
  unfolding rests
  at_once q at = elim (Bool-cases (at_boundary u at)) [
    | inl e ↦ rw e (unfold any_where in ground arith)
    | inr e ↦ rw e (unfold any_where in refl)
  ]

  -- A pattern matches at a position when it is at a boundary and some match ends at one.
  pub between_boundaries :
      (p : Pattern) (at : Position)
      → is_some_rest u (rests u (sequence boundary (sequence p boundary)) at)
        ≡ (at_boundary u at && any_where (at_boundary u) (rests u p at))
  between_boundaries p at =
      is_some_rest-any (rests u (sequence boundary (sequence p boundary)) at)
      ∙ outer
      ∙ at_once (λ x. any_where (at_boundary u) (rests u p x)) at
    where
      inner :
          (x : Position)
          → any_where (λ y. true) (rests u (sequence p boundary) x)
            ≡ any_where (at_boundary u) (rests u p x)
      inner x =
          unfold rests in
          any_where-flat_map (λ y. true) (rests u boundary) (rests u p x)
          ∙ ap (λ f. any_where f (rests u p x)) (λ i y. boundary_rests y i)

      outer :
          any_where (λ y. true) (rests u (sequence boundary (sequence p boundary)) at)
          ≡ any_where (λ x. any_where (at_boundary u) (rests u p x)) (rests u boundary at)
      outer =
          unfold rests in
          any_where-flat_map (λ y. true) (rests u (sequence p boundary)) (rests u boundary at)
          ∙ ap (λ f. any_where f (rests u boundary at)) (λ i x. inner x i)
