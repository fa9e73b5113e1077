-- ===== src/Listener/Events/Characters.antt =====
-- The operations on texts that the events use: a text is the list of its code points. The tables of
-- Unicode are a parameter: what `\w`, `\s`, `str.isalnum`, `str.casefold`, `unicodedata.category` and
-- `re.IGNORECASE` say of a character.
use Prim.Native.Char.{code}
use telegram_lead_assistent.Prelude.{
  ℕ, ◌==◌, Bool, true, false, not, ◌&&◌, ◌||◌, if◌then◌else◌, List, [], ◌∷◌, String, any_where,
}

pub record Unicode : Type 0 where
  pub is_word : ℕ → Bool
  pub is_space : ℕ → Bool
  pub is_alnum : ℕ → Bool
  -- Its category is one of So, Sk and Mn.
  pub is_symbol_or_mark : ℕ → Bool
  pub casefold : List ℕ → List ℕ
  pub same_letter : ℕ → ℕ → Bool

abbrev pub codes : String → List ℕ
codes String.[] = []
codes (String.◌∷◌ c s) = code c ∷ codes s

-- `==` of two texts.
unfoldable pub same_text : List ℕ → List ℕ → Bool
same_text [] [] = true
same_text (c ∷ cs) (d ∷ ds) = c == d && same_text cs ds
same_text _ _ = false

abbrev pub is_one_of : List ℕ → ℕ → Bool
is_one_of cs c = any_where (λ d. c == d) cs

-- `lstrip`, of the characters that pass the test.
unfoldable pub strip_left : (ℕ → Bool) → List ℕ → List ℕ
strip_left p [] = []
strip_left p (c ∷ cs) = let rest = strip_left p cs in if p c then rest else c ∷ cs

-- `rstrip`
unfoldable pub strip_right : (ℕ → Bool) → List ℕ → List ℕ
strip_right p [] = []
strip_right p (c ∷ cs) = elim (strip_right p cs) [
  | [] ↦ if p c then [] else c ∷ []
  | d ∷ ds ↦ c ∷ d ∷ ds
]

abbrev pub strip : (ℕ → Bool) → List ℕ → List ℕ
strip p cs = strip_right p (strip_left p cs)

-- `" ".join(text.split())`: each run of white space becomes one blank, none at the ends. `pending` says
-- that a word was read and white space after it.
unfoldable pub join_words : (ℕ → Bool) → (started pending : Bool) → List ℕ → List ℕ
join_words is_space started pending [] = []
join_words is_space started pending (c ∷ cs) =
    let space = is_space c in
    let rest = join_words is_space (started || not space) (started && space) cs in
    if space then rest else if pending then 32 ∷ (c ∷ rest) else c ∷ rest

abbrev pub normalize_spaces : (ℕ → Bool) → List ℕ → List ℕ
normalize_spaces is_space cs = join_words is_space false false cs
