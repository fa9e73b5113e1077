-- ===== src/Bot/Notifications/Bounds.antt =====
-- The length of the messages of a notification.
use telegram_lead_assistent.Prelude.{
  ℕ, ◌+◌, ◌*◌, ◌≤◌, ◌≡◌, ltb, List, [], ◌∷◌, ◌++◌, arith, length, inl, inr, Bool-cases,
}
use telegram_lead_assistent.Listener.Events.Characters.{codes}
use telegram_lead_assistent.Bot.Notifications.{
  telegram_message_limit, escape_character, escape, split_from, split_escaped_text, block_prefix,
  block_suffix, wrap_chunks, pack_from,
}

pub length-append : (xs ys : List ℕ) → length (xs ++ ys) ≡ length xs + length ys
length-append [] ys = omega arith
length-append (x ∷ xs) ys = ground (arith, length-append xs ys)

-- Every text of the list has at most `limit` characters.
abbrev pub AllFit : ℕ → List (List ℕ) → Type 0
AllFit limit [] = Unit
AllFit limit (text ∷ texts) = (length text ≤ limit) × AllFit limit texts

pub AllFit-append :
    (limit : ℕ) (xs ys : List (List ℕ))
    → AllFit limit xs
    → AllFit limit ys
    → AllFit limit (xs ++ ys)
AllFit-append limit [] ys a b = b
AllFit-append limit (x ∷ xs) ys a b = (a.0, AllFit-append limit xs ys a.1 b)

length-escape_character : (c : ℕ) → length (escape_character c) ≤ 6
unfolding escape_character
length-escape_character c = ground arith

pub length-escape : (cs : List ℕ) → length (escape cs) ≤ 6 * length cs
unfolding escape
length-escape [] = omega arith
length-escape (c ∷ cs) = ground (
  arith,
  length-append (escape_character c) (escape cs),
  length-escape_character c,
  length-escape cs,
)

split_from-AllFit :
    (limit : ℕ) (current cs : List ℕ)
    → 6 ≤ limit
    → length current ≤ limit
    → AllFit limit (split_from limit current cs)
unfolding split_from
split_from-AllFit limit [] [] room fits = tt
split_from-AllFit limit (d ∷ ds) [] room fits = (fits, tt)
split_from-AllFit limit [] (c ∷ cs) room fits =
    split_from-AllFit limit (escape_character c) cs room (ground (arith, length-escape_character c))
split_from-AllFit limit (d ∷ ds) (c ∷ cs) room fits =
    elim (Bool-cases (ltb limit (length (d ∷ ds) + length (escape_character c)))) [
      | inl e ↦ rw e (
        fits,
        split_from-AllFit limit (escape_character c) cs room
            (ground (arith, length-escape_character c)),
      )
      | inr e ↦ rw e (
          split_from-AllFit limit (d ∷ (ds ++ escape_character c)) cs room
            (ground (arith, length-append ds (escape_character c))))
    ]

pub split_escaped_text-AllFit :
    (text : List ℕ) (limit : ℕ) → 6 ≤ limit → AllFit limit (split_escaped_text text limit)
unfolding split_escaped_text
split_escaped_text-AllFit [] limit room = (omega arith, tt)
split_escaped_text-AllFit (c ∷ cs) limit room =
    split_from-AllFit limit [] (c ∷ cs) room (omega arith)

pub wrap_chunks-AllFit :
    (label : List ℕ) (limit : ℕ) (chunks : List (List ℕ))
    → AllFit limit chunks
    → AllFit (length (block_prefix label) + limit + length block_suffix) (wrap_chunks label chunks)
unfolding wrap_chunks
wrap_chunks-AllFit label limit [] a = tt
wrap_chunks-AllFit label limit (chunk ∷ chunks) a = (
  ground (
    arith,
    length-append (block_prefix label) (chunk ++ block_suffix),
    length-append chunk block_suffix,
    a.0,
  ),
  wrap_chunks-AllFit label limit chunks a.1,
)

pub pack_from-AllFit :
    (current : List ℕ) (blocks : List (List ℕ))
    → length current ≤ telegram_message_limit
    → AllFit telegram_message_limit blocks
    → AllFit telegram_message_limit (pack_from current blocks)
unfolding pack_from
pack_from-AllFit [] [] fits a = tt
pack_from-AllFit (d ∷ ds) [] fits a = (fits, tt)
pack_from-AllFit [] (block ∷ blocks) fits a = pack_from-AllFit block blocks a.0 a.1
pack_from-AllFit (d ∷ ds) (block ∷ blocks) fits a =
    elim (Bool-cases
      (ltb telegram_message_limit (length (d ∷ ds) + length (codes "\n\n") + length block))) [
        | inl e ↦ rw e (fits, pack_from-AllFit block blocks a.0 a.1)
        | inr e ↦ rw e (
            pack_from-AllFit (d ∷ (ds ++ (codes "\n\n" ++ block))) blocks
              (ground (arith, length-append ds (codes "\n\n" ++ block))) a.1)
      ]

pub AllFit-weaken :
    (low high : ℕ) (texts : List (List ℕ)) → low ≤ high → AllFit low texts → AllFit high texts
AllFit-weaken low high [] le a = tt
AllFit-weaken low high (x ∷ xs) le a = (ground (arith, a.0), AllFit-weaken low high xs le a.1)
