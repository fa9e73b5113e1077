-- ===== src/Listener/Events/Fingerprint.antt =====
-- app/listener/events/fingerprint.py: the fingerprint of a text, and the URLs that the prefilter shares
-- with it. `sha256` is the hexadecimal digest of the encoded text, a parameter.
use telegram_lead_assistent.Prelude.{
  ℕ, ◌==◌, Bool, true, false, not, ◌&&◌, ◌||◌, if◌then◌else◌, List, [], ◌∷◌, String, map,
  delete_where,
}
use telegram_lead_assistent.Listener.Events.Characters.{Unicode, codes, is_one_of, normalize_spaces}

module _ (u : Unicode) where
  -- A literal text of a pattern with `re.IGNORECASE`, at the start of the text.
  unfoldable pub starts_like : List ℕ → List ℕ → Bool
  starts_like [] cs = true
  starts_like (p ∷ ps) [] = false
  starts_like (p ∷ ps) (c ∷ cs) = u.same_letter p c && starts_like ps cs

  unfoldable pub drop : List ℕ → List ℕ → List ℕ
  drop [] cs = cs
  drop (p ∷ ps) [] = []
  drop (p ∷ ps) (c ∷ cs) = drop ps cs

  abbrev pub is_visible_next : List ℕ → Bool
  is_visible_next [] = false
  is_visible_next (c ∷ cs) = not (u.is_space c)

  abbrev pub matches_scheme : List ℕ → List ℕ → Bool
  matches_scheme scheme cs = starts_like scheme cs && is_visible_next (drop scheme cs)

  -- `URL_PATTERN`, at the start of the text: a match takes all characters up to white space.
  unfoldable pub starts_url : List ℕ → Bool
  unfolding starts_like drop
  starts_url cs = matches_scheme (codes "https://") cs || matches_scheme (codes "http://") cs

  -- `URL_PATTERN.sub("", text)`; `inside` says that the characters belong to a match.
  unfoldable pub remove_urls : (inside : Bool) → List ℕ → List ℕ
  unfolding starts_url
  remove_urls inside [] = []
  remove_urls inside (c ∷ cs) =
      let matched = not (u.is_space c) && (inside || starts_url (c ∷ cs)) in
      let rest = remove_urls matched cs in if matched then rest else c ∷ rest

  unfoldable pub has_url : List ℕ → Bool
  unfolding starts_url
  has_url [] = false
  has_url (c ∷ cs) = starts_url (c ∷ cs) || has_url cs

  abbrev is_word_next : List ℕ → Bool
  is_word_next [] = false
  is_word_next (c ∷ cs) = u.is_word c

  -- `_MENTION.sub("", text)`
  unfoldable pub remove_mentions : (inside : Bool) → List ℕ → List ℕ
  remove_mentions inside [] = []
  remove_mentions inside (c ∷ cs) =
      let matched = (inside && u.is_word c) || (c == 64 && is_word_next cs) in
      let rest = remove_mentions matched cs in if matched then rest else c ∷ rest

  -- U+200D and U+FE0F
  abbrev pub removed_codepoints : List ℕ
  removed_codepoints = 8205 ∷ (65039 ∷ [])

  abbrev pub is_removed : ℕ → Bool
  is_removed c = u.is_symbol_or_mark c || is_one_of removed_codepoints c

  abbrev pub alnum_or_blank : ℕ → ℕ
  alnum_or_blank c = if u.is_alnum c then c else 32

  -- What the fingerprint is the digest of.
  unfoldable pub normalized_content : List ℕ → List ℕ
  unfolding remove_urls remove_mentions
  normalized_content text =
      let visible = delete_where is_removed (remove_urls false (u.casefold text)) in
      normalize_spaces u.is_space (map alnum_or_blank (remove_mentions false visible))

  unfoldable pub message_fingerprint : (List ℕ → String) → List ℕ → String
  unfolding normalized_content
  message_fingerprint sha256 text = sha256 (normalized_content text)
