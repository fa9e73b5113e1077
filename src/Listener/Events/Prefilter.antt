-- ===== src/Listener/Events/Prefilter.antt =====
-- app/listener/events/prefilter.py: which messages go to the classifier.
use telegram_lead_assistent.Prelude.{
  ℕ, ◌==◌, leb, Bool, true, false, not, ◌&&◌, ◌||◌, if◌then◌else◌, Option, none, some, List, [],
  ◌∷◌, map, String, any_where,
}
use telegram_lead_assistent.Listener.Events.Incoming.{IncomingMessage}
use telegram_lead_assistent.Listener.Events.Characters.{
  Unicode, codes, same_text, is_one_of, strip, normalize_spaces,
}
use telegram_lead_assistent.Listener.Events.Stems.{search, compile_stem_terms}
use telegram_lead_assistent.Listener.Events.Terms.{
  dev_noun_terms, need_token_terms, who_token_terms, build_verb_terms, weak_need_terms,
  deliverable_terms, stack_token_terms, order_pay_terms, exclusion_terms, known_greeting_phrases,
  known_thanks_phrases,
}
use telegram_lead_assistent.Listener.Events.Fingerprint.{remove_urls, has_url, is_removed}

pub data FilterReasonCode : Type 0 where
  no_text own_message service_message sticker_without_caption only_emoji bot_command only_url
        known_greeting known_thanks no_hiring_intent no_stack_fit pass_to_classifier :
      FilterReasonCode

pub record FilterResult : Type 0 where
  pub should_classify : Bool
  pub reason_code : FilterReasonCode

-- `_reject`
abbrev pub reject : FilterReasonCode → FilterResult
reject reason_code = record { should_classify = false; reason_code = reason_code }

abbrev pub is_between : ℕ → ℕ → ℕ → Bool
is_between low high c = leb low c && leb c high

-- `[A-Za-z0-9_]`
abbrev pub is_command_character : ℕ → Bool
is_command_character c =
    is_between 65 90 c || (is_between 97 122 c || (is_between 48 57 c || c == 95))

-- `_BOT_COMMAND`, from the state of the match: whether it may end here, and
-- whether `@` may come.
unfoldable pub is_command_rest : (may_end may_mention : Bool) → List ℕ → Bool
is_command_rest may_end may_mention [] = may_end
is_command_rest may_end may_mention (c ∷ cs) =
    let valid = is_command_character c in
    let rest = is_command_rest valid (may_mention && valid) cs in
    (valid || (c == 64 && (may_end && may_mention))) && rest

unfoldable pub is_bot_command : List ℕ → Bool
unfolding is_command_rest
is_bot_command [] = false
is_bot_command (c ∷ cs) = c == 47 && is_command_rest false true cs

-- `text in known`
abbrev pub is_known : List String → List ℕ → Bool
is_known known text = any_where (λ phrase. same_text (codes phrase) text) known

-- ` !.,?:;—–-…`
abbrev pub edge_punctuation : List ℕ
edge_punctuation = codes " !.,?:;—–-…"

module _ (u : Unicode) where
  -- `_is_only_emoji`
  unfoldable pub is_only_emoji : List ℕ → Bool
  is_only_emoji [] = true
  is_only_emoji (c ∷ cs) = (u.is_space c || is_removed u c) && is_only_emoji cs

  -- `_is_only_urls`
  unfoldable pub is_only_urls : List ℕ → Bool
  unfolding has_url remove_urls
  is_only_urls text =
      has_url u text
      && same_text (strip (is_one_of (codes " \t\r\n,;")) (remove_urls u false text)) []

  abbrev pub finds : List String → List ℕ → Bool
  finds terms text = search u (compile_stem_terms u (map codes terms)) text

  -- `has_hiring_intent`, of the casefolded text.
  unfoldable pub has_hiring_intent : List ℕ → Bool
  unfolding search compile_stem_terms
  has_hiring_intent text =
      (finds need_token_terms text && finds dev_noun_terms text)
      || ((finds who_token_terms text && finds build_verb_terms text)
          || ((finds weak_need_terms text
                && (finds build_verb_terms text && finds deliverable_terms text))
              || finds order_pay_terms text))

  unfoldable pub has_stack_fit : List ℕ → Bool
  unfolding search compile_stem_terms
  has_stack_fit text = finds stack_token_terms text

  unfoldable pub is_excluded : List ℕ → Bool
  unfolding search compile_stem_terms
  is_excluded text = finds exclusion_terms text

  -- The last part of `prefilter_message`, on the casefolded text.
  unfoldable pub judge_intent : List ℕ → FilterResult
  judge_intent text =
      if is_excluded text
      then reject no_hiring_intent
      else if not (has_hiring_intent text)
      then reject no_hiring_intent
      else if not (has_stack_fit text)
      then reject no_stack_fit
      else record { should_classify = true; reason_code = pass_to_classifier }

  -- `normalized`
  abbrev pub normalized : List ℕ → List ℕ
  normalized text =
      normalize_spaces u.is_space (strip (is_one_of edge_punctuation) (u.casefold text))

  -- The part of `prefilter_message` for a text that is not empty.
  unfoldable pub judge_text : List ℕ → FilterResult
  unfolding judge_intent is_only_emoji is_only_urls is_bot_command
  judge_text text =
      if is_only_emoji text
      then reject only_emoji
      else if is_bot_command text
      then reject bot_command
      else if is_only_urls text
      then reject only_url
      else if is_known known_greeting_phrases (normalized text)
      then reject known_greeting
      else if is_known known_thanks_phrases (normalized text)
      then reject known_thanks
      else judge_intent (u.casefold text)

  -- `message.text.strip() if message.text is not None else ""`
  abbrev pub stripped : Option String → List ℕ
  stripped none = []
  stripped (some text) = strip u.is_space (codes text)

  abbrev without_text : Bool → FilterResult
  without_text true = reject sticker_without_caption
  without_text false = reject no_text

  unfoldable pub prefilter_message : IncomingMessage → FilterResult
  unfolding judge_text
  prefilter_message message =
      if message.is_own
      then reject own_message
      else if message.is_service
      then reject service_message
      else elim (stripped message.text) [
        | [] ↦ without_text message.has_sticker
        | c ∷ cs ↦ judge_text (c ∷ cs)
      ]
