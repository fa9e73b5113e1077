-- ===== src/Database/Drafts/Flow.antt =====
-- The operator's draft flow as calls of the draft repository.
use telegram_lead_assistent.Prelude.{
  ◌≡◌, refl, ◌⊎◌, inl, inr, sym, subst, ◌∙◌, String, Result, ok, ◌>>=◌, >>=-eq-ok, ok-injective,
}
use telegram_lead_assistent.Domain.{Exception}
use telegram_lead_assistent.Database.Models.{Uuid, Timestamp, Database}
use telegram_lead_assistent.Database.Drafts.{open_draft, create_version, reopen_for_edit, cancel}
use telegram_lead_assistent.Database.Drafts.Composition.{
  DraftKind, opening, writing, reopening, cancelling, MovesOnly, IsCancelled, open_draft-MovesOnly,
  create_version-MovesOnly, reopen_for_edit-MovesOnly, cancel-MovesOnly,
}

pub data DraftCall : Type 0 where
  opens reopens cancels : DraftCall
  writes : (fresh : Uuid) (now : Timestamp) (text : String) → DraftCall

-- A call, and the database that its transaction commits.
unfoldable pub call_draft : DraftCall → Uuid → Database → Result Exception Database
call_draft opens question_id db = do (shown, db') ← open_draft question_id db; ok db'
call_draft reopens question_id db = reopen_for_edit question_id db
call_draft cancels question_id db = do (done, db') ← cancel question_id db; ok db'
call_draft (writes fresh now text) question_id db = do
  (stored, db') ← create_version fresh now question_id text db
  ok db'

abbrev pub kind_of : DraftCall → DraftKind
kind_of opens = opening
kind_of reopens = reopening
kind_of cancels = cancelling
kind_of (writes fresh now text) = writing

-- A draft call that succeeds takes its question along one of the moves of its kind of call and leaves
-- every other question as it was; only the cancellation of a question that is cancelled already
-- succeeds otherwise, and changes nothing.
pub call_draft-MovesOnly :
    (call : DraftCall) (question_id : Uuid) (db db' : Database)
    → call_draft call question_id db ≡ ok db'
    → MovesOnly (kind_of call) question_id db db'
      ⊎ ((call ≡ cancels) × IsCancelled question_id db × (db' ≡ db))
unfolding call_draft
call_draft-MovesOnly opens question_id db db' h =
    let ((shown, after), e, same) = >>=-eq-ok (open_draft question_id db) _ h in
    inl (
      subst (MovesOnly opening question_id db) (ok-injective same)
        (open_draft-MovesOnly question_id db after shown e))
call_draft-MovesOnly reopens question_id db db' h =
    inl (reopen_for_edit-MovesOnly question_id db db' h)
call_draft-MovesOnly cancels question_id db db' h =
    let ((done, after), e, same) = >>=-eq-ok (cancel question_id db) _ h in
    elim (cancel-MovesOnly question_id db after done e) [
      | inl (_, was, unchanged) ↦ inr (refl, was, sym (ok-injective same) ∙ unchanged)
      | inr (_, moved) ↦ inl (subst (MovesOnly cancelling question_id db) (ok-injective same) moved)
    ]
call_draft-MovesOnly (writes fresh now text) question_id db db' h =
    let ((stored, after), e, same) = >>=-eq-ok (create_version fresh now question_id text db) _ h in
    inl (
      subst (MovesOnly writing question_id db) (ok-injective same)
        (create_version-MovesOnly fresh now question_id text db after stored e))
