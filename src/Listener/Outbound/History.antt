-- ===== src/Listener/Outbound/History.antt =====
-- What an iteration of the send worker leaves of the commands that are settled or sends.
use telegram_lead_assistent.Prelude.{
  ◌≡◌, ◌≢◌, refl, sym, ap, subst, ◌∙◌, Bool, true, Option, none, some, String, arith, inl, inr, ◌∈◌,
  put_row_sound,
}
use telegram_lead_assistent.Domain.{is_send}
use telegram_lead_assistent.Database.Models.{Uuid, Timestamp, OutboundCommand, Database}
use telegram_lead_assistent.Database.Commands.{save_command, claim_send}
use telegram_lead_assistent.Database.Commands.Claim.{
  IsSettled, claim-IsSettled, claim_command-some, claim_command_lem,
}
use telegram_lead_assistent.Database.Commands.Recovery.{IsSend}
use telegram_lead_assistent.Listener.Outbound.{
  MtprotoOutboundClient, ClientCall, Run, committed, run_send_once,
}
use telegram_lead_assistent.Listener.Outbound.Sending.{run_send_once_lem}
use telegram_lead_assistent.Listener.Outbound.Stores.{
  Stores-IsSettled, Stores-IsSend, save_command-Stores, send_claimed-Stores,
}

pub record Iteration : Type 0 where
  pub client : MtprotoOutboundClient
  pub now : Timestamp
  pub held : Uuid → Bool
  pub worker_id : String

abbrev pub run_of : Iteration → Database → Run
run_of i db = run_send_once i.client i.now i.held i.worker_id db

claimed_db-IsSettled :
    (id : Uuid) (now : Timestamp) (held : Uuid → Bool) (worker_id : String) (db db' : Database)
    (taken : OutboundCommand)
    → IsSettled id db
    → claim_send now held worker_id db ≡ (some taken, db')
    → IsSettled id db'
unfolding claim_send save_command
claimed_db-IsSettled id now held worker_id db db' taken settled h =
    let (command, first, t, d) = claim_command-some is_send now held worker_id db db' taken h in
    Stores-IsSettled id taken db db' (taken, refl, refl, ap (λ x. x.outbound_commands) d)
      (claim-IsSettled id is_send now held worker_id db db' taken settled h) settled

idle_db :
    (now : Timestamp) (held : Uuid → Bool) (worker_id : String) (db : Database)
    → (claim_send now held worker_id db).0 ≡ none
    → (claim_send now held worker_id db).1 ≡ db
unfolding claim_send
idle_db now held worker_id db h = elim (claim_command_lem is_send now held worker_id db) [
  | inl (command, first, e) ↦ absurd (ground arith)
  | inr (e, empty) ↦ ap (λ r. r.1) e
]

-- An iteration keeps a settled command settled.
pub run_of-IsSettled :
    (id : Uuid) (i : Iteration) (db : Database)
    → IsSettled id db
    → IsSettled id (committed db (run_of i db))
unfolding run_send_once claim_send
run_of-IsSettled id i db settled =
    let claim = claim_send i.now i.held i.worker_id db in
    elim (send_claimed-Stores i.client i.now db claim.0 claim.1) [
      | inl same ↦ subst (λ x. IsSettled id x) (sym same) settled
      | inr (inl (idle, same)) ↦
          subst (λ x. IsSettled id x) (sym (same ∙ idle_db i.now i.held i.worker_id db idle))
            settled
      | inr (inr (command, taken, stores)) ↦
          let h : claim ≡ (some command, claim.1) =
            ap (λ (o : Option OutboundCommand). (o, claim.1)) taken in
          Stores-IsSettled id command claim.1 (committed db (run_of i db)) stores
            (claim-IsSettled id is_send i.now i.held i.worker_id db claim.1 command settled h)
            (claimed_db-IsSettled id i.now i.held i.worker_id db claim.1 command settled h)
    ]

-- An iteration makes no call for a settled command.
pub call-IsSettled :
    (id : Uuid) (i : Iteration) (db : Database)
    → IsSettled id db
    → (call : ClientCall) → call ∈ (run_of i db).calls
    → call.command_id ≢ id
unfolding claim_send
call-IsSettled id i db settled call m =
    elim (run_send_once_lem i.client i.now i.held i.worker_id db) [
      | inl silent ↦ absurd (subst (λ calls. call ∈ calls) silent m)
      | inr (command, claimed_db, sent) ↦
          let apart =
            claim-IsSettled id is_send i.now i.held i.worker_id db claimed_db command settled
              sent.taken in
          elim (subst (λ (run : Run). call ∈ run.calls) sent.run m) [
            | inl e ↦ λ h. apart (ground arith)
            | inr nowhere ↦ absurd nowhere
          ]
    ]

-- A claim for sending returns a send, so that what an iteration stores is one.
pub claim_send-is_send :
    (now : Timestamp) (held : Uuid → Bool) (worker_id : String) (db db' : Database)
    (taken : OutboundCommand)
    → claim_send now held worker_id db ≡ (some taken, db')
    → (is_send taken.command_type ≡ true) × (db' ≡ save_command taken db)
unfolding claim_send
claim_send-is_send now held worker_id db db' taken h =
    let (command, first, t, d) = claim_command-some is_send now held worker_id db db' taken h in
    (ground (arith, first.meets), d)

-- The rows of a command that was claimed for sending are sends, and stay so in its iteration.
pub claimed-IsSend :
    (now : Timestamp) (held : Uuid → Bool) (worker_id : String) (db db' : Database)
    (taken : OutboundCommand)
    → claim_send now held worker_id db ≡ (some taken, db')
    → IsSend taken.id db'
unfolding save_command
claimed-IsSend now held worker_id db db' taken h row m p =
    let (a_send, d) = claim_send-is_send now held worker_id db db' taken h in
    elim (put_row_sound (λ r. r.id) taken db.outbound_commands row
      (subst (λ x. row ∈ x.outbound_commands) d m)) [
        | inl it ↦ ap (λ (r : OutboundCommand). is_send r.command_type) it ∙ a_send
        | inr (i, apart) ↦ absurd (apart p)
      ]

-- An iteration stores sends only.
pub run_of-IsSend :
    (id : Uuid) (i : Iteration) (db : Database)
    → IsSend id db
    → IsSend id (committed db (run_of i db))
unfolding run_send_once
run_of-IsSend id i db sends =
    let claim = claim_send i.now i.held i.worker_id db in
    elim (send_claimed-Stores i.client i.now db claim.0 claim.1) [
      | inl same ↦ subst (λ x. IsSend id x) (sym same) sends
      | inr (inl (idle, same)) ↦
          subst (λ x. IsSend id x) (sym (same ∙ idle_db i.now i.held i.worker_id db idle)) sends
      | inr (inr (command, taken, stores)) ↦
          let h : claim ≡ (some command, claim.1) =
            ap (λ (o : Option OutboundCommand). (o, claim.1)) taken in
          let (a_send, d) = claim_send-is_send i.now i.held i.worker_id db claim.1 command h in
          let claimed_sends = subst (IsSend id) (sym d) (
            Stores-IsSend id command db (save_command command db) (save_command-Stores command db)
              a_send sends) in
          Stores-IsSend id command claim.1 (committed db (run_of i db)) stores a_send claimed_sends
    ]
