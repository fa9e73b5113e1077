-- ===== src/Database/Questions/Versions.antt =====
-- The version numbers of a question.
use telegram_lead_assistent.Prelude.{
  ◌+◌, ◌≤◌, ◌≡◌, ◌⊎◌, subst, sym, refl, ==_refl, true, false, some, List, [], ◌∷◌, ◌++◌, ok, err,
  arith, Option-cases, inl, inr, ◌∈◌, any_where, select_where, mem-select_where, max_of, max_of-le,
  max_of-none, max_of-attained, select_where_sound, first_where, IsOrder, first_where-IsFirst,
  first_where-none,
}
use telegram_lead_assistent.Domain.{integrity_error}
use telegram_lead_assistent.Database.Models.{Uuid, ReplyVersion, Database}
use telegram_lead_assistent.Database.Questions.{
  of_question, newer, latest_version, latest_version_number, same_version, add_version,
}

-- No version of a question is above the latest number.
pub version-le-latest :
    (question_id : Uuid) (db : Database) (version : ReplyVersion)
    → version ∈ db.reply_versions
    → of_question question_id version ≡ true
    → version.version_number ≤ latest_version_number question_id db
unfolding latest_version_number
version-le-latest question_id db version m t =
    let rows = select_where (of_question question_id) db.reply_versions in
    let i = mem-select_where (of_question question_id) db.reply_versions version m t in
    elim (Option-cases (max_of (λ v. v.version_number) rows)) [
      | inl e ↦ absurd (max_of-none (λ v. v.version_number) rows e version i)
      | inr (k, e) ↦
          rw (e, latest_version_number) (max_of-le (λ v. v.version_number) rows version k e i)
    ]

none_same :
    (version : ReplyVersion) (versions : List ReplyVersion)
    → ((other : ReplyVersion) → other ∈ versions → same_version version other ≡ false)
    → any_where (same_version version) versions ≡ false
unfolding any_where
none_same version [] h = refl
none_same version (x ∷ xs) h =
    ground (arith, h x (inl refl), none_same version xs (λ o m. h o (inr m)))

-- A version numbered above the latest can always be added.
pub add_version_fresh :
    (version : ReplyVersion) (db : Database)
    → latest_version_number version.question_id db + 1 ≤ version.version_number
    → add_version version db ≡ ok (record db { reply_versions = db.reply_versions ++ version ∷ [] })
unfolding add_version
add_version_fresh version db h =
    rw
      (none_same version db.reply_versions
        (λ other m. ground (arith, version-le-latest version.question_id db other m)))
      refl

-- A number that is there already cannot be added again.
some_same :
    (version other : ReplyVersion) (versions : List ReplyVersion)
    → other ∈ versions
    → same_version version other ≡ true
    → any_where (same_version version) versions ≡ true
unfolding any_where
some_same version other [] m t = absurd m
some_same version other (x ∷ xs) m t = ground (arith, some_same version other xs)

pub add_version_taken :
    (version other : ReplyVersion) (db : Database)
    → other ∈ db.reply_versions
    → same_version version other ≡ true
    → add_version version db ≡ err integrity_error
unfolding add_version
add_version_taken version other db m t = rw (some_same version other db.reply_versions m t) refl

newer-IsOrder : IsOrder newer
newer-IsOrder = record { asymm = λ x y h. ground arith; trans = λ x y z h k. ground arith }

mem-append :
    (versions : List ReplyVersion) (version other : ReplyVersion)
    → other ∈ (versions ++ version ∷ [])
    → (other ∈ versions) ⊎ (other ≡ version)
mem-append [] version other m = ground arith
mem-append (x ∷ xs) version other m = ground (arith, mem-append xs version other)

pub append-mem :
    (versions : List ReplyVersion) (version : ReplyVersion) → version ∈ (versions ++ version ∷ [])
append-mem [] version = inl refl
append-mem (x ∷ xs) version = inr (append-mem xs version)

-- The version added last, numbered above the others, is the latest.
pub latest_version-append :
    (version : ReplyVersion) (db db' : Database)
    → latest_version_number version.question_id db + 1 ≤ version.version_number
    → db'.reply_versions ≡ db.reply_versions ++ version ∷ []
    → latest_version version.question_id db' ≡ some version
unfolding latest_version
latest_version-append version db db' h e =
    elim (Option-cases (first_where newer (of_question version.question_id) db'.reply_versions)) [
      | inl absent ↦ absurd (
          ground (
            arith,
            first_where-none newer (of_question version.question_id) db'.reply_versions absent
                version there,
            ==_refl version.question_id,
          ))
      | inr (got, found) ↦
          let first =
            first_where-IsFirst newer (of_question version.question_id) db'.reply_versions
              newer-IsOrder got found in
          let where_got =
            mem-append db.reply_versions version got (subst (λ rows. got ∈ rows) e first.stored) in
          ground (
            arith,
            where_got,
            first.meets,
            first.least version there (==_refl version.question_id),
            version-le-latest version.question_id db got,
          )
    ]
  where
    there : version ∈ db'.reply_versions
    there = subst (λ rows. version ∈ rows) (sym e) (append-mem db.reply_versions version)

-- If a question has a version, one of its versions has the latest number.
latest_number-attained :
    (question_id : Uuid) (db : Database) (version : ReplyVersion)
    → version ∈ db.reply_versions
    → of_question question_id version ≡ true
    → (top : ReplyVersion) × (top ∈ db.reply_versions)
      × (of_question question_id top ≡ true)
      × (top.version_number ≡ latest_version_number question_id db)
latest_number-attained question_id db version m t =
    let rows = select_where (of_question question_id) db.reply_versions in
    let i = mem-select_where (of_question question_id) db.reply_versions version m t in
    elim (Option-cases (max_of (λ v. v.version_number) rows)) [
      | inl e ↦ absurd (max_of-none (λ v. v.version_number) rows e version i)
      | inr (k, e) ↦
          let (top, j, n) = max_of-attained (λ v. v.version_number) rows k e in
          let (stored, of) = select_where_sound (of_question question_id) db.reply_versions top j in
          (top, stored, of, unfold latest_version_number in rw (e, latest_version_number) n)
    ]

-- The latest version has the latest number.
pub latest_version-number :
    (question_id : Uuid) (db : Database) (version : ReplyVersion)
    → latest_version question_id db ≡ some version
    → version.version_number ≡ latest_version_number question_id db
unfolding latest_version
latest_version-number question_id db version e =
    let first =
      first_where-IsFirst newer (of_question question_id) db.reply_versions newer-IsOrder version
        e in
    let below = version-le-latest question_id db version first.stored first.meets in
    let (top, m, t, n) = latest_number-attained question_id db version first.stored first.meets in
    ground (arith, first.least top m t)
