-- ===== src/Database/Columns.antt =====
-- The columns of the tables. A UUID or a Telegram identifier is only ever compared for equality, so a
-- number stands for it; a point in time and a span are in microseconds, the resolution of PostgreSQL.
use telegram_lead_assistent.Prelude.{ℕ, ◌*◌, ◌==◌, ◌&&◌, Bool, String}

abbrev pub Uuid : Type 0
Uuid = ℕ

abbrev pub TelegramId : Type 0
TelegramId = ℕ

abbrev pub Timestamp : Type 0
Timestamp = ℕ

abbrev pub Timedelta : Type 0
Timedelta = ℕ

-- `timedelta(seconds=n)` and `timedelta(minutes=n)`
abbrev pub seconds : ℕ → Timedelta
seconds n = n * 1000000

abbrev pub minutes : ℕ → Timedelta
minutes n = seconds (n * 60)

-- A date of the calendar.
pub record Date : Type 0 where
  pub year : ℕ
  pub month : ℕ
  pub day : ℕ

abbrev pub same_date : Date → Date → Bool
same_date a b = a.year == b.year && (a.month == b.month && a.day == b.day)

-- A value of a JSONB column.
mutual
  pub data Json : Type 0 where
    null : Json
    boolean : Bool → Json
    number : ℕ → Json
    text : String → Json
    array : JsonItems → Json
    object : JsonFields → Json

  pub data JsonItems : Type 0 where
    nil : JsonItems
    cons : Json → JsonItems → JsonItems

  pub data JsonFields : Type 0 where
    end : JsonFields
    field : String → Json → JsonFields → JsonFields
