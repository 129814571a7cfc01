-- ===== src/Audit.antt =====
-- The queue of backend/internal/audit/audit.go: Record, the background writer and Close, as steps
-- that any goroutines take in any order. The database answers as it likes: an error of
-- InsertAuditEvent is only logged.
pub mod Order
mod Tests
use gateway_llm.Prelude.{
  ℕ, Bool, true, false, not, Option, none, some, List, [], ◌∷◌, ◌++◌, length, ltb, if◌then◌else◌,
  ◌≡◌,
}

-- Logger: whether there is a database, the buffer of the channel and whether it is closed, and the
-- event that the writer has received and not yet inserted.
pub record Logger (E : Type 0) : Type 0 where
  pub has_db : Bool
  pub ch : List E
  pub closed : Bool
  pub writing : Option E

-- The size of the buffer
abbrev pub buffer_size : ℕ
buffer_size = 1024

-- What Record does: nothing, without a database; it sends; it drops the event; it panics.
pub data Recorded (E : Type 0) : Type 0 where
  ignored : Recorded E
  sent : Logger E → Recorded E
  full : Recorded E
  panics : Recorded E

module _ {E : Type 0} where
  -- New
  unfoldable pub new : Bool → Logger E
  new has_db = record { has_db = has_db; ch = []; closed = false; writing = none }

  -- Record
  unfoldable pub record_event : E → Logger E → Recorded E
  record_event ev l =
      if not l.has_db
      then ignored
      else (if l.closed
          then panics
          else (if ltb (length l.ch) buffer_size
              then sent (record l { ch = l.ch ++ ev ∷ [] })
              else full))

  unfoldable pub receive_from : Option E → List E → Logger E → Option (Logger E)
  receive_from (some busy) ch l = none
  receive_from none [] l = none
  receive_from none (ev ∷ ch) l = some (record l { ch = ch; writing = some ev })

  -- The writer's receive, where it waits and there is an event, also once the channel is closed.
  unfoldable pub receive : Logger E → Option (Logger E)
  unfolding receive_from
  receive l = if l.has_db then receive_from l.writing l.ch l else none

  unfoldable pub insert_from : Option E → Logger E → Option (E × Logger E)
  insert_from none l = none
  insert_from (some ev) l = some (ev, record l { writing = none })

  -- The writer's call of InsertAuditEvent, with the event that it passes.
  unfoldable pub insert : Logger E → Option (E × Logger E)
  unfolding insert_from
  insert l = insert_from l.writing l

  -- Close, which panics the second time
  unfoldable pub close : Logger E → Option (Logger E)
  close l = if l.closed then none else some (record l { closed = true })

-- A logger, the events that Record sent, and those that were passed to the database.
pub record Run (E : Type 0) : Type 0 where
  pub logger : Logger E
  pub accepted : List E
  pub inserted : List E

pub data Step {E : Type 0} : Run E → Run E → Type 0 where
  records :
      (ev : E) (l l' : Logger E) (accepted inserted : List E)
      → record_event ev l ≡ sent l'
      → Step
          (record { logger = l; accepted = accepted; inserted = inserted })
          (record { logger = l'; accepted = accepted ++ ev ∷ []; inserted = inserted })
  drops : (ev : E) (s : Run E) → record_event ev s.logger ≡ full → Step s s
  receives :
      (l l' : Logger E) (accepted inserted : List E)
      → receive l ≡ some l'
      → Step
          (record { logger = l; accepted = accepted; inserted = inserted })
          (record { logger = l'; accepted = accepted; inserted = inserted })
  inserts :
      (ev : E) (l l' : Logger E) (accepted inserted : List E)
      → insert l ≡ some (ev, l')
      → Step
          (record { logger = l; accepted = accepted; inserted = inserted })
          (record { logger = l'; accepted = accepted; inserted = inserted ++ ev ∷ [] })
  closes :
      (l l' : Logger E) (accepted inserted : List E)
      → close l ≡ some l'
      → Step
          (record { logger = l; accepted = accepted; inserted = inserted })
          (record { logger = l'; accepted = accepted; inserted = inserted })

pub data Reach {E : Type 0} (x : Run E) : Run E → Type 0 where
  here : Reach x x
  next : {y z : Run E} → Reach x y → Step y z → Reach x z
