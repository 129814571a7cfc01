-- ===== src/Audit/Tests.antt =====
-- The theorem on the audit queue at a concrete input.
use gateway_llm.Prelude.{ℕ, ◌≡◌, refl, true, false, Option, none, some, List, [], ◌∷◌}
use gateway_llm.Audit.{
  Logger, Run, panics, new, record_event, receive, insert, close, records, receives, inserts,
  closes, Reach, here, next,
}
use gateway_llm.Audit.Order.{IsFifo, Reach-IsFifo}

abbrev holding : List ℕ → Option ℕ → Logger ℕ
holding ch writing = record { has_db = true; ch = ch; closed = false; writing = writing }

abbrev ended : Run ℕ
ended = record {
  logger = record { has_db = true; ch = 8 ∷ []; closed = true; writing = none };
  accepted = 7 ∷ 8 ∷ [];
  inserted = 7 ∷ [];
}

-- Two events are recorded, the writer inserts the first, and the logger is closed.
two_events : Reach (record { logger = new true; accepted = []; inserted = [] }) ended
unfolding new record_event receive insert close
two_events =
    next
      (next
        (next
          (next (next here (records 7 (holding [] none) (holding (7 ∷ []) none) [] [] refl))
            (records 8 (holding (7 ∷ []) none) (holding (7 ∷ 8 ∷ []) none) (7 ∷ []) [] refl))
          (receives (holding (7 ∷ 8 ∷ []) none) (holding (8 ∷ []) (some 7)) (7 ∷ 8 ∷ []) [] refl))
        (inserts 7 (holding (8 ∷ []) (some 7)) (holding (8 ∷ []) none) (7 ∷ 8 ∷ []) [] refl))
      (closes (holding (8 ∷ []) none) ended.logger (7 ∷ 8 ∷ []) (7 ∷ []) refl)

Reach-IsFifo_example : IsFifo ended
Reach-IsFifo_example = Reach-IsFifo true ended two_events

-- A channel that is closed takes no more events.
panics_closed : record_event 9 ended.logger ≡ panics
unfolding record_event
panics_closed = refl
