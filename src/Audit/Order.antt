-- ===== src/Audit/Order.antt =====
-- What the audit queue keeps (backend/internal/audit/audit.go).
use mathlib.Core.List.{append_assoc}
use gateway_llm.Prelude.{
  ◌≡◌, ◌≤◌, ◌<◌, refl, sym, ap, ◌∙◌, Bool, Option, none, some, List, [], ◌∷◌, ◌++◌, length,
  length-append, arith,
}
use gateway_llm.Audit.{
  Logger, Run, sent, new, record_event, receive, receive_from, insert, insert_from, close,
  buffer_size, Step, records, drops, receives, inserts, closes, Reach, here, next,
}

module _ {E : Type 0} where
  abbrev pub in_hand : Option E → List E
  in_hand none = []
  in_hand (some ev) = ev ∷ []

  pub record IsFifo (s : Run E) : Type 0 where
    pub in_order : s.accepted ≡ s.inserted ++ (in_hand s.logger.writing ++ s.logger.ch)
    pub room : length s.logger.ch ≤ buffer_size

  append_snoc :
      (xs ys : List E) (zs : List E) (h : List E)
      → xs ≡ ys ++ (h ++ zs)
      → (ev : E) → xs ++ ev ∷ [] ≡ ys ++ (h ++ (zs ++ ev ∷ []))
  append_snoc xs ys zs h e ev =
      ap (λ l. l ++ ev ∷ []) e
      ∙ append_assoc ys (h ++ zs) (ev ∷ [])
      ∙ ap (λ l. ys ++ l) (append_assoc h zs (ev ∷ []))

  record_event-sent :
      (ev : E) (l l' : Logger E)
      → record_event ev l ≡ sent l'
      → (l'.ch ≡ l.ch ++ ev ∷ []) × (l'.writing ≡ l.writing) × (length l.ch < buffer_size)
  unfolding record_event
  record_event-sent ev l l' h = (ground arith, ground arith, ground arith)

  receive_from-moves :
      (w : Option E) (ch : List E) (l l' : Logger E)
      → receive_from w ch l ≡ some l'
      → (in_hand l'.writing ++ l'.ch ≡ in_hand w ++ ch) × (length l'.ch ≤ length ch)
  unfolding receive_from
  receive_from-moves (some busy) ch l l' h = ground arith
  receive_from-moves none [] l l' h = ground arith
  receive_from-moves none (ev ∷ ch) l l' h =
      let same_ch : l'.ch ≡ ch = ground arith in
      let same_writing : l'.writing ≡ some ev = ground arith in
      (rw (same_writing, same_ch) refl, rw same_ch (omega arith))

  receive-moves :
      (l l' : Logger E)
      → receive l ≡ some l'
      → (in_hand l'.writing ++ l'.ch ≡ in_hand l.writing ++ l.ch) × (length l'.ch ≤ length l.ch)
  unfolding receive
  receive-moves l l' h = receive_from-moves l.writing l.ch l l' (ground arith)

  insert_from-takes :
      (w : Option E) (l : Logger E) (ev : E) (l' : Logger E)
      → insert_from w l ≡ some (ev, l')
      → (in_hand w ≡ ev ∷ []) × (l'.writing ≡ none) × (l'.ch ≡ l.ch)
  unfolding insert_from
  insert_from-takes none l ev l' h = ground arith
  insert_from-takes (some busy) l ev l' h = (ground arith, ground arith, ground arith)

  close-same : (l l' : Logger E) → close l ≡ some l' → (l'.ch ≡ l.ch) × (l'.writing ≡ l.writing)
  unfolding close
  close-same l l' h = (ground arith, ground arith)

  Step-IsFifo : {x y : Run E} → Step x y → IsFifo x → IsFifo y
  unfolding insert
  Step-IsFifo (records ev l l' acc ins e) i =
      let (c, w, small) = record_event-sent ev l l' e in
      record {
        in_order = rw (c, w) (append_snoc acc ins l.ch (in_hand l.writing) i.in_order ev);
        room = rw c (omega (arith, small, length-append l.ch (ev ∷ [])));
      }
  Step-IsFifo (drops ev s e) i = i
  Step-IsFifo (receives l l' acc ins e) i =
      let (same, fewer) = receive-moves l l' e in
      record { in_order = rw same i.in_order; room = omega (arith, fewer, i.room) }
  Step-IsFifo (inserts ev l l' acc ins e) i =
      let (held, w, c) = insert_from-takes l.writing l ev l' e in
      record {
        in_order =
            rw (w, c)
              (i.in_order
                ∙ (ap (λ h. ins ++ (h ++ l.ch)) held ∙ sym (append_assoc ins (ev ∷ []) l.ch)));
        room = rw c i.room;
      }
  Step-IsFifo (closes l l' acc ins e) i =
      let (c, w) = close-same l l' e in
      record { in_order = rw (c, w) i.in_order; room = rw c i.room }

  Reach-keeps : {x y : Run E} → IsFifo x → Reach x y → IsFifo y
  Reach-keeps i here = i
  Reach-keeps i (next r st) = Step-IsFifo st (Reach-keeps i r)

  -- In every order of the steps of Record, of the writer and of Close, from a new logger on, the
  -- events that Record sent are, in order, those that were passed to the database, then the one
  -- that the writer has in hand, then the buffer: none is lost, doubled or overtaken. The buffer
  -- never holds more than its size.
  pub Reach-IsFifo :
      (has_db : Bool) (s : Run E)
      → Reach (record { logger = new has_db; accepted = []; inserted = [] }) s
      → IsFifo s
  unfolding new
  Reach-IsFifo has_db s r = Reach-keeps (record { in_order = refl; room = omega arith }) r
