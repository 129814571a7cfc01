-- ===== src/Privacy/Rehydrator/Chunks.antt =====
-- What a stream of writes emits (backend/internal/privacy/rehydrator.go).
use mathlib.Core.List.{append_assoc, append-nil, map-append}
use gateway_llm.Prelude.{
  ◌-◌, ◌≡◌, ◌≤◌, ◌<◌, refl, sym, ap, ◌∙◌, Bool, true, false, some, List, [], ◌∷◌, ◌++◌, map, length,
  take, drop, take-append-drop, length-drop, leb, Bool-cases, inl, inr, arith,
}
use gateway_llm.Privacy.Bytes.{Bytes, codes, Table}
use gateway_llm.Privacy.Rehydrator.{
  StreamWriter, write, flush, emitted, whole, replace_tokens, contains, is_empty, max_token_len,
}

abbrev pub concat : List Bytes → Bytes
concat [] = []
concat (b ∷ bs) = b ++ concat bs

concat-append : (xs ys : List Bytes) → concat (xs ++ ys) ≡ concat xs ++ concat ys
concat-append [] ys = refl
concat-append (x ∷ xs) ys = rw (concat-append xs ys) (sym (append_assoc x (concat xs) (concat ys)))

is_empty_sound : (b : Bytes) → is_empty b ≡ true → b ≡ []
is_empty_sound [] h = refl
is_empty_sound (x ∷ b) h = cc

-- A writer that takes everything: the world is the list of what it got.
abbrev pub collect : Bytes → List Bytes → List Bytes × Bool
collect b w = (w ++ b ∷ [], true)

-- A stream: the writes one after the other.
unfoldable pub write_all : List Bytes → StreamWriter → List Bytes → StreamWriter × List Bytes
write_all [] s w = (s, w)
write_all (p ∷ ps) s w = let (ok, s', w') = write collect p s w in write_all ps s' w'

-- The writes and the flush, of a new writer.
unfoldable pub stream : Table → List Bytes → List Bytes
unfolding write_all
stream m ps =
    let (s, w) = write_all ps (record { mapping = m; buf = [] }) [] in (flush collect s w).2

-- The chunks behind what was emitted, with what is held back.
record IsCutting (m : Table) (text : Bytes) (s : StreamWriter) (w : List Bytes) : Type 0 where
  same_mapping : s.mapping ≡ m
  chunks : List Bytes
  written : w ≡ map (whole (some m)) chunks
  covered : concat chunks ++ s.buf ≡ text
  held_back : length s.buf ≤ max_token_len

module _ (m : Table) where
  written_next :
      (chunk : Bytes) (chunks w : List Bytes) (k : Table)
      → k ≡ m
      → w ≡ map (whole (some m)) chunks
      → w ++ whole (some k) chunk ∷ [] ≡ map (whole (some m)) (chunks ++ chunk ∷ [])
  written_next chunk chunks w k e h =
      rw (h, e) (sym (map-append (whole (some m)) chunks (chunk ∷ [])))

  covered_next :
      (chunks : List Bytes) (a b : Bytes)
      → concat (chunks ++ a ∷ []) ++ b ≡ concat chunks ++ (a ++ b)
  covered_next chunks a b =
      rw (concat-append chunks (a ∷ []), append-nil a) (append_assoc (concat chunks) a b)

  IsCutting-write :
      (p text : Bytes) (s : StreamWriter) (w : List Bytes)
      → IsCutting m text s w
      → IsCutting m (text ++ p) (write collect p s w).1 (write collect p s w).2
  unfolding write emitted
  IsCutting-write p text s w c =
      let buf = s.buf ++ p in
      let head = length buf - 64 in
      let all : concat c.chunks ++ buf ≡ text ++ p =
        sym (append_assoc (concat c.chunks) s.buf p) ∙ ap (λ t. t ++ p) (c.covered) in
      elim (Bool-cases (leb (length buf) max_token_len)) [
        | inl short ↦ rw short (record {
          same_mapping = c.same_mapping;
          chunks = c.chunks;
          written = c.written;
          covered = all;
          held_back = ground arith;
        })
        | inr long ↦ rw long (record {
          same_mapping = c.same_mapping;
          chunks = c.chunks ++ take head buf ∷ [];
          written = written_next (take head buf) c.chunks w s.mapping c.same_mapping c.written;
          covered =
              covered_next c.chunks (take head buf) (drop head buf)
              ∙ ap (λ t. concat c.chunks ++ t) (take-append-drop head buf)
              ∙ all;
          held_back = ground (arith, length-drop head buf);
        })
      ]

  IsCutting-write_all :
      (ps : List Bytes) (text : Bytes) (s : StreamWriter) (w : List Bytes)
      → IsCutting m text s w
      → (let r = write_all ps s w in IsCutting m (text ++ concat ps) r.0 r.1)
  unfolding write_all
  IsCutting-write_all [] text s w c = rw (append-nil text) c
  IsCutting-write_all (p ∷ ps) text s w c =
      rw (← append_assoc text p (concat ps))
        (IsCutting-write_all ps (text ++ p) _ _ (IsCutting-write p text s w c))

  flush_chunks :
      (s : StreamWriter) (w : List Bytes) (text : Bytes)
      → IsCutting m text s w
      → (chunks : List Bytes) × ((flush collect s w).2 ≡ map (whole (some m)) chunks)
        × (concat chunks ≡ text)
  unfolding flush
  flush_chunks s w text c = elim (Bool-cases (is_empty s.buf)) [
    | inl nothing ↦
        let none : s.buf ≡ [] = is_empty_sound s.buf nothing in
        rw nothing
          (c.chunks, c.written, sym (append-nil (concat c.chunks)) ∙ (rw none at c.covered))
    | inr held ↦ rw held (
      c.chunks ++ s.buf ∷ [],
      written_next s.buf c.chunks w s.mapping c.same_mapping c.written,
      sym (append-nil (concat (c.chunks ++ s.buf ∷ [])))
          ∙ covered_next c.chunks s.buf []
          ∙ ap (λ t. concat c.chunks ++ t) (append-nil s.buf)
          ∙ c.covered,
    )
  ]

  -- Whatever a stream of writes is, the buffer of the StreamWriter has at most maxTokenLen bytes
  -- after them, and what the writes and the flush emit to a writer that takes everything is the
  -- text of all writes, cut into chunks one after the other, each of which is rewritten by itself.
  pub stream-chunks :
      (ps : List Bytes)
      → (chunks : List Bytes) × (stream m ps ≡ map (whole (some m)) chunks)
        × (concat chunks ≡ concat ps)
        × (length (write_all ps (record { mapping = m; buf = [] }) []).0.buf ≤ max_token_len)
  unfolding stream flush
  stream-chunks ps =
      let s = (write_all ps (record { mapping = m; buf = [] }) []).0 in
      let w = (write_all ps (record { mapping = m; buf = [] }) []).1 in
      let c =
        IsCutting-write_all ps [] (record { mapping = m; buf = [] }) []
          (record {
            same_mapping = refl;
            chunks = [];
            written = refl;
            covered = refl;
            held_back = omega arith;
          }) in
      let (chunks, written, covered) = flush_chunks s w (concat ps) c in
      (chunks, written, covered, c.held_back)

is_empty_long : (b : Bytes) → 0 < length b → is_empty b ≡ false
is_empty_long [] h = absurd (omega arith)
is_empty_long (x ∷ b) h = refl

whole_absent :
    (tok original s : Bytes) → contains tok s ≡ false → whole (some ((tok, original) ∷ [])) s ≡ s
unfolding whole replace_tokens
whole_absent tok original s h = elim (Bool-cases (contains (codes "<<pii:") s)) [
  | inl e ↦ rw (e, h) refl
  | inr e ↦ rw e refl
]

-- A token that is cut where the buffer is cut, so that it occurs in neither part of a text which
-- is longer than what is held back, passes through a stream as it is.
pub stream-misses :
    (tok original text : Bytes)
    → 64 < length text
    → contains tok (take (length text - 64) text) ≡ false
    → contains tok (drop (length text - 64) text) ≡ false
    → concat (stream ((tok, original) ∷ []) (text ∷ [])) ≡ text
unfolding stream write_all
stream-misses tok original text long front back =
    let head = length text - 64 in
    let long' : leb (length text) max_token_len ≡ false = ground arith in
    let held : is_empty (drop head text) ≡ false =
      is_empty_long (drop head text) (omega (arith, length-drop head text)) in
    let m : Table = (tok, original) ∷ [] in
    let first = whole (some m) (take head text) in
    let s : StreamWriter = record { mapping = m; buf = drop head text } in
    let wrote : write collect text (record { mapping = m; buf = [] }) [] ≡ (true, s, first ∷ []) =
      unfold write emitted in rw long' refl in
    let flushed : (flush collect s (first ∷ [])).2 ≡ first ∷ whole (some m) (drop head text) ∷ [] =
      unfold flush in rw held refl in
    let all : stream m (text ∷ []) ≡ first ∷ whole (some m) (drop head text) ∷ [] =
      ap (λ (r : Bool × StreamWriter × List Bytes). (flush collect r.1 r.2).2) wrote ∙ flushed in
    ap concat all
    ∙ rw (whole_absent tok original _ front, whole_absent tok original _ back)
        (ap (λ t. take head text ++ t) (append-nil (drop head text)) ∙ take-append-drop head text)
