-- ===== src/SmartRoute/Deciding/Scan.antt =====
-- How much text the classifier reads (backend/internal/smartroute/smartroute.go).
use gateway_llm.Prelude.{
  ℕ, ◌+◌, ◌-◌, ◌≡◌, ◌≤◌, ◌<◌, refl, false, some, List, [], ◌∷◌, ◌++◌, length, length-append, take,
  ltb, leb, Bool-cases, inl, inr, arith, zero, suc,
}
use gateway_llm.Privacy.Bytes.{Bytes}
use gateway_llm.Privacy.Rehydrator.{is_empty}
use gateway_llm.SmartRoute.Deciding.{Json, scan, fit, cut, then_scan, extract_text, max_scan}

length-take : (n : ℕ) (xs : Bytes) → length (take n xs) ≤ n
length-take zero xs = omega arith
length-take (suc n) [] = omega arith
length-take (suc n) (x ∷ xs) = omega (arith, length-take n xs)

module _ (json : Json) where
  -- With room left, the text is cut to a part that fits.
  fit_lem :
      (b text : Bytes)
      → length b < max_scan
      → (t : Bytes) × (fit json b text ≡ some t) × (length b + length t ≤ max_scan)
  unfolding fit cut
  fit_lem b text h = elim (Bool-cases (ltb max_scan (length b + length text))) [
    | inl long ↦
        let room : ltb max_scan (length b) ≡ false = ground arith in
        (
          take (max_scan - length b) text,
          rw (long, room) refl,
          omega (arith, length-take (max_scan - length b) text),
        )
    | inr short ↦ (text, rw short refl, ground arith)
  ]

  scan_from :
      (contents : List Bytes) (b : Bytes)
      → length b < max_scan
      → (text : Bytes) × (scan json contents b ≡ some text) × (length text ≤ max_scan + 1)
  unfolding scan then_scan
  scan_from [] b h = (b, refl, omega arith)
  scan_from (raw ∷ contents) b h = elim (Bool-cases (is_empty (extract_text json raw))) [
    | inl nothing ↦ let (text, e, le) = scan_from contents b h in (text, (rw nothing e), le)
    | inr there ↦
        let (t, fits, le) = fit_lem b (extract_text json raw) h in
        let b' = b ++ (t ++ 10 ∷ []) in
        let len : length b' ≡ length b + length t + 1 =
          omega (arith, length-append b (t ++ 10 ∷ []), length-append t (10 ∷ [])) in
        elim (Bool-cases (leb max_scan (length b'))) [
          | inl full ↦ (b', (rw (there, fits, full) refl), omega (arith, len))
          | inr room ↦
              let (text, e, bound) = scan_from contents b' (ground arith) in
              (text, (rw (there, fits, room) e), bound)
        ]
  ]

  -- Whatever the messages are, the loop of Score over them takes no slice with a bound below zero,
  -- and the text that it collects has at most one byte more than maxScan.
  pub scan-bounded :
      (contents : List Bytes)
      → (text : Bytes) × (scan json contents [] ≡ some text) × (length text ≤ max_scan + 1)
  scan-bounded contents = scan_from contents [] (omega arith)
