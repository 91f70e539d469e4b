-- ===== src/LoadTest/Summary.antt =====
-- web/src/lib/loadTest.ts: `formatRunSummary`.
use gocourier.Common.{
  ℕ, ◌+◌, ◌/◌, ◌≡◌, refl, List, [], ◌∷◌, ◌++◌, String, if◌then◌else◌, ltb, template, join, decimal,
}
use gocourier.LoadTest.Config.{LoadRunResult}

-- `Math.round(result.elapsedMs)`
abbrev pub rounded_ms : ℕ → ℕ
rounded_ms elapsed_us = (elapsed_us + 500) / 1000

-- The parts of the text, in order.
unfoldable pub summary_parts : LoadRunResult → List String
summary_parts r =
    template (decimal r.ok ∷ " accepted" ∷ [])
      ∷ template (decimal r.fail ∷ " failed" ∷ [])
      ∷ (if ltb 0 r.duplicates
          then template (decimal r.duplicates ∷ " duplicates" ∷ []) ∷ []
          else [])
    ++ template (decimal r.total ∷ " total" ∷ [])
      ∷ template (decimal (rounded_ms r.elapsed_us) ∷ " ms" ∷ [])
      ∷ []

unfoldable pub format_run_summary : LoadRunResult → String
unfolding summary_parts join template decimal
format_run_summary r = join ", " (summary_parts r)

summary_text :
    format_run_summary
      (record { ok = 18; fail = 2; duplicates = 5; total = 25; elapsed_us = 1234500 })
    ≡ "18 accepted, 2 failed, 5 duplicates, 25 total, 1235 ms"
unfolding format_run_summary
summary_text = refl
