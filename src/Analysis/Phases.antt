-- ===== src/Analysis/Phases.antt =====
-- The order of the analysis phases, utils/analysis/helpers.go.
use argo_rollouts.Common.{ℕ, suc, ◌≡◌, Bool, List, [], ◌∷◌, ltb, if◌then◌else◌, arith}
use argo_rollouts.Api.Analysis.{
  AnalysisPhase, unset, pending, running, successful, failed, error, inconclusive, same_phase,
}

-- From the best to the worst.
abbrev analysis_status_order : List AnalysisPhase
analysis_status_order = successful ∷ running ∷ pending ∷ inconclusive ∷ error ∷ failed ∷ []

-- The index of the last entry that is the phase, `found` if there is none: the loop keeps its
-- zero, so that a phase which is not of the list counts as the best.
index_from : ℕ → ℕ → AnalysisPhase → List AnalysisPhase → ℕ
index_from i found p [] = found
index_from i found p (q ∷ qs) = index_from (suc i) (if same_phase p q then i else found) p qs

unfoldable pub is_worse : AnalysisPhase → AnalysisPhase → Bool
unfolding index_from
is_worse current new =
    ltb (index_from 0 0 current analysis_status_order) (index_from 0 0 new analysis_status_order)

unfoldable pub worst : AnalysisPhase → AnalysisPhase → AnalysisPhase
worst left right = if is_worse left right then right else left

-- How bad a phase is, as a table.
abbrev pub badness : AnalysisPhase → ℕ
badness unset = 0
badness successful = 0
badness running = 1
badness pending = 2
badness inconclusive = 3
badness error = 4
badness failed = 5

-- A phase is worse than another exactly when its badness is greater: from the best, successful (or a
-- phase that is not set), running, pending, inconclusive, error, failed.
pub is_worse-badness : (p q : AnalysisPhase) → is_worse p q ≡ ltb (badness p) (badness q)
unfolding is_worse index_from
is_worse-badness p q = ground arith
