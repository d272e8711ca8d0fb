-- ===== src/Analysis/Results.antt =====
-- Reading and writing a run's metric results, utils/analysis/helpers.go.
use mathlib.Core.Path.{subst}
use argo_rollouts.Common.{
  ◌≡◌, refl, sym, ◌∙◌, String, Bool, true, false, not, ◌&&◌, ◌||◌, Option, none, some, List, [],
  ◌∷◌, if◌then◌else◌, ◌==◌, eq_iff, eq_refl, last?, Bool-cases, inl, inr,
}
use argo_rollouts.Api.Analysis.{
  AnalysisPhase, failed, error, inconclusive, completed, MetricResult, Measurement, AnalysisRun,
}

unfoldable pub get_result : List MetricResult → String → Option MetricResult
get_result [] name = none
get_result (r ∷ rs) name = if r.name == name then some r else get_result rs name

unfoldable pub set_result : List MetricResult → MetricResult → List MetricResult
set_result [] r = r ∷ []
set_result (x ∷ xs) r = if x.name == r.name then r ∷ xs else x ∷ set_result xs r

unfoldable pub metric_completed : List MetricResult → String → Bool
metric_completed results name = elim (get_result results name) [
  | none ↦ false
  | some r ↦ completed r.phase
]

unfoldable pub last_measurement : List MetricResult → String → Option Measurement
last_measurement results name = elim (get_result results name) [
  | none ↦ none
  | some r ↦ last? r.measurements
]

-- Whether a metric's phase ends the run.
abbrev pub unsuccessful : AnalysisPhase → Bool
unsuccessful failed = true
unsuccessful error = true
unsuccessful inconclusive = true
unsuccessful _ = false

ends_run : List MetricResult → Bool
ends_run [] = false
ends_run (r ∷ rs) = (not r.dry_run && unsuccessful r.phase) || ends_run rs

unfoldable pub is_terminating : AnalysisRun → Bool
unfolding ends_run
is_terminating run = run.terminate || ends_run run.status.metric_results

same_trans : (a b c : String) → (a == b) ≡ true → (c == b) ≡ true → a ≡ c
same_trans a b c h k = (eq_iff a b).0 h ∙ sym ((eq_iff c b).0 k)

-- What is written under a name is read back under it.
pub get_result-set_result :
    (results : List MetricResult) (r : MetricResult)
    → get_result (set_result results r) r.name ≡ some r
unfolding get_result set_result
get_result-set_result [] r = rw (eq_refl r.name) refl
get_result-set_result (x ∷ xs) r = elim (Bool-cases (x.name == r.name)) [
  | inl e ↦ rw (e, eq_refl r.name) refl
  | inr n ↦ rw (n, n) (get_result-set_result xs r)
]

-- Writing a result leaves every other name's result as it is.
pub get_result-set_result_other :
    (results : List MetricResult) (r : MetricResult) (name : String)
    → (r.name == name) ≡ false
    → get_result (set_result results r) name ≡ get_result results name
unfolding get_result set_result
get_result-set_result_other [] r name h = rw h refl
get_result-set_result_other (x ∷ xs) r name h = elim (Bool-cases (x.name == r.name)) [
  | inl e ↦ let same = (eq_iff x.name r.name).0 e in rw (e, h, same, h) refl
  | inr n ↦ rw n (elim (Bool-cases (x.name == name)) [
    | inl e ↦ rw e refl
    | inr m ↦ rw m (get_result-set_result_other xs r name h)
  ])
]

-- The same, under an equal name.
pub read-named :
    (results : List MetricResult) (r : MetricResult) (name : String)
    → r.name ≡ name
    → get_result (set_result results r) name ≡ some r
read-named results r name e =
    subst (λ n. get_result (set_result results r) n ≡ some r) e (get_result-set_result results r)

read-written :
    (results : List MetricResult) (r s : MetricResult) (name : String)
    → (r.name == s.name) ≡ false
    → s.name ≡ name
    → get_result (set_result (set_result results r) s) name
      ≡ get_result (set_result (set_result results s) r) name
read-written results r s name h e =
    let h' = subst (λ n. (r.name == n) ≡ false) e h in
    read-named (set_result results r) s name e
    ∙ sym (read-named results s name e)
    ∙ sym (get_result-set_result_other (set_result results s) r name h')

read-other :
    (results : List MetricResult) (r s : MetricResult) (name : String)
    → r.name ≡ name
    → (s.name == name) ≡ false
    → get_result (set_result (set_result results s) r) name ≡ get_result (set_result results r) name
read-other results r s name e n =
    read-named (set_result results s) r name e ∙ sym (read-named results r name e)

-- Two results of different names are written in either order with the same outcome for every
-- name that is read: the workers of one reconciliation do not disturb each other.
pub set_result-swap :
    (results : List MetricResult) (r s : MetricResult) (name : String)
    → (r.name == s.name) ≡ false
    → get_result (set_result (set_result results r) s) name
      ≡ get_result (set_result (set_result results s) r) name
set_result-swap results r s name h = elim (Bool-cases (s.name == name)) [
  | inl e ↦ read-written results r s name h ((eq_iff s.name name).0 e)
  | inr n ↦ elim (Bool-cases (r.name == name)) [
    | inl e ↦
        let same = (eq_iff r.name name).0 e in
        get_result-set_result_other (set_result results r) s name n
        ∙ sym (read-other results r s name same n)
    | inr m ↦
        get_result-set_result_other (set_result results r) s name n
        ∙ get_result-set_result_other results r name m
        ∙ sym (get_result-set_result_other results s name n)
        ∙ sym (get_result-set_result_other (set_result results s) r name m)
  ]
]
