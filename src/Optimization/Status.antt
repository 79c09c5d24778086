-- ===== src/Optimization/Status.antt =====
-- The status of an optimization (backend/app/domain/optimization.py) and its transitions.
use idx_backtest_lab.Common.{
  ℕ, ◌≡◌, refl, ap, Bool, true, false, List, [], ◌∷◌, arith, if◌then◌else◌, ◌<◌, ◌+◌, ◌≤◌, length,
  ◌==◌,
}
use idx_backtest_lab.Common.Lifecycle.{Walk, stop, next, visited}

pub data OptimizationStatus : Type 0 where
  created validating running_train_validation selecting : OptimizationStatus
  running_holdout completed failed cancelled : OptimizationStatus

-- The position of a member in the enumeration; members are equal when it is.
unfoldable pub ordinal : OptimizationStatus → ℕ
ordinal created = 0
ordinal validating = 1
ordinal running_train_validation = 2
ordinal selecting = 3
ordinal running_holdout = 4
ordinal completed = 5
ordinal failed = 6
ordinal cancelled = 7

unfoldable pub allowed_transitions : OptimizationStatus → List OptimizationStatus
allowed_transitions created = validating ∷ cancelled ∷ failed ∷ []
allowed_transitions validating = running_train_validation ∷ failed ∷ []
allowed_transitions running_train_validation = selecting ∷ failed ∷ []
allowed_transitions selecting = running_holdout ∷ failed ∷ []
allowed_transitions running_holdout = completed ∷ failed ∷ []
allowed_transitions completed = []
allowed_transitions failed = []
allowed_transitions cancelled = []

-- `status in statuses`
unfoldable pub member : OptimizationStatus → List OptimizationStatus → Bool
unfolding ordinal
member s [] = false
member s (t ∷ ts) = let rest = member s ts in if ordinal s == ordinal t then true else rest

unfoldable pub is_transition_allowed : OptimizationStatus → OptimizationStatus → Bool
unfolding member allowed_transitions
is_transition_allowed current next_status = member next_status (allowed_transitions current)

-- How far the life of an optimization has come.
abbrev pub stage : OptimizationStatus → ℕ
stage created = 0
stage validating = 1
stage running_train_validation = 2
stage selecting = 3
stage running_holdout = 4
stage completed = 5
stage failed = 5
stage cancelled = 5

-- A transition leads to a later stage.
pub stage-lt : (s t : OptimizationStatus) → is_transition_allowed s t ≡ true → stage s < stage t
unfolding is_transition_allowed
stage-lt created t h = ground arith
stage-lt s t h = ground arith

stage-le : (s : OptimizationStatus) → stage s ≤ 5
stage-le s = ground arith

-- No sequence of allowed transitions passes through more than six statuses, and fewer from a
-- later stage: the transitions of an optimization always come to an end.
pub length-visited-le :
    {s t : OptimizationStatus} (w : Walk is_transition_allowed s t)
    → stage s + length (visited w) ≤ 6
length-visited-le {s} stop = omega (arith, stage-le s)
length-visited-le {s} (next n h w) = omega (arith, length-visited-le w, stage-lt s n h)

not_from_failed : {t : OptimizationStatus} → Walk is_transition_allowed failed t → t ≡ failed
unfolding is_transition_allowed
not_from_failed stop = refl
not_from_failed (next n h w) = cc

not_from_cancelled :
    {t : OptimizationStatus} → Walk is_transition_allowed cancelled t → t ≡ cancelled
unfolding is_transition_allowed
not_from_cancelled stop = refl
not_from_cancelled (next n h w) = cc

-- Every walk from `s` to completion visits the statuses `l`.
abbrev Visits : List OptimizationStatus → OptimizationStatus → Type 0
Visits l s = (w : Walk is_transition_allowed s completed) → visited w ≡ l

from_completed : Visits (completed ∷ []) completed
unfolding is_transition_allowed
from_completed stop = refl
from_completed (next n h w) = cc

from_running_holdout : Visits (running_holdout ∷ completed ∷ []) running_holdout
unfolding is_transition_allowed
from_running_holdout (next completed h w) = ap (◌∷◌ running_holdout) (from_completed w)
from_running_holdout (next failed h w) = cc (not_from_failed w)
from_running_holdout (next n h w) = cc

from_selecting : Visits (selecting ∷ running_holdout ∷ completed ∷ []) selecting
unfolding is_transition_allowed
from_selecting (next running_holdout h w) = ap (◌∷◌ selecting) (from_running_holdout w)
from_selecting (next failed h w) = cc (not_from_failed w)
from_selecting (next n h w) = cc

from_running :
    Visits
      (running_train_validation ∷ selecting ∷ running_holdout ∷ completed ∷ [])
      running_train_validation
unfolding is_transition_allowed
from_running (next selecting h w) = ap (◌∷◌ running_train_validation) (from_selecting w)
from_running (next failed h w) = cc (not_from_failed w)
from_running (next n h w) = cc

from_validating :
    Visits
      (validating ∷ running_train_validation ∷ selecting ∷ running_holdout ∷ completed ∷ [])
      validating
unfolding is_transition_allowed
from_validating (next running_train_validation h w) = ap (◌∷◌ validating) (from_running w)
from_validating (next failed h w) = cc (not_from_failed w)
from_validating (next n h w) = cc

-- An optimization that was created and is completed went through validating, train and
-- validation runs, selection and the holdout run, each once and in this order.
pub completed_path :
    (w : Walk is_transition_allowed created completed)
    → visited w
      ≡ created ∷ validating ∷ running_train_validation ∷ selecting ∷ running_holdout ∷ completed
        ∷ []
unfolding is_transition_allowed
completed_path (next validating h w) = ap (◌∷◌ created) (from_validating w)
completed_path (next failed h w) = cc (not_from_failed w)
completed_path (next cancelled h w) = cc (not_from_cancelled w)
completed_path (next n h w) = cc
