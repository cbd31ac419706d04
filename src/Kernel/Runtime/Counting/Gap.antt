-- ===== src/Kernel/Runtime/Counting/Gap.antt =====
-- The gap between the executions that were begun and those that have ended, by the counters.
use kitematic.Base.{
  ℕ, ◌+◌, String, str_eq, ◌≡◌, false, Option, none, some, List, [], ◌∷◌, ◌++◌, arith, All,
}
use kitematic.Kernel.Metrics.{Metrics, get_counter, increment}
use kitematic.Kernel.Metrics.Laws.{get_counter-increment, get_counter-record_value}
use kitematic.Kernel.Runtime.Defs.{Runtime, count_each}
use kitematic.Kernel.Runtime.Stages.{record_duration}

abbrev pub total : String
total = "runtime.executions.total"

abbrev pub completed : String
completed = "runtime.executions.completed"

abbrev pub failed : String
failed = "runtime.executions.failed"

-- `k` executions were begun and are neither completed nor failed.
abbrev pub Gap : ℕ → Option Metrics → Type 0
Gap k none = Unit
Gap k (some m) = get_counter m total ≡ get_counter m completed + get_counter m failed + k

-- Every execution that was begun has ended, as the counters tell it.
abbrev pub IsBalanced : {S : Type 0} → Runtime S → Type 0
IsBalanced r = Gap 0 r.metrics

abbrev pub IsOther : String → Type 0
IsOther name =
    (str_eq name total ≡ false) × (str_eq name completed ≡ false) × (str_eq name failed ≡ false)

Gap-other :
    (name : String) (k : ℕ) (m : Metrics)
    → IsOther name
    → Gap k (some m)
    → Gap k (some (increment m name))
Gap-other name k m o h = simp (get_counter-increment, o.0, o.1, o.2) h

pub Gap-begin : (m : Option Metrics) → Gap 0 m → Gap 1 (count_each (total ∷ []) m)
Gap-begin none h = tt
Gap-begin (some m) h = simp get_counter-increment (omega arith)

pub Gap-completed : (m : Option Metrics) → Gap 1 m → Gap 0 (count_each (completed ∷ []) m)
Gap-completed none h = tt
Gap-completed (some m) h = simp get_counter-increment (omega arith)

Gap-failed : (m : Metrics) → Gap 1 (some m) → Gap 0 (some (increment m failed))
Gap-failed m h = simp get_counter-increment (omega arith)

-- Counting other names, and at the end a failure, closes the gap.
pub Gap-fail :
    (names : List String) (m : Option Metrics)
    → All IsOther names
    → Gap 1 m
    → Gap 0 (count_each (names ++ failed ∷ []) m)
Gap-fail names none o h = tt
Gap-fail [] (some m) o h = Gap-failed m h
Gap-fail (name ∷ names) (some m) o h =
    Gap-fail names (some (increment m name)) o.1 (Gap-other name 1 m o.0 h)

pub Gap-others :
    (names : List String) (m : Option Metrics)
    → All IsOther names
    → Gap 0 m
    → Gap 0 (count_each names m)
Gap-others names none o h = tt
Gap-others [] (some m) o h = h
Gap-others (name ∷ names) (some m) o h =
    Gap-others names (some (increment m name)) o.1 (Gap-other name 0 m o.0 h)

pub Gap-duration : (elapsed : ℕ) (m : Option Metrics) → Gap 0 m → Gap 0 (record_duration elapsed m)
Gap-duration elapsed none h = tt
Gap-duration elapsed (some m) h = simp get_counter-record_value h
