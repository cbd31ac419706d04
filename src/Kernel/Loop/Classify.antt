-- ===== src/Kernel/Loop/Classify.antt =====
-- The reasons of a termination, and `_classify_failure` of kernel/lifecycle.py.
use kitematic.Base.{String, ◌||◌, List, ℕ, lower, contains_text, same_codes, if◌then◌else◌}

pub data LoopTermination : Type 0 where
  completed policy_denied capability_missing capability_denied gateway_failed tool_failed :
      LoopTermination
  checkpoint_failed orchestration_failed budget_exhausted timeout exception : LoopTermination

-- on the lower-case text of the error
unfoldable pub classify_lower : List ℕ → LoopTermination
classify_lower error =
    if contains_text "policy" error
    then policy_denied
    else if same_codes "denied" error || same_codes "rejected" error
    then policy_denied
    else if contains_text "capability" error
    then (if contains_text "not" error || contains_text "denied" error
        then capability_denied
        else capability_missing)
    else if contains_text "gateway" error
    then gateway_failed
    else if contains_text "orchestration" error
    then orchestration_failed
    else if contains_text "checkpoint" error
    then checkpoint_failed
    else if contains_text "tool" error
    then tool_failed
    else exception

unfoldable pub classify_failure : String → LoopTermination
unfolding classify_lower
classify_failure error = classify_lower (lower error)
