-- ===== src/ControlPlane/Tests/Registry.antt =====
-- Concrete agent instances.
use kitematic.Base.{◌≡◌, none, List, [], ◌∷◌}
use kitematic.Kernel.Values.{number}
use kitematic.ControlPlane.Registry.{new_instances, create_instance, get_instance}
use kitematic.ControlPlane.Registry.Listed.{
  Change, creating, updating, deleting, run_changes, IsKept, create_instance-IsKept,
}

abbrev earlier : List Change
earlier = creating "acme" "tpl-1" "first" [] ∷ []

abbrev later : List Change
later =
    creating "acme" "tpl-1" "third" []
    ∷ updating "inst-2" (("limit", number 3) ∷ [])
    ∷ deleting "inst-2"
    ∷ []

create_instance-IsKept_example :
    let s = run_changes earlier new_instances in
    let made = create_instance "acme" "tpl-2" "second" [] s in
    (get_instance made.0 s ≡ none)
    × IsKept made.0 "acme" "tpl-2" "second" (run_changes later made.1)
create_instance-IsKept_example = create_instance-IsKept earlier later "acme" "tpl-2" "second" []
