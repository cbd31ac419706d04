-- ===== src/Core/Tests.antt =====
-- The built-in capabilities in a registry.
use kitematic.Base.{◌≡◌, refl, String, [], returned}
use kitematic.Core.Capabilities.{
  CapabilityRegistry, register_each, list_capabilities, get_capability, by_id,
}
use kitematic.Core.Capabilities.Catalog.{catalog}
use kitematic.Core.Capabilities.Registered.{distinct_ids, register_each-by_id}

register_each-by_id_example :
    (r : CapabilityRegistry) × (register_each catalog (record { capabilities = [] }) ≡ returned r)
    × (list_capabilities r ≡ catalog)
    × ((id : String) → get_capability id r ≡ by_id id catalog)
unfolding distinct_ids
register_each-by_id_example = register_each-by_id catalog refl refl
