-- ===== src/Api/Auth/Tests.antt =====
-- Concrete keys, and who they authenticate.
use kitematic.Base.{◌≡◌, refl, String, is_empty, none, some, List, [], ◌∷◌, if◌then◌else◌}
use kitematic.Base.Dict.{lookup, insert, erase}
use kitematic.Api.Auth.{AuthContext, authenticate}
use kitematic.Api.Auth.Keys.{
  adding, removing, rotating, Change, intended, changed, authenticate-intended,
}

abbrev of_acme : AuthContext
of_acme = record { tenant_id = "acme"; agent_id = "a1"; permissions = [] }

abbrev plain : String → String
plain key = key

abbrev key_changes : List Change
key_changes = adding "k1" of_acme ∷ rotating "k1" "k2" none ∷ removing "k3" ∷ []

authenticate-intended_example :
    authenticate plain "k2" (changed plain key_changes (record { fingerprints = [] }))
    ≡ (if is_empty "k2" then none else lookup "k2" (intended key_changes []))
authenticate-intended_example = authenticate-intended plain (λ a b h. h) key_changes "k2"

-- after the rotation, the new key authenticates and the old one does not
rotation :
    (lookup "k2" (intended key_changes []) ≡ some of_acme)
    × (lookup "k1" (intended key_changes []) ≡ none)
unfolding intended lookup insert erase
rotation = (refl, refl)
