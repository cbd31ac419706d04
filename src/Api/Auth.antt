-- ===== src/Api/Auth.antt =====
-- `APIKeyAuthProvider` of api/auth/provider.py, and `AuthContext` of core/identity/auth_context.py.
-- `fingerprint` is the SHA-256 digest of a key as a text. The prefix of keys, which nothing reads, is
-- left out.
pub mod Keys
pub mod Tests
use kitematic.Base.{
  ℕ, String, str_eq, is_empty, Bool, true, false, Option, none, some, is_some, List, [], ◌∷◌,
  length, if◌then◌else◌,
}
use kitematic.Base.Dict.{Dict, lookup, insert, erase, contains}
use kitematic.Kernel.Metrics.{Metrics, increment}

pub record AuthContext : Type 0 where
  pub tenant_id : String
  pub agent_id : String
  pub permissions : List String

pub record AuthProvider : Type 0 where
  pub fingerprints : Dict AuthContext

-- the loop of `authenticate` over the stored fingerprints
unfoldable pub matching : (candidate : String) → Dict AuthContext → Option AuthContext
matching candidate [] = none
matching candidate ((stored, context) ∷ rest) =
    let later = matching candidate rest in if str_eq candidate stored then some context else later

abbrev pub or_existing : Option AuthContext → AuthContext → AuthContext
or_existing none existing = existing
or_existing (some context) existing = context

abbrev pub count_rotation : Option Metrics → Option Metrics
count_rotation none = none
count_rotation (some m) = some (increment m "security.auth.rotation")

module _ (fingerprint : String → String) where
  unfoldable pub add_key : (api_key : String) → AuthContext → AuthProvider → AuthProvider
  add_key api_key context p = record p {
    fingerprints = insert (fingerprint api_key) context p.fingerprints;
  }

  -- `__init__`, with keys
  unfoldable pub with_keys : Dict AuthContext → AuthProvider → AuthProvider
  unfolding add_key
  with_keys [] p = p
  with_keys ((api_key, context) ∷ keys) p = with_keys keys (add_key api_key context p)

  unfoldable pub remove_key : (api_key : String) → AuthProvider → Bool × AuthProvider
  remove_key api_key p =
      if contains (fingerprint api_key) p.fingerprints
      then (true, record p { fingerprints = erase (fingerprint api_key) p.fingerprints })
      else (false, p)

  unfoldable pub rotate_found :
      (old_key new_key : String)
      → Option AuthContext
      → Option Metrics
      → AuthProvider
      → Option AuthContext
      → Bool × AuthProvider × Option Metrics
  rotate_found old_key new_key context metrics p none = (false, p, metrics)
  rotate_found old_key new_key context metrics p (some existing) = (
    true,
    record p {
      fingerprints =
          insert (fingerprint new_key) (or_existing context existing)
            (erase (fingerprint old_key) p.fingerprints);
    },
    count_rotation metrics,
  )

  unfoldable pub rotate_key :
      (old_key new_key : String)
      → Option AuthContext
      → Option Metrics
      → AuthProvider
      → Bool × AuthProvider × Option Metrics
  unfolding rotate_found
  rotate_key old_key new_key context metrics p =
      rotate_found old_key new_key context metrics p (lookup (fingerprint old_key) p.fingerprints)

  unfoldable pub authenticate : (api_key : String) → AuthProvider → Option AuthContext
  unfolding matching
  authenticate api_key p =
      if is_empty api_key then none else matching (fingerprint api_key) p.fingerprints

unfoldable pub key_count : AuthProvider → ℕ
key_count p = length p.fingerprints
