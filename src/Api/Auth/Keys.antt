-- ===== src/Api/Auth/Keys.antt =====
-- The provider of api/auth/provider.py implements a table of raw keys, which it never holds.
use kitematic.Base.{
  String, str_eq, eq_iff, str_eq_cases, Option-cases, inl, inr, is_empty, ◌≡◌, refl, sym, ap, ◌∙◌,
  Option, none, some, List, [], ◌∷◌, if◌then◌else◌, arith,
}
use kitematic.Base.Dict.{Dict, lookup, insert, erase, lookup-insert, lookup-erase}
use kitematic.Api.Auth.{
  AuthContext, AuthProvider, matching, or_existing, add_key, remove_key, rotate_found, rotate_key,
  authenticate,
}

matching-lookup :
    (candidate : String) (d : Dict AuthContext) → matching candidate d ≡ lookup candidate d
unfolding matching lookup
matching-lookup candidate [] = refl
matching-lookup candidate ((stored, context) ∷ d) =
    ground (arith, eq_iff candidate stored, eq_iff stored candidate, matching-lookup candidate d)

-- The changes of a provider, and what each means for a table of raw keys.
pub data Change : Type 0 where
  adding : (api_key : String) → AuthContext → Change
  removing : (api_key : String) → Change
  rotating : (old_key new_key : String) → Option AuthContext → Change

abbrev pub rotated :
    (old_key new_key : String)
    → Option AuthContext
    → Dict AuthContext
    → Option AuthContext
    → Dict AuthContext
rotated old_key new_key context table none = table
rotated old_key new_key context table (some existing) =
    insert new_key (or_existing context existing) (erase old_key table)

unfoldable pub intended : List Change → Dict AuthContext → Dict AuthContext
intended [] table = table
intended (adding api_key context ∷ cs) table = intended cs (insert api_key context table)
intended (removing api_key ∷ cs) table = intended cs (erase api_key table)
intended (rotating old_key new_key context ∷ cs) table =
    intended cs (rotated old_key new_key context table (lookup old_key table))

module _ (fingerprint : String → String) where
  unfoldable pub changed : List Change → AuthProvider → AuthProvider
  changed [] p = p
  changed (adding api_key context ∷ cs) p = changed cs (add_key fingerprint api_key context p)
  changed (removing api_key ∷ cs) p = changed cs (remove_key fingerprint api_key p).1
  changed (rotating old_key new_key context ∷ cs) p =
      changed cs (rotate_key fingerprint old_key new_key context none p).1

  module _ (apart : (a b : String) → fingerprint a ≡ fingerprint b → a ≡ b) where
    same_keys : (a b : String) → str_eq (fingerprint a) (fingerprint b) ≡ str_eq a b
    same_keys a b = elim (str_eq_cases a b) [
      | inl (e, p) ↦ rw e (ground (arith, eq_iff (fingerprint a) (fingerprint b), ap fingerprint p))
      | inr (e, n) ↦ rw e (ground (arith, eq_iff (fingerprint a) (fingerprint b), apart a b))
    ]

    -- The fingerprints stand for the keys of the table.
    abbrev Implements : AuthProvider → Dict AuthContext → Type 0
    Implements p table = (k : String) → lookup (fingerprint k) p.fingerprints ≡ lookup k table

    add_key-Implements :
        (api_key : String) (context : AuthContext) (p : AuthProvider) (table : Dict AuthContext)
        → Implements p table
        → Implements (add_key fingerprint api_key context p) (insert api_key context table)
    unfolding add_key
    add_key-Implements api_key context p table h k =
        rw (lookup-insert, lookup-insert, same_keys api_key k, h k) refl

    remove_key-Implements :
        (api_key : String) (p : AuthProvider) (table : Dict AuthContext)
        → Implements p table
        → Implements (remove_key fingerprint api_key p).1 (erase api_key table)
    unfolding remove_key
    remove_key-Implements api_key p table h k =
        elim (Option-cases (lookup (fingerprint api_key) p.fingerprints)) [
          | inl missing ↦
              rw (missing, lookup-erase)
                (elim (str_eq_cases api_key k) [
                  | inl (e, same) ↦
                      rw e (ap (λ x. lookup (fingerprint x) p.fingerprints) (sym same) ∙ missing)
                  | inr (e, n) ↦ rw e (h k)
                ])
          | inr (context, there) ↦
              rw (there, lookup-erase, lookup-erase, same_keys api_key k, h k) refl
        ]

    rotate_key-Implements :
        (old_key new_key : String) (context : Option AuthContext) (p : AuthProvider)
        (table : Dict AuthContext)
        → Implements p table
        → Implements
            (rotate_key fingerprint old_key new_key context none p).1
            (rotated old_key new_key context table (lookup old_key table))
    unfolding rotate_key rotate_found
    rotate_key-Implements old_key new_key context p table h k =
        elim (Option-cases (lookup old_key table)) [
          | inl missing ↦ rw (h old_key, missing) (h k)
          | inr (existing, there) ↦
              rw
                (
                  h old_key,
                  there,
                  lookup-insert,
                  lookup-insert,
                  lookup-erase,
                  lookup-erase,
                  same_keys new_key k,
                  same_keys old_key k,
                  h k,
                )
                refl
        ]

    changed-Implements :
        (cs : List Change) (p : AuthProvider) (table : Dict AuthContext)
        → Implements p table
        → Implements (changed cs p) (intended cs table)
    unfolding changed intended
    changed-Implements [] p table h = h
    changed-Implements (adding api_key context ∷ cs) p table h =
        changed-Implements cs _ _ (add_key-Implements api_key context p table h)
    changed-Implements (removing api_key ∷ cs) p table h =
        changed-Implements cs _ _ (remove_key-Implements api_key p table h)
    changed-Implements (rotating old_key new_key context ∷ cs) p table h =
        changed-Implements cs _ _ (rotate_key-Implements old_key new_key context p table h)

    -- Whatever keys are added, removed and rotated, a provider that starts with none authenticates
    -- as a table of the raw keys would: with the context that the key has in the table, and with
    -- none for a key that is not there and for the empty key, if no two keys share a fingerprint.
    pub authenticate-intended :
        (cs : List Change) (api_key : String)
        → authenticate fingerprint api_key (changed cs (record { fingerprints = [] }))
          ≡ (if is_empty api_key then none else lookup api_key (intended cs []))
    unfolding authenticate lookup
    authenticate-intended cs api_key =
        let same = changed-Implements cs (record { fingerprints = [] }) [] (λ k. refl) api_key in
        rw matching-lookup (rw same refl)
