-- ===== src/Examples/Access.antt =====
-- The scope, visibility and attestation theorems at concrete callers.
use skrun.Base.{◌≡◌, refl, none, some, ◌⊎◌, string_discrete, ℕ_discrete, string_eq}
use skrun.Schema.{UserContext, KeyContext}
use skrun.Access.KeyScope.{is_master_credential, set_of}
use skrun.Access.Master.{IsFullKey, master_iff}
use skrun.Examples.{with_key, full_key}

abbrev eve : UserContext
eve = record (with_key full_key) { id = "u2"; username = "eve"; namespace = "eve"; key = none }

master_iff_example :
    (with_key full_key).key ≡ none
    ⊎ ((key : KeyContext) × ((with_key full_key).key ≡ some key) × IsFullKey key)
unfolding is_master_credential set_of string_discrete ℕ_discrete
master_iff_example = (master_iff (with_key full_key)).0 refl
