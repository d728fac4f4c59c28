-- ===== src/Base/Perms.antt =====
-- Accounts that are kept step by step, as permutations.
use mathlib.Core.List.{List, ◌++◌, Perm, perm_append_comm, append_assoc}
use mathlib.Core.List.Perm

-- What came in and what was there is what went out and what is there; two such steps add up.
pub perm_account {ℓ} :
    {A : Type ℓ} (s s' o o' a b c : List A)
    → Perm (s ++ a) (o ++ b)
    → Perm (s' ++ b) (o' ++ c)
    → Perm ((s ++ s') ++ a) ((o ++ o') ++ c)
perm_account s s' o o' a b c h k = Perm.trans (Perm.append_right a (perm_append_comm s s')) (
    rw append_assoc (
      Perm.trans (Perm.append_left s' h) (
        rw (← append_assoc) (
          Perm.trans (Perm.append_right b (perm_append_comm s' o))
            (rw (append_assoc, append_assoc) (Perm.append_left o k))))))
