-- ===== src/Web/Pairing.antt =====
-- The pairing of the sessions that the process holds with the locks in the database.
use diskless.Base.{ℕ, ◌≡◌, subst, true, nat_eq}
use diskless.Base.Dict.{has_key}
use diskless.Database.{Database}
use diskless.Orchestration.Lock
use diskless.Orchestration.Lock.Keys.{IsKeyed}
use diskless.Orchestration.Lifecycle.Profiles.{SameRows}
use diskless.Web.{World}

-- Every profile that this process edits is locked, and the ids of the profiles are a key.
pub record IsPaired (w : World) : Type 0 where
  pub locked : (i : ℕ) → has_key i w.admin_sessions ≡ true → Lock.is_locked i w.db ≡ true
  pub keyed : IsKeyed w.db

-- The lock reads the rows of the profiles only.
pub same_rows :
    (i : ℕ) (db db' : Database) → SameRows db db' → Lock.is_locked i db' ≡ Lock.is_locked i db
unfolding Lock.is_locked
same_rows i db db' e = rw e.0

pub same-IsKeyed : (db db' : Database) → SameRows db db' → IsKeyed db → IsKeyed db'
same-IsKeyed db db' e k = record { distinct = rw e.0 k.distinct; below = rw (e.0, e.1) k.below }

pub keep_pairs :
    (w w' : World)
    → w'.admin_sessions ≡ w.admin_sessions
    → ((i : ℕ) → Lock.is_locked i w.db ≡ true → Lock.is_locked i w'.db ≡ true)
    → IsKeyed w'.db
    → IsPaired w
    → IsPaired w'
keep_pairs w w' same kept keyed h = record {
  locked = λ i k. kept i (h.locked i (subst (λ d. has_key i d ≡ true) same k));
  keyed = keyed;
}

pub same_pairs :
    (w w' : World)
    → w'.admin_sessions ≡ w.admin_sessions
    → SameRows w.db w'.db
    → IsPaired w
    → IsPaired w'
same_pairs w w' same rows h =
    keep_pairs w w' same (λ i k. rw (same_rows i w.db w'.db rows) k)
      (same-IsKeyed w.db w'.db rows h.keyed) h
