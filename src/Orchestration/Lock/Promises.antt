-- ===== src/Orchestration/Lock/Promises.antt =====
-- What the lock promises, without the table: each profile that exists has a holder or none; and the
-- calls of src/diskless/orchestration/lock.py in a row.
use diskless.Base.{
  ℕ, Bool, true, false, Option, none, some, List, [], ◌∷◌, Text, Result, ok, raise, lookup_error,
  profile_locked, if◌then◌else◌, eqb, contains, nat_eq,
}
use diskless.Database.{Database, ImageProfile, has_id, fetch_one}
use diskless.Orchestration.Lock.{acquire, release, is_locked, release_all}

-- For an id: no profile, a free one, or a holder.
abbrev pub Locks : Type 0
Locks = ℕ → Option (Option Text)

abbrev pub held : Option (Option Text) → Bool
held none = false
held (some none) = false
held (some (some user)) = true

abbrev pub freed : Option (Option Text) → Option (Option Text)
freed none = none
freed (some holder) = some none

-- The calls, and what each answers.
pub data Call : Type 0 where
  acquiring : ℕ → Text → Text → Call
  releasing asking : ℕ → Call
  releasing_all : Call

pub data Answer : Type 0 where
  raised_or_done : Result (Unit {0}) → Answer
  locked : Bool → Answer
  released : (ℕ → Bool) → Answer

unfoldable pub take_lock : ℕ → Text → Option (Option Text) → Locks → Answer × Locks
take_lock i user none l = (raised_or_done (raise lookup_error), l)
take_lock i user (some (some holder)) l = (raised_or_done (raise (profile_locked holder)), l)
take_lock i user (some none) l =
    (raised_or_done (ok tt), λ j. if eqb i j then some (some user) else l j)

-- The specification.
unfoldable pub promised : Call → Locks → Answer × Locks
unfolding take_lock
promised (acquiring i user at) l = take_lock i user (l i) l
promised (releasing i) l = (raised_or_done (ok tt), λ j. if eqb i j then freed (l j) else l j)
promised (asking i) l = (locked (held (l i)), l)
promised releasing_all l = (released (λ j. held (l j)), λ j. freed (l j))

-- The code; of the ids that `release_all` returns, which are among them.
unfoldable pub answered : Call → Database → Answer × Database
unfolding acquire release is_locked release_all
answered (acquiring i user at) db = let (r, db') = acquire i user at db in (raised_or_done r, db')
answered (releasing i) db = (raised_or_done (ok tt), release i db)
answered (asking i) db = (locked (is_locked i db), db)
answered releasing_all db = let (ids, db') = release_all db in (released (contains ids), db')

unfoldable pub promises : List Call → Locks → List Answer × Locks
promises [] l = ([], l)
promises (c ∷ cs) l =
    let (a, l') = promised c l in let (more, l'') = promises cs l' in (a ∷ more, l'')

unfoldable pub answers : List Call → Database → List Answer × Database
answers [] db = ([], db)
answers (c ∷ cs) db =
    let (a, db') = answered c db in let (more, db'') = answers cs db' in (a ∷ more, db'')

-- What the table says of the locks.
abbrev pub holder : Option ImageProfile → Option (Option Text)
holder none = none
holder (some row) = some row.locked_by

abbrev pub locks : Database → Locks
locks db j = holder (fetch_one (has_id j) db.image_profile)
