-- ===== src/PrivHelper/Whitelist.antt =====
-- What a request can make the helper do.
use diskless.Base.{
  ◌≡◌, refl, Bool, true, Option, none, some, List, [], ◌∷◌, Text, codes, raise, list_eq, nat_eq,
  contains, inl, inr, Option-cases, arith, key_error, value_error,
}
use diskless.Base.Dict.{lookup}
use diskless.Base.Action.{Action, Keeps, lift-Keeps, lift, keeps_rules}
use diskless.Machine.{Machine}
use diskless.PrivHelper.{
  Json, Args, Request, error, attach_loop, detach_loop, create_snapshot, sector_count,
  remove_snapshot, allowed_ops, args_of, perform, handle, losetup,
}

abbrev pub IsCommand : List Text → Type 0
IsCommand [] = ⊥
IsCommand (program ∷ words) =
    contains (codes "losetup" ∷ codes "blockdev" ∷ codes "dmsetup" ∷ []) program ≡ true

module _ {K : Type 0} (os : Machine K) (P : K → Type 0)
    (runs : (words : List Text) → IsCommand words → Keeps P (os.run words)) where
  losetup_runs : (readonly : Bool) (path : Text) → Keeps P (os.run (losetup readonly path))
  unfolding losetup contains list_eq nat_eq
  losetup_runs readonly path = runs (losetup readonly path) refl

  losetup_word : (words : List Text) → Keeps P (os.run (codes "losetup" ∷ words))
  unfolding contains list_eq nat_eq
  losetup_word words = runs _ refl

  blockdev_word : (words : List Text) → Keeps P (os.run (codes "blockdev" ∷ words))
  unfolding contains list_eq nat_eq
  blockdev_word words = runs _ refl

  dmsetup_word : (words : List Text) → Keeps P (os.run (codes "dmsetup" ∷ words))
  unfolding contains list_eq nat_eq
  dmsetup_word words = runs _ refl

  ruleset runs_rules = (keeps_rules, losetup_runs, losetup_word, blockdev_word, dmsetup_word)

  attach_loop-Keeps : (args : Args) → Keeps P (attach_loop os args)
  unfolding attach_loop
  attach_loop-Keeps args = search runs_rules

  detach_loop-Keeps : (args : Args) → Keeps P (detach_loop os args)
  unfolding detach_loop
  detach_loop-Keeps args = search runs_rules

  sector_count-Keeps : (dev : Json) → Keeps P (sector_count os dev)
  unfolding sector_count
  sector_count-Keeps dev = search runs_rules

  create_snapshot-Keeps : (args : Args) → Keeps P (create_snapshot os args)
  unfolding create_snapshot
  create_snapshot-Keeps args = search (runs_rules, sector_count-Keeps) depth 12

  remove_snapshot-Keeps : (args : Args) → Keeps P (remove_snapshot os args)
  unfolding remove_snapshot
  remove_snapshot-Keeps args = search runs_rules

  one_of-Keeps :
      (op : Text) (args : Args) {act : Args → Action K Json}
      → lookup op (allowed_ops os) ≡ some act
      → Keeps P (act args)
  unfolding allowed_ops lookup
  one_of-Keeps op args found = ground (
    arith,
    attach_loop-Keeps args,
    detach_loop-Keeps args,
    create_snapshot-Keeps args,
    remove_snapshot-Keeps args,
  )

  perform-Keeps : (req : Option Request) → Keeps P (perform os req)
  unfolding perform
  perform-Keeps none = lift-Keeps (raise value_error)
  perform-Keeps (some req) = elim (Option-cases req.op) [
    | inl absent ↦ rw (absent, perform) (lift-Keeps (raise key_error))
    | inr (op, given) ↦ elim (Option-cases (lookup op (allowed_ops os))) [
      | inl unknown ↦ rw (given, unknown, perform) (lift-Keeps (raise value_error))
      | inr (act, found) ↦ rw (given, found, perform) (one_of-Keeps op (args_of req) found)
    ]
  ]

-- Whatever a request asks for, the helper runs no program but `losetup`, `blockdev` and `dmsetup`:
-- what these three keep true of the machine is true after any request.
pub handle-Keeps :
    {K : Type 0} (os : Machine K) (P : K → Type 0) (req : Option Request) (k : K)
    → ((words : List Text) → IsCommand words → Keeps P (os.run words))
    → P k
    → P (handle os req k).1
unfolding handle
handle-Keeps os P req k runs held = (perform-Keeps os P runs req).after k held

-- A request for an operation that is not on the list is answered with an error, and nothing is run.
pub handle_refuses :
    {K : Type 0} (os : Machine K) (req : Request) (op : Text) (k : K)
    → req.op ≡ some op
    → lookup op (allowed_ops os) ≡ none
    → handle os (some req) k ≡ (error (os.str value_error), k)
unfolding handle perform lift
handle_refuses os req op k given unknown = ground (arith, given, unknown)
