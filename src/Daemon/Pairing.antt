-- ===== src/Daemon/Pairing.antt =====
-- Sessions and locks from the start of the daemon on.
use diskless.Base.{
  ℕ, refl, List, [], ◌∷◌, Text, Result, arith, list_eq, nat_eq, inl, inr, Result-cases,
}
use diskless.Base.Dict.{Dict, has_key, lookup}
use diskless.Base.Action.{Action, Keeps, if-Keeps}
use diskless.Config.{Config}
use diskless.Database.{Database}
use diskless.Machine.{Machine}
use diskless.Orchestration.Lock.Keys.{IsKeyed, release_all-IsKeyed}
use diskless.Orchestration.Host.{Host}
use diskless.Orchestration.Lifecycle.{reap_disconnected_sessions}
use diskless.Orchestration.Lifecycle.Profiles.{
  SameProfiles, build_sanboot_script-Same, reap_disconnected_sessions-Same, on_files-Same,
}
use diskless.Web.Pairing.{IsPaired, same_pairs}
use diskless.Web.Updates.{Running, host_of}
use diskless.Web.Cookie.{Signer}
use diskless.Web.Routes.Pairing.{serve-IsPaired}
use diskless.Daemon.{
  Event, asks, loads, reaps, start, on_host, resolve_payload, on_event, run, life,
}

module _ {K : Type 0} (os : Machine K) (cfg : Config) where
  on_host-IsPaired :
      {A : Type 0} (act : Action (Host K) A) (r : Running K)
      → Keeps (SameProfiles r.world.db) act
      → IsPaired r.world
      → IsPaired (on_host act r).1.world
  unfolding on_host
  on_host-IsPaired act r kept h = same_pairs r.world _ refl (kept.after (host_of r) (refl, refl)) h

  resolve_payload-Same :
      (before : Database) (at filename : Text)
      → Keeps (SameProfiles before) (resolve_payload os cfg at filename)
  unfolding resolve_payload
  resolve_payload-Same before at filename =
      if-Keeps _ _ _ (on_files-Same before _) (build_sanboot_script-Same before os cfg at _)

module _ {K : Type 0} (os : Machine K) (signer : Signer) (cfg : Config) where
  on_event-IsPaired :
      (event : Event) (r : Running K)
      → IsPaired r.world
      → IsPaired (on_event os signer cfg event r).world
  unfolding on_event
  on_event-IsPaired (asks now route args cookie) r h =
      serve-IsPaired os cfg signer now route args cookie r h
  on_event-IsPaired (loads at filename) r h =
      on_host-IsPaired os cfg (resolve_payload os cfg at filename) r
        (resolve_payload-Same os cfg r.world.db at filename) h
  on_event-IsPaired (reaps at) r h =
      on_host-IsPaired os cfg (reap_disconnected_sessions os cfg at) r
        (reap_disconnected_sessions-Same r.world.db os cfg at) h

  run-IsPaired :
      (events : List Event) (r : Running K)
      → IsPaired r.world
      → IsPaired (run os signer cfg events r).world
  unfolding run
  run-IsPaired [] r h = h
  run-IsPaired (event ∷ events) r h =
      run-IsPaired events (on_event os signer cfg event r) (on_event-IsPaired event r h)

started-IsPaired :
    {K : Type 0} (hosts : Text → Result (List Text)) (fds : Dict Text ℕ) (cfg : Config)
    (r : Running K)
    → IsKeyed r.world.db
    → IsPaired (start hosts fds cfg r).1.world
unfolding start has_key lookup
started-IsPaired hosts fds cfg r keyed = record {
  locked = λ i held. ground (arith, held);
  keyed = release_all-IsKeyed r.world.db keyed;
}

-- From a database in which the ids of the profiles are a key, whatever configuration and descriptors
-- there are, and however the requests of the web, the files that TFTP clients ask for and the rounds
-- of the reaper follow one another after the start: every profile that the process edits is locked, and
-- the ids are a key.
pub life-IsPaired :
    {K : Type 0} (os : Machine K) (signer : Signer) (hosts : Text → Result (List Text))
    (fds : Dict Text ℕ) (cfg : Config) (events : List Event) (r : Running K)
    → IsKeyed r.world.db
    → IsPaired (life os signer hosts fds cfg events r).world
unfolding life
life-IsPaired os signer hosts fds cfg events r keyed =
    let begun = started-IsPaired hosts fds cfg r keyed in
    elim (Result-cases (start hosts fds cfg r).0) [
      | inl (x, failed) ↦ rw (failed, life) begun
      | inr (cfg', went) ↦
          rw (went, life) (run-IsPaired os signer cfg' events (start hosts fds cfg r).1 begun)
    ]
