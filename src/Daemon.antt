-- ===== src/Daemon.antt =====
-- The daemon: src/diskless/bootd/main.py with the descriptors of src/diskless/bootd/systemd_sockets.py and the
-- payloads that src/diskless/bootd/tftp.py resolves in its workers. What happens after the start is a
-- sequence of events; the reactor's listening on ports is left out.
pub mod Pairing
use diskless.Base.{
  ℕ, suc, Bool, true, false, ◌&&◌, ◌||◌, not, Option, none, some, List, [], ◌∷◌, Text, Bytes, codes,
  split, Result, ok, raise, ◌>>◌, runtime_error, value_error, ◌==◌, list_eq, nat_eq, eqb,
  if◌then◌else◌,
}
use diskless.Base.Dict.{Dict, insert, has_key}
use diskless.Base.Action.{Action, within, reads}
use diskless.Config.{Config, apply_db_overrides, require_cookie_secret}
use diskless.Dhcp.Server.{ip_to_bytes, proxy_init}
use diskless.Machine.{Machine}
use diskless.Models.{join_path}
use diskless.Orchestration.Lock.{release_all}
use diskless.Orchestration.Host.{Host, on_files, content}
use diskless.Orchestration.Session.{path_name}
use diskless.Orchestration.Lifecycle.{build_sanboot_script, reap_disconnected_sessions}
use diskless.Web.{Args, WebSession, World}
use diskless.Web.Updates.{Running, host_of, with_host}
use diskless.Web.Cookie.{Signer}
use diskless.Web.Routes.{Route, serve}

-- `{name: FIRST_SYSTEMD_FD + i for i, name in enumerate(names)}`, from `fd` on
fds_from : ℕ → List Text → Dict Text ℕ → Dict Text ℕ
fds_from fd [] fds = fds
fds_from fd (name ∷ names) fds = fds_from (suc fd) names (insert name fd fds)

unfoldable pub systemd_fds_by_name : Text → Dict Text ℕ
unfolding fds_from
systemd_fds_by_name listen_fdnames =
    if listen_fdnames == [] then [] else fds_from 3 (split b':' listen_fdnames) []

-- Whether a descriptor that the DHCP mode needs is missing.
is_missing : Config → Dict Text ℕ → Bool
is_missing cfg fds =
    not (has_key (codes "tftp") fds)
    || ((cfg.dhcp_mode == codes "standalone") && not (has_key (codes "dhcp") fds))

-- What may end the start in `_start_dhcp_tftp`: a descriptor that is missing, a pool or a server's address
-- that cannot be read, another mode. `hosts` is `ipaddress`'s list of a network's hosts.
unfoldable pub start_dhcp_tftp :
    (Text → Result (List Text)) → Config → Dict Text ℕ → Result (Unit {0})
unfolding is_missing
start_dhcp_tftp hosts cfg fds =
    if is_missing cfg fds
    then raise runtime_error
    else if cfg.dhcp_mode == codes "standalone"
    then hosts cfg.dhcp_standalone_lease_pool >> ip_to_bytes cfg.iscsi_portal_ip >> ok tt
    else if cfg.dhcp_mode == codes "proxy"
    then proxy_init cfg.iscsi_portal_ip cfg.dhcp_boot_filename >> ok tt
    else raise value_error

-- `path.stem` of a name: what is before its last dot, unless that is the first or last character.
before_dot : Text → Option Text
before_dot [] = none
before_dot (c ∷ s) = elim (before_dot s) [
  | some t ↦ some (c ∷ t)
  | none ↦ if eqb c b'.' then some [] else none
]

ends_with : Text → Text → Bool
ends_with suffix [] = suffix == []
ends_with suffix (c ∷ s) = (suffix == c ∷ s) || ends_with suffix s

unfoldable pub stem : Text → Text
unfolding before_dot ends_with
stem name = elim (before_dot name) [
  | none ↦ name
  | some [] ↦ name
  | some (c ∷ front) ↦ if ends_with (codes ".") name then name else c ∷ front
]

-- The process before its first event: the stored settings count, and every lock is given back.
unfoldable pub start :
    {K : Type 0} → (Text → Result (List Text)) → Dict Text ℕ → Config → Action (Running K) Config
unfolding start_dhcp_tftp
start hosts fds cfg r =
    let cfg' = apply_db_overrides cfg r.world.db in
    (
      start_dhcp_tftp hosts cfg' fds >> require_cookie_secret cfg' >> ok cfg',
      record r { world = record r.world { db = (release_all r.world.db).1; admin_sessions = [] } },
    )

pub data Event : Type 0 where
  asks : ℕ → Route → Args → Option Bytes → Event
  loads : Text → Text → Event
  reaps : Text → Event

unfoldable pub on_host : {K A : Type 0} → Action (Host K) A → Action (Running K) A
unfolding within
on_host = within host_of with_host

module _ {K : Type 0} (os : Machine K) (cfg : Config) where
  -- `_resolve_payload`: a file of the TFTP root, or the script of a client whose MAC names the file.
  unfoldable pub resolve_payload : Text → Text → Action (Host K) Bytes
  unfolding ends_with stem
  resolve_payload at filename =
      if ends_with (codes ".kpxe") filename || ends_with (codes ".efi") filename
      then on_files (reads (content (join_path cfg.tftp_root filename)))
      else build_sanboot_script os cfg at (stem (path_name filename))

module _ {K : Type 0} (os : Machine K) (signer : Signer) (cfg : Config) where
  -- A request of the web, a file that a TFTP client asks for, a round of the reaper.
  unfoldable pub on_event : Event → Running K → Running K
  unfolding on_host resolve_payload
  on_event (asks now route args cookie) r = (serve os cfg signer now route args cookie r).1
  on_event (loads at filename) r = (on_host (resolve_payload os cfg at filename) r).1
  on_event (reaps at) r = (on_host (reap_disconnected_sessions os cfg at) r).1

  unfoldable pub run : List Event → Running K → Running K
  unfolding on_event
  run [] r = r
  run (event ∷ events) r = run events (on_event event r)

-- A start and the events after it; a start that raises has none.
unfoldable pub life :
    {K : Type 0}
    → Machine K
    → Signer
    → (Text → Result (List Text))
    → Dict Text ℕ
    → Config
    → List Event
    → Running K
    → Running K
unfolding start run
life os signer hosts fds cfg events r =
    let (outcome, r') = start hosts fds cfg r in
    elim outcome [ raise x ↦ r' | ok cfg' ↦ run os signer cfg' events r' ]
