-- ===== src/Dhcp/Pool.antt =====
-- The address pool of src/diskless/bootd/dhcp_standalone.py: `LeasePool`. `clock` is the injected
-- clock: its nth reading is `clock n`, in whole seconds, and may go backwards.
pub mod Invariant
pub mod Expiry
use diskless.Base.{
  ℕ, suc, ◌+◌, Bool, Option, none, some, List, [], ◌∷◌, Text, Result, ok, raise, pool_exhausted,
  ◌==◌, list_eq, nat_eq, if◌then◌else◌, leb,
}
use diskless.Base.Dict.{Dict, lookup, insert, erase, has_key}

pub record LeasePool : Type 0 where
  pub pool : List Text
  pub mac_to_ip : Dict Text Text
  pub ip_to_mac : Dict Text Text
  pub expires_at : Dict Text ℕ
  pub lease_seconds : ℕ
  pub offer_timeout_seconds : ℕ
  pub clock : ℕ → ℕ
  pub readings : ℕ

-- `__init__`, for the host addresses that `ipaddress` lists.
unfoldable pub init : List Text → ℕ → ℕ → (ℕ → ℕ) → LeasePool
init hosts lease_seconds offer_timeout_seconds clock = record {
  pool = hosts;
  mac_to_ip = [];
  ip_to_mac = [];
  expires_at = [];
  lease_seconds = lease_seconds;
  offer_timeout_seconds = offer_timeout_seconds;
  clock = clock;
  readings = 0;
}

-- `self._clock()`: the reading, and the pool after it.
abbrev pub now : LeasePool → ℕ
now p = p.clock p.readings

abbrev pub tick : LeasePool → LeasePool
tick p = record p { readings = suc p.readings }

unfoldable pub release : Text → LeasePool → LeasePool
release client_mac p = elim (lookup client_mac p.mac_to_ip) [
  | none ↦ record p { expires_at = erase client_mac p.expires_at }
  | some ip ↦ record p {
    mac_to_ip = erase client_mac p.mac_to_ip;
    ip_to_mac = erase ip p.ip_to_mac;
    expires_at = erase client_mac p.expires_at;
  }
]

unfoldable pub expired_macs : ℕ → Dict Text ℕ → List Text
expired_macs t [] = []
expired_macs t ((mac, exp) ∷ d) =
    let rest = expired_macs t d in if leb exp t then mac ∷ rest else rest

unfoldable pub release_each : List Text → LeasePool → LeasePool
release_each [] p = p
release_each (mac ∷ macs) p = release_each macs (release mac p)

unfoldable pub reclaim_expired : LeasePool → LeasePool
reclaim_expired p = release_each (expired_macs (now p) p.expires_at) (tick p)

unfoldable pub first_free : List Text → Dict Text Text → Option Text
first_free [] taken = none
first_free (ip ∷ ips) taken = if has_key ip taken then first_free ips taken else some ip

-- `self._expires_at[client_mac] = self._clock() + seconds`
unfoldable pub extend : Text → ℕ → LeasePool → LeasePool
extend client_mac seconds p = record p {
  expires_at = insert client_mac (now p + seconds) p.expires_at;
  readings = suc p.readings;
}

-- `offer` after the reclaim.
unfoldable pub offer_from : Text → LeasePool → Result Text × LeasePool
unfolding extend first_free
offer_from client_mac p = elim (lookup client_mac p.mac_to_ip) [
  | some ip ↦ (ok ip, extend client_mac p.offer_timeout_seconds p)
  | none ↦ elim (first_free p.pool p.ip_to_mac) [
    | none ↦ (raise pool_exhausted, p)
    | some ip ↦ (
      ok ip,
      extend client_mac p.offer_timeout_seconds (record p {
        mac_to_ip = insert client_mac ip p.mac_to_ip;
        ip_to_mac = insert ip client_mac p.ip_to_mac;
      }),
    )
  ]
]

unfoldable pub offer : Text → LeasePool → Result Text × LeasePool
offer client_mac p = offer_from client_mac (reclaim_expired p)

confirm : Text → Result Text × LeasePool → Result Text × LeasePool
unfolding extend
confirm client_mac (ok ip, p) = (ok ip, extend client_mac p.lease_seconds p)
confirm client_mac (raise x, p) = (raise x, p)

-- An empty address is false, so that `or` goes on to `offer`.
unfoldable pub commit : Text → LeasePool → Result Text × LeasePool
unfolding confirm
commit client_mac p =
    let anew = offer client_mac p in
    elim (lookup client_mac p.mac_to_ip) [
      | none ↦ confirm client_mac anew
      | some ip ↦ if ip == [] then confirm client_mac anew else confirm client_mac (ok ip, p)
    ]
