-- ===== src/Dhcp/Pool/Expiry.antt =====
-- Time in the pool: what a reclaim drops, what it keeps, and when an offer finds no address.
use diskless.Base.{
  ℕ, ◌<◌, ◌≡◌, ◌≢◌, ◌↔◌, refl, true, false, none, some, List, [], ◌∷◌, arith, Text, Result, ok,
  raise, pool_exhausted, ◌==◌, list_eq, nat_eq, if◌then◌else◌, contains, leb, inl, inr,
  Option-cases, Bool-cases,
}
use diskless.Base.Dict.{Dict, lookup, insert, has_key, NodupKeys, lookup-insert, lookup-erase}
use diskless.Dhcp.Pool.{
  LeasePool, now, tick, release, release_each, reclaim_expired, expired_macs, first_free, extend,
  offer_from, offer, confirm, commit,
}
use diskless.Dhcp.Pool.Invariant.{
  IsConsistent, first_free-IsFree, offer-IsConsistent, commit-IsConsistent,
}

expired_absent :
    (t : ℕ) (mac : Text) (d : Dict Text ℕ)
    → lookup mac d ≡ none
    → contains (expired_macs t d) mac ≡ false
unfolding expired_macs lookup contains
expired_absent t mac [] h = refl
expired_absent t mac ((j, w) ∷ d) h = ground (arith, expired_absent t mac d)

expired_present :
    (t : ℕ) (mac : Text) (exp : ℕ) (d : Dict Text ℕ)
    → NodupKeys d
    → lookup mac d ≡ some exp
    → contains (expired_macs t d) mac ≡ leb exp t
unfolding expired_macs lookup contains
expired_present t mac exp [] u h = cc
expired_present t mac exp ((j, w) ∷ d) (fresh, u) h =
    ground (arith, expired_present t mac exp d u, expired_absent t mac d)

lookup-release :
    (mac m : Text) (p : LeasePool)
    → (lookup mac (release m p).mac_to_ip ≡ (if mac == m then none else lookup mac p.mac_to_ip))
      × (lookup mac (release m p).expires_at ≡ (if mac == m then none else lookup mac p.expires_at))
unfolding release
lookup-release mac m p =
    ground (arith, lookup-erase mac m p.mac_to_ip, lookup-erase mac m p.expires_at)

lookup-release_each :
    (mac : Text) (macs : List Text) (p : LeasePool)
    → (lookup mac (release_each macs p).mac_to_ip
        ≡ (if contains macs mac then none else lookup mac p.mac_to_ip))
      × (lookup mac (release_each macs p).expires_at
          ≡ (if contains macs mac then none else lookup mac p.expires_at))
unfolding release_each contains
lookup-release_each mac [] p = (refl, refl)
lookup-release_each mac (m ∷ macs) p =
    ground (arith, lookup-release_each mac macs (release m p), lookup-release mac m p)

-- A reclaim takes the address of a client exactly if its lease has run out at the reading of the
-- clock; every other client keeps its address and its expiry.
pub lookup-reclaim_expired :
    (mac : Text) {p : LeasePool} {exp : ℕ}
    → IsConsistent p
    → lookup mac p.expires_at ≡ some exp
    → (lookup mac (reclaim_expired p).mac_to_ip
        ≡ (if leb exp (now p) then none else lookup mac p.mac_to_ip))
      × (lookup mac (reclaim_expired p).expires_at ≡ (if leb exp (now p) then none else some exp))
unfolding reclaim_expired
lookup-reclaim_expired mac {p} {exp} h e = ground (
  arith,
  lookup-release_each mac (expired_macs (now p) p.expires_at) (tick p),
  expired_present (now p) mac exp p.expires_at h.distinct e,
)

taken_of_none :
    (ips : List Text) (taken : Dict Text Text) (ip : Text)
    → first_free ips taken ≡ none
    → contains ips ip ≡ true
    → lookup ip taken ≢ none
unfolding first_free has_key contains
taken_of_none [] taken ip e c = cc
taken_of_none (i ∷ ips) taken ip e c = ground (arith, taken_of_none ips taken ip)

none_of_taken :
    (ips : List Text) (taken : Dict Text Text)
    → ((ip : Text) → contains ips ip ≡ true → lookup ip taken ≢ none)
    → first_free ips taken ≡ none
none_of_taken ips taken all = elim (Option-cases (first_free ips taken)) [
  | inl e ↦ e
  | inr (ip, found) ↦
      let (listed, free) = first_free-IsFree ips taken ip found in absurd (all ip listed free)
]

raised_full :
    (mac : Text) (p : LeasePool)
    → (offer_from mac p).0 ≡ raise pool_exhausted
    → (lookup mac p.mac_to_ip ≡ none) × (first_free p.pool p.ip_to_mac ≡ none)
unfolding offer_from
raised_full mac p e = ground arith

raises_full :
    (mac : Text) (p : LeasePool)
    → lookup mac p.mac_to_ip ≡ none
    → first_free p.pool p.ip_to_mac ≡ none
    → (offer_from mac p).0 ≡ raise pool_exhausted
unfolding offer_from
raises_full mac p new full = ground arith

-- `offer` raises exactly if, after the reclaim, the client has no address and every address of the
-- pool is taken.
pub offer-eq-pool_exhausted :
    (mac : Text) (p : LeasePool)
    → ((offer mac p).0 ≡ raise pool_exhausted) ↔ (
        (lookup mac (reclaim_expired p).mac_to_ip ≡ none)
        × ((ip : Text)
            → contains (reclaim_expired p).pool ip ≡ true
            → lookup ip (reclaim_expired p).ip_to_mac ≢ none))
unfolding offer
offer-eq-pool_exhausted mac p =
    let q = reclaim_expired p in
    (
      λ e.
          let (new, full) = raised_full mac q e in
          (new, λ ip. taken_of_none q.pool q.ip_to_mac ip full),
      λ h. raises_full mac q h.0 (none_of_taken q.pool q.ip_to_mac h.1),
    )

-- The calls that the server makes.
pub data Call : Type 0 where
  discover : Text → Call
  request : Text → Call

abbrev pub client : Call → Text
client (discover mac) = mac
client (request mac) = mac

unfoldable pub step : Call → LeasePool → LeasePool
step (discover mac) p = (offer mac p).1
step (request mac) p = (commit mac p).1

abbrev pub run : List Call → LeasePool → LeasePool
run [] p = p
run (c ∷ cs) p = run cs (step c p)

-- Each of the calls is another client's, and begins before the time `exp`.
abbrev pub IsQuiet : Text → ℕ → List Call → LeasePool → Type 0
IsQuiet mac exp [] p = Unit
IsQuiet mac exp (c ∷ cs) p = (client c ≢ mac) × (now p < exp) × IsQuiet mac exp cs (step c p)

abbrev pub Holds : Text → Text → ℕ → LeasePool → Type 0
Holds mac ip exp p = (lookup mac p.mac_to_ip ≡ some ip) × (lookup mac p.expires_at ≡ some exp)

reclaim-Holds :
    (mac ip : Text) (exp : ℕ) {p : LeasePool}
    → IsConsistent p
    → now p < exp
    → Holds mac ip exp p
    → Holds mac ip exp (reclaim_expired p)
reclaim-Holds mac ip exp {p} h early held = ground (arith, lookup-reclaim_expired mac h held.1)

extend-Holds :
    (mac ip other : Text) (exp seconds : ℕ) (p : LeasePool)
    → other ≢ mac
    → Holds mac ip exp p
    → Holds mac ip exp (extend other seconds p)
unfolding extend
extend-Holds mac ip other exp seconds p ne held = simp lookup-insert (ground arith)

offer_from-Holds :
    (mac ip other : Text) (exp : ℕ) (p : LeasePool)
    → other ≢ mac
    → Holds mac ip exp p
    → Holds mac ip exp (offer_from other p).1
unfolding offer_from
offer_from-Holds mac ip other exp p ne held = elim (Option-cases (lookup other p.mac_to_ip)) [
  | inr (i, known) ↦
      rw (known, offer_from) (extend-Holds mac ip other exp p.offer_timeout_seconds p ne held)
  | inl new ↦ elim (Option-cases (first_free p.pool p.ip_to_mac)) [
    | inl full ↦ rw (new, full, offer_from) held
    | inr (i, found) ↦
        rw (new, found, offer_from)
          (extend-Holds mac ip other exp p.offer_timeout_seconds
            (record p {
              mac_to_ip = insert other i p.mac_to_ip;
              ip_to_mac = insert i other p.ip_to_mac;
            })
            ne (simp lookup-insert (ground arith)))
  ]
]

pub offer-Holds :
    (mac ip other : Text) (exp : ℕ) {p : LeasePool}
    → IsConsistent p
    → now p < exp
    → other ≢ mac
    → Holds mac ip exp p
    → Holds mac ip exp (offer other p).1
unfolding offer
offer-Holds mac ip other exp h early ne held =
    offer_from-Holds mac ip other exp _ ne (reclaim-Holds mac ip exp h early held)

confirm-Holds :
    (mac ip other : Text) (exp : ℕ) (r : Result Text) (p : LeasePool)
    → other ≢ mac
    → Holds mac ip exp p
    → Holds mac ip exp (confirm other (r, p)).1
unfolding confirm
confirm-Holds mac ip other exp (ok i) p ne held =
    extend-Holds mac ip other exp p.lease_seconds p ne held
confirm-Holds mac ip other exp (raise x) p ne held = held

pub commit-Holds :
    (mac ip other : Text) (exp : ℕ) {p : LeasePool}
    → IsConsistent p
    → now p < exp
    → other ≢ mac
    → Holds mac ip exp p
    → Holds mac ip exp (commit other p).1
unfolding commit
commit-Holds mac ip other exp {p} h early ne held =
    let anew =
      confirm-Holds mac ip other exp (offer other p).0 (offer other p).1 ne
        (offer-Holds mac ip other exp h early ne held) in
    elim (Option-cases (lookup other p.mac_to_ip)) [
      | inl new ↦ rw (new, commit) anew
      | inr (i, known) ↦ elim (Bool-cases (i == [])) [
        | inl empty ↦ rw (known, empty, commit) anew
        | inr full ↦ rw (known, full, commit) (confirm-Holds mac ip other exp (ok i) p ne held)
      ]
    ]

step-IsConsistent : (c : Call) {p : LeasePool} → IsConsistent p → IsConsistent (step c p)
unfolding step
step-IsConsistent (discover m) h = (offer-IsConsistent m h).0
step-IsConsistent (request m) h = (commit-IsConsistent m h).0

step-Holds :
    (mac ip : Text) (exp : ℕ) (c : Call) {p : LeasePool}
    → IsConsistent p
    → now p < exp
    → client c ≢ mac
    → Holds mac ip exp p
    → Holds mac ip exp (step c p)
unfolding step
step-Holds mac ip exp (discover m) h early ne = offer-Holds mac ip m exp h early ne
step-Holds mac ip exp (request m) h early ne = commit-Holds mac ip m exp h early ne

run-Holds :
    (mac ip : Text) (exp : ℕ) (cs : List Call) {p : LeasePool}
    → IsConsistent p
    → Holds mac ip exp p
    → IsQuiet mac exp cs p
    → Holds mac ip exp (run cs p) × IsConsistent (run cs p)
run-Holds mac ip exp [] h held quiet = (held, h)
run-Holds mac ip exp (c ∷ cs) h held quiet =
    run-Holds mac ip exp cs (step-IsConsistent c h) (step-Holds mac ip exp c h quiet.1 quiet.0 held)
      quiet.2

-- A client that holds an address of a consistent pool until `exp` has the same address and the
-- same expiry after any sequence of other clients' calls, each of which first reads the clock
-- before `exp`, and the address is still recorded as this client's.
pub run_protects :
    (mac ip : Text) (exp : ℕ) (cs : List Call) {p : LeasePool}
    → IsConsistent p
    → lookup mac p.mac_to_ip ≡ some ip
    → lookup mac p.expires_at ≡ some exp
    → IsQuiet mac exp cs p
    → (lookup mac (run cs p).mac_to_ip ≡ some ip)
      × (lookup mac (run cs p).expires_at ≡ some exp)
      × (lookup ip (run cs p).ip_to_mac ≡ some mac)
run_protects mac ip exp cs {p} h has until quiet =
    let (held, after) = run-Holds mac ip exp cs h (has, until) quiet in
    (held.0, held.1, after.mirror mac ip held.0)
