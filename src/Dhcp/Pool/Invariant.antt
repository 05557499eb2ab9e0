-- ===== src/Dhcp/Pool/Invariant.antt =====
-- The two dicts of a pool mirror each other, and every operation keeps that.
use diskless.Base.{
  ℕ, ◌≡◌, refl, true, none, some, List, [], ◌∷◌, arith, Text, Result, ok, raise, ◌==◌, list_eq,
  nat_eq, contains, inl, inr, Option-cases, Bool-cases,
}
use diskless.Base.Dict.{
  Dict, lookup, insert, has_key, NodupKeys, lookup-insert, lookup-erase, insert-NodupKeys,
  erase-NodupKeys,
}
use diskless.Dhcp.Pool.{
  LeasePool, init, release, release_each, reclaim_expired, first_free, extend, offer_from, offer,
  confirm, commit,
}

-- A client has an address exactly if the address has the client, and every address that a client
-- has is of the pool and not empty.
pub record IsConsistent (p : LeasePool) : Type 0 where
  pub mirror : (mac ip : Text) → lookup mac p.mac_to_ip ≡ some ip → lookup ip p.ip_to_mac ≡ some mac
  pub mirror_back :
      (mac ip : Text) → lookup ip p.ip_to_mac ≡ some mac → lookup mac p.mac_to_ip ≡ some ip
  pub known : (mac ip : Text) → lookup mac p.mac_to_ip ≡ some ip → contains p.pool ip ≡ true
  pub timed : (mac : Text) → lookup mac p.mac_to_ip ≡ none → lookup mac p.expires_at ≡ none
  pub dated : (mac : Text) → lookup mac p.expires_at ≡ none → lookup mac p.mac_to_ip ≡ none
  pub distinct : NodupKeys p.expires_at

pub init-IsConsistent :
    (hosts : List Text) (lease timeout : ℕ) (clock : ℕ → ℕ)
    → IsConsistent (init hosts lease timeout clock)
unfolding init lookup
init-IsConsistent hosts lease timeout clock = record {
  mirror = λ mac ip e. cc;
  mirror_back = λ mac ip e. cc;
  known = λ mac ip e. cc;
  timed = λ mac e. refl;
  dated = λ mac e. refl;
  distinct = tt;
}

pub release-IsConsistent :
    (mac : Text) {p : LeasePool} → IsConsistent p → IsConsistent (release mac p)
unfolding release
release-IsConsistent mac {p} h = elim (Option-cases (lookup mac p.mac_to_ip)) [
  | inl free ↦
      rw (free, release)
        (record {
          mirror = h.mirror;
          mirror_back = h.mirror_back;
          known = h.known;
          timed = λ m e. rw lookup-erase (ground (arith, h.timed m));
          dated = λ m. simp lookup-erase (ground (arith, h.dated m));
          distinct = erase-NodupKeys mac p.expires_at h.distinct;
        })
  | inr (ip, held) ↦
      rw (held, release)
        (record {
          mirror = λ m i. simp lookup-erase (ground (arith, h.mirror m i, h.mirror mac ip));
          mirror_back = λ m i.
              simp lookup-erase
                (ground (arith, h.mirror_back m i, h.mirror_back mac ip, h.mirror mac ip));
          known = λ m i. simp lookup-erase (ground (arith, h.known m i));
          timed = λ m. simp lookup-erase (ground (arith, h.timed m));
          dated = λ m. simp lookup-erase (ground (arith, h.dated m));
          distinct = erase-NodupKeys mac p.expires_at h.distinct;
        })
]

release_each-IsConsistent :
    (macs : List Text) {p : LeasePool} → IsConsistent p → IsConsistent (release_each macs p)
unfolding release_each
release_each-IsConsistent [] h = h
release_each-IsConsistent (mac ∷ macs) h =
    release_each-IsConsistent macs (release-IsConsistent mac h)

pub reclaim_expired-IsConsistent :
    {p : LeasePool} → IsConsistent p → IsConsistent (reclaim_expired p)
unfolding reclaim_expired
reclaim_expired-IsConsistent {p} h = release_each-IsConsistent _ (record {
  mirror = h.mirror;
  mirror_back = h.mirror_back;
  known = h.known;
  timed = h.timed;
  dated = h.dated;
  distinct = h.distinct;
})

-- The address that the search finds is of the pool, and nobody has it.
pub first_free-IsFree :
    (ips : List Text) (taken : Dict Text Text) (ip : Text)
    → first_free ips taken ≡ some ip
    → (contains ips ip ≡ true) × (lookup ip taken ≡ none)
unfolding first_free has_key contains
first_free-IsFree [] taken ip e = cc
first_free-IsFree (i ∷ ips) taken ip e = ground (arith, first_free-IsFree ips taken ip)

-- A client that has an address keeps it, with a new expiry.
extend-IsConsistent :
    (mac ip : Text) (seconds : ℕ) {p : LeasePool}
    → lookup mac p.mac_to_ip ≡ some ip
    → IsConsistent p
    → IsConsistent (extend mac seconds p)
unfolding extend
extend-IsConsistent mac ip seconds {p} held h = record {
  mirror = h.mirror;
  mirror_back = h.mirror_back;
  known = h.known;
  timed = λ m. simp lookup-insert (ground (arith, h.timed m));
  dated = λ m. simp lookup-insert (ground (arith, h.dated m));
  distinct = insert-NodupKeys mac _ p.expires_at h.distinct;
}

-- A free address is given to a client that has none.
assign-IsConsistent :
    (mac ip : Text) (seconds : ℕ) {p : LeasePool}
    → lookup mac p.mac_to_ip ≡ none
    → lookup ip p.ip_to_mac ≡ none
    → contains p.pool ip ≡ true
    → IsConsistent p
    → IsConsistent (
        extend mac seconds (record p {
          mac_to_ip = insert mac ip p.mac_to_ip;
          ip_to_mac = insert ip mac p.ip_to_mac;
        }))
unfolding extend
assign-IsConsistent mac ip seconds {p} new free listed h = record {
  mirror = λ m i. simp lookup-insert (ground (arith, h.mirror m i));
  mirror_back = λ m i. simp lookup-insert (ground (arith, h.mirror_back m i));
  known = λ m i. simp lookup-insert (ground (arith, h.known m i));
  timed = λ m. simp lookup-insert (ground (arith, h.timed m));
  dated = λ m. simp lookup-insert (ground (arith, h.dated m));
  distinct = insert-NodupKeys mac _ p.expires_at h.distinct;
}

offer_from-IsConsistent :
    (mac : Text) {p : LeasePool} → IsConsistent p → IsConsistent (offer_from mac p).1
unfolding offer_from
offer_from-IsConsistent mac {p} h = elim (Option-cases (lookup mac p.mac_to_ip)) [
  | inr (ip, held) ↦
      rw (held, offer_from) (extend-IsConsistent mac ip p.offer_timeout_seconds held h)
  | inl new ↦ elim (Option-cases (first_free p.pool p.ip_to_mac)) [
    | inl full ↦ rw (new, full, offer_from) h
    | inr (ip, found) ↦
        let (listed, free) = first_free-IsFree p.pool p.ip_to_mac ip found in
        rw (new, found, offer_from)
          (assign-IsConsistent mac ip p.offer_timeout_seconds new free listed h)
  ]
]

-- An address that is offered is the one that the pool records for the client.
offer_from-eq-ok :
    (mac ip : Text) (p : LeasePool)
    → (offer_from mac p).0 ≡ ok ip
    → lookup mac (offer_from mac p).1.mac_to_ip ≡ some ip
unfolding offer_from
offer_from-eq-ok mac ip p e = elim (Option-cases (lookup mac p.mac_to_ip)) [
  | inr (i, held) ↦ rw (held, offer_from) (ground arith)
  | inl new ↦ elim (Option-cases (first_free p.pool p.ip_to_mac)) [
    | inl full ↦ rw (new, full, offer_from) (ground arith)
    | inr (i, found) ↦ rw (new, found, offer_from) (rw lookup-insert (ground arith))
  ]
]

pub offer-IsConsistent :
    (mac : Text) {p : LeasePool}
    → IsConsistent p
    → IsConsistent (offer mac p).1
      × ((ip : Text) → (offer mac p).0 ≡ ok ip → lookup ip (offer mac p).1.ip_to_mac ≡ some mac)
unfolding offer
offer-IsConsistent mac {p} h =
    let after = offer_from-IsConsistent mac (reclaim_expired-IsConsistent h) in
    (after, λ ip e. after.mirror mac ip (offer_from-eq-ok mac ip (reclaim_expired p) e))

confirm-IsConsistent :
    (mac : Text) (r : Result Text) (p : LeasePool)
    → IsConsistent p
    → ((ip : Text) → r ≡ ok ip → lookup mac p.mac_to_ip ≡ some ip)
    → IsConsistent (confirm mac (r, p)).1
      × ((ip : Text)
          → (confirm mac (r, p)).0 ≡ ok ip
          → lookup mac (confirm mac (r, p)).1.mac_to_ip ≡ some ip)
unfolding confirm
confirm-IsConsistent mac (ok ip) p h held =
    (extend-IsConsistent mac ip p.lease_seconds (held ip refl) h, λ i e. ground (arith, held i))
confirm-IsConsistent mac (raise x) p h held = (h, λ ip e. cc)

commit-holds :
    (mac : Text) {p : LeasePool}
    → IsConsistent p
    → IsConsistent (commit mac p).1
      × ((ip : Text) → (commit mac p).0 ≡ ok ip → lookup mac (commit mac p).1.mac_to_ip ≡ some ip)
unfolding commit offer
commit-holds mac {p} h =
    let anew =
      confirm-IsConsistent mac (offer mac p).0 (offer mac p).1 (offer-IsConsistent mac h).0
        (λ ip. offer_from-eq-ok mac ip (reclaim_expired p)) in
    elim (Option-cases (lookup mac p.mac_to_ip)) [
      | inl new ↦ rw (new, commit) anew
      | inr (ip, held) ↦ elim (Bool-cases (ip == [])) [
        | inl empty ↦ rw (held, empty, commit) anew
        | inr full ↦
            rw (held, full, commit)
              (confirm-IsConsistent mac (ok ip) p h (λ i e. ground (arith, held)))
      ]
    ]

pub commit-IsConsistent :
    (mac : Text) {p : LeasePool}
    → IsConsistent p
    → IsConsistent (commit mac p).1
      × ((ip : Text) → (commit mac p).0 ≡ ok ip → lookup ip (commit mac p).1.ip_to_mac ≡ some mac)
commit-IsConsistent mac {p} h =
    let (after, held) = commit-holds mac h in (after, λ ip e. after.mirror mac ip (held ip e))

-- `offer` on a consistent pool, where it returns an address, keeps the dicts of the pool mirrored,
-- and the address is of the pool and is recorded for this client in both dicts.
pub offer_assigns :
    (mac ip : Text) {p : LeasePool}
    → IsConsistent p
    → (offer mac p).0 ≡ ok ip
    → IsConsistent (offer mac p).1
      × (lookup mac (offer mac p).1.mac_to_ip ≡ some ip)
      × (lookup ip (offer mac p).1.ip_to_mac ≡ some mac)
      × (contains (offer mac p).1.pool ip ≡ true)
offer_assigns mac ip h e =
    let (after, named) = offer-IsConsistent mac h in
    let held = after.mirror_back mac ip (named ip e) in
    (after, held, named ip e, after.known mac ip held)

-- `commit` on a consistent pool, where it returns an address, keeps the dicts of the pool
-- mirrored, and the address is of the pool and is recorded for this client in both dicts.
pub commit_assigns :
    (mac ip : Text) {p : LeasePool}
    → IsConsistent p
    → (commit mac p).0 ≡ ok ip
    → IsConsistent (commit mac p).1
      × (lookup mac (commit mac p).1.mac_to_ip ≡ some ip)
      × (lookup ip (commit mac p).1.ip_to_mac ≡ some mac)
      × (contains (commit mac p).1.pool ip ≡ true)
commit_assigns mac ip h e =
    let (after, named) = commit-IsConsistent mac h in
    let held = after.mirror_back mac ip (named ip e) in
    (after, held, named ip e, after.known mac ip held)
