-- ===== src/Preflight/Judged.antt =====
-- What a host that passes its checks is.
use Prim.Native.String.{String}
use proxyctl.Prelude.{
  ℕ, ◌≡◌, ◌≢◌, ◌↔◌, inl, inr, refl, ◌%◌, arith, Bool, true, false, not, ◌&&◌, ◌||◌, List, [], ◌∷◌,
  Option, none, All, all, Bool-cases, Option-cases,
}
use proxyctl.Text.{Text, codes, equal, trim_space}
use proxyctl.Text.Laws.{equal_iff}
use proxyctl.Net.Ip.{Addr, parse_addr}
use proxyctl.Preflight.Probe.{not_failed, Listener, IdentityFacts, fail_if}
use proxyctl.Preflight.Host.{
  Reservation, role_reservations, same_pair, conflict, scan_listeners, judge_identity,
  expected_service_account, expected_runtime_dir_mode,
}

-- The service account, not root, with a directory that is its own and closed to all others.
unfoldable pub Confined : IdentityFacts → Type 0
Confined f =
    (f.name ≡ expected_service_account)
    × (f.uid ≢ 0)
    × (f.gid ≢ 0)
    × (f.dir_missing ≡ false)
    × (f.dir_mode % 512 ≡ expected_runtime_dir_mode)
    × (f.dir_uid ≡ f.uid)
    × (f.dir_gid ≡ f.gid)

pub fail_if-none :
    (b : Bool) (d : String) (next : Option String)
    → fail_if b d next ≡ none
    → (b ≡ false) × (next ≡ none)
fail_if-none true d next h = cc
fail_if-none false d next h = (refl, h)

pub judge_identity-Confined : (f : IdentityFacts) → (judge_identity f ≡ none) ↔ Confined f
unfolding judge_identity Confined
judge_identity-Confined f = ground (arith, equal_iff f.name expected_service_account)

conflict-none :
    (proto : Text) (port : ℕ) (addr : Option Addr) (rs : List Reservation)
    → conflict proto port addr rs ≡ none
    → All (λ r. same_pair proto port r ≡ false) rs
unfolding conflict
conflict-none proto port addr [] h = tt
conflict-none proto port addr (r ∷ rs) h = ground (arith, conflict-none proto port addr rs)

conflict-free :
    (proto : Text) (port : ℕ) (addr : Option Addr) (rs : List Reservation)
    → All (λ r. same_pair proto port r ≡ false) rs
    → conflict proto port addr rs ≡ none
unfolding conflict
conflict-free proto port addr [] h = refl
conflict-free proto port addr (r ∷ rs) h = rw h.0 (conflict-free proto port addr rs h.1)

-- No listener stands on a pair that is reserved.
unfoldable pub NoConflict : (Text → Text) → Text → List Listener → Type 0
NoConflict to_lower role =
    All (λ l. All (λ r. same_pair (to_lower l.protocol) l.port r ≡ false) (role_reservations role))

abbrev tcp_or_udp : List Reservation → Bool
tcp_or_udp = all (λ r. equal r.proto (codes "tcp") || equal r.proto (codes "udp"))

reserves_tcp_udp : (role : Text) → tcp_or_udp (role_reservations role) ≡ true
unfolding role_reservations
reserves_tcp_udp role = elim (Bool-cases (equal role (codes "gateway"))) [
  | inl e ↦ rw e refl
  | inr e ↦ elim (Bool-cases (equal role (codes "egress"))) [
    | inl f ↦ rw (e, f) refl
    | inr f ↦ rw (e, f) refl
  ]
]

other_protocol :
    (proto : Text) (port : ℕ) (rs : List Reservation)
    → (not (equal proto (codes "tcp")) && not (equal proto (codes "udp"))) ≡ true
    → tcp_or_udp rs ≡ true
    → All (λ r. same_pair proto port r ≡ false) rs
unfolding same_pair
other_protocol proto port [] n h = tt
other_protocol proto port (r ∷ rs) n h = ground (
  arith,
  equal_iff r.proto proto,
  equal_iff r.proto (codes "tcp"),
  equal_iff r.proto (codes "udp"),
  equal_iff proto (codes "tcp"),
  equal_iff proto (codes "udp"),
  other_protocol proto port rs,
)

-- The scan of the listeners does not fail exactly when no listener's protocol, in lower case,
-- and port are a pair that the role reserves.
pub scan_listeners-NoConflict :
    (to_lower : Text → Text) (role : Text) (ls : List Listener)
    → (not_failed (scan_listeners to_lower role ls) ≡ true) ↔ NoConflict to_lower role ls
unfolding scan_listeners NoConflict
scan_listeners-NoConflict to_lower role [] = (λ _. tt, λ _. refl)
scan_listeners-NoConflict to_lower role (l ∷ ls) =
    let later = scan_listeners-NoConflict to_lower role ls in
    let proto = to_lower l.protocol in
    elim (Bool-cases (not (equal proto (codes "tcp")) && not (equal proto (codes "udp")))) [
      | inl e ↦ rw e (
        λ h. (
          other_protocol proto l.port (role_reservations role) e (reserves_tcp_udp role),
          later.0 h,
        ),
        λ h. later.1 h.1,
      )
      | inr e ↦
          elim (Option-cases
            (conflict proto l.port (parse_addr (trim_space l.address)) (role_reservations role))) [
              | inl n ↦
                  rw (e, n)
                    (
                      λ h. (
                        conflict-none proto l.port (parse_addr (trim_space l.address))
                            (role_reservations role) n,
                        later.0 h,
                      ),
                      λ h. later.1 h.1,
                    )
              | inr (d, f) ↦
                  rw (e, f)
                    (
                      λ h. cc,
                      λ h.
                          let free =
                            conflict-free proto l.port (parse_addr (trim_space l.address))
                              (role_reservations role) h.0 in
                          cc,
                    )
            ]
    ]
