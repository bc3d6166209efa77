-- ===== src/Config/Accepted.antt =====
-- What a document that `Parse` accepts satisfies, in terms of the text that was read.
use proxyctl.Prelude.{
  ◌≡◌, ◌≢◌, ◌⊎◌, inl, inr, refl, true, false, ◌||◌, List, [], ◌∷◌, ◌++◌, none, some, All, arith,
  map, any, ◌==◌,
}
use proxyctl.Text.{Text, codes, equal, has_prefix, contains, split, trim_prefix, trim_suffix}
use proxyctl.Text.Laws.{contains-join, equal_iff}
use proxyctl.Safex.Codes.{ok, ◌>>◌, bind-eq-ok, all_of, all_of-map-eq-ok}
use proxyctl.Config.Document.{Role, role_text, Document, scalar, scalar_or_empty, is_placeholder}
use proxyctl.Config.Lines.{State, parse_lines}
use proxyctl.Config.Posture.{
  validate_network_posture, has_text, check_scalar, check_role, listens_everywhere, controller_host,
}
use proxyctl.Config.Validate.{validate, real_secret}
use proxyctl.Table.{All-lookup}
use proxyctl.Net.{cut_last}
use proxyctl.Config.Parse.{parse, start}
use proxyctl.Config.RawLines.{content_lines, raw_lines-parse_lines}

-- The conditions of `validate` that the theorems below rest on.
record Checked (role : Role) (d : Document) : Type 0 where
  schema : equal (scalar_or_empty (codes "schema") d) (codes "private-proxy/v1") ≡ true
  bound : equal (scalar_or_empty (codes "role") d) (role_text role) ≡ true
  secrets :
      (real_secret d (codes "gateway-egress-password")
        || real_secret d (codes "gateway-node-password"))
      ≡ false
  posture : validate_network_posture role d ≡ ok tt

validate-Checked : (role : Role) (d : Document) → validate role d ≡ ok tt → Checked role d
unfolding validate
validate-Checked role d h = ground arith

-- The parts of an accepted network posture.
record Postured (role : Role) (d : Document) : Type 0 where
  by_role : check_role role d ≡ ok tt
  by_scalar : all_of (map (check_scalar d) d.scalars) ≡ ok tt
  direct : has_text d "DIRECT" ≡ false
  skip_verify : has_text d "skip-cert-verify: true" ≡ false
  insecure : has_text d "insecure: true" ≡ false

validate_network_posture-Postured :
    (role : Role) (d : Document) → validate_network_posture role d ≡ ok tt → Postured role d
unfolding validate_network_posture
validate_network_posture-Postured role d h = ground arith

-- The state at the end of the lines, of a text that is accepted.
record Parsed (text : Text) (role : Role) (d : Document) : Type 0 where
  raw : d.raw_lines ≡ content_lines (split b'\n' text)
  checked : Checked role d
  postured : Postured role d

parse-Parsed :
    (text : Text) (role : Role) {d : Document} → parse text role ≡ ok d → Parsed text role d
unfolding parse
parse-Parsed text role {d} h =
    let lines = split b'\n' text in
    let (s, read, rest) =
      bind-eq-ok (parse_lines role lines (start role))
        (λ (s : State). validate role s.doc >> ok s.doc) h in
    let (u, valid, same) = bind-eq-ok (validate role s.doc) (λ _. ok s.doc) rest in
    let checked = validate-Checked role s.doc valid in
    let e : s.doc ≡ d = ground arith in
    rw (← e) (record {
      raw = raw_lines-parse_lines role lines (start role) read;
      checked = checked;
      postured = validate_network_posture-Postured role s.doc checked.posture;
    })

abbrev pub IsSafeLine : Text → Type 0
IsSafeLine t =
    (contains t (codes "DIRECT") ≡ false)
    × (contains t (codes "skip-cert-verify: true") ≡ false)
    × (contains t (codes "insecure: true") ≡ false)

abbrev IsSecure : Text → Type 0
IsSecure t =
    (contains t (codes "skip-cert-verify: true") ≡ false)
    × (contains t (codes "insecure: true") ≡ false)

All-zip {ℓ κ μ} :
    {A : Type ℓ} {P Q : A → Type κ} {R : A → Type μ} (f : (x : A) → P x → Q x → R x) (xs : List A)
    → All P xs
    → All Q xs
    → All R xs
All-zip f [] p q = tt
All-zip f (x ∷ xs) p q = (f x p.0 q.0, All-zip f xs p.1 q.1)

-- In an accepted text no line outside comments holds DIRECT, "skip-cert-verify: true" or
-- "insecure: true".
pub parse-IsSafeLine :
    (text : Text) (role : Role) {d : Document}
    → parse text role ≡ ok d
    → All IsSafeLine (content_lines (split b'\n' text))
unfolding has_text
parse-IsSafeLine text role {d} h =
    let p = parse-Parsed text role h in
    let q = p.postured in
    rw (← p.raw) (
      All-zip {Q = IsSecure} {R = IsSafeLine} (λ t a b. (a, b.0, b.1)) d.raw_lines
        (contains-join (codes "\n") (codes "DIRECT") d.raw_lines q.direct)
        (All-zip {R = IsSecure} (λ t a b. (a, b)) d.raw_lines
          (contains-join (codes "\n") (codes "skip-cert-verify: true") d.raw_lines q.skip_verify)
          (contains-join (codes "\n") (codes "insecure: true") d.raw_lines q.insecure)))

-- In an accepted document each of the two password fields, where it is there, is a placeholder.
pub parse-is_placeholder :
    (text : Text) (role : Role) {d : Document} (v : Text)
    → parse text role ≡ ok d
    → (scalar (codes "gateway-egress-password") d ≡ some v)
      ⊎ (scalar (codes "gateway-node-password") d ≡ some v)
    → is_placeholder v ≡ true
unfolding real_secret scalar
parse-is_placeholder text role {d} v h f =
    let c = (parse-Parsed text role h).checked in ground (arith, c.secrets)

-- In an accepted document a mixed port of 7890 comes with the loopback bind address.
pub parse-mixed_port :
    (text : Text) (role : Role) {d : Document}
    → parse text role ≡ ok d
    → scalar (codes "mixed-port") d ≡ some (codes "7890")
    → scalar_or_empty (codes "bind-address") d ≡ codes "127.0.0.1"
unfolding scalar check_scalar
parse-mixed_port text role {d} h e =
    let q = (parse-Parsed text role h).postured in
    let checks = all_of-map-eq-ok (check_scalar d) d.scalars q.by_scalar in
    let one =
      All-lookup (λ kv. check_scalar d kv ≡ ok tt) (codes "mixed-port") d.scalars checks e in
    (equal_iff (scalar_or_empty (codes "bind-address") d) (codes "127.0.0.1")).0
      (unfold equal in ground arith)

cut_last-none : (port : Text) → any (λ c. c == b':') port ≡ false → cut_last b':' port ≡ none
unfolding cut_last
cut_last-none [] h = refl
cut_last-none (c ∷ port) h = ground (arith, cut_last-none port)

-- The last colon of `host:port` is the one between the two.
cut_last-append :
    (host port : Text)
    → any (λ c. c == b':') port ≡ false
    → cut_last b':' (host ++ b':' ∷ port) ≡ some (host, port)
unfolding cut_last
cut_last-append [] port h = rw (cut_last-none port h)
cut_last-append (c ∷ host) port h = rw (cut_last-append host port h)

-- The ways to write "all interfaces" that the check knows.
abbrev pub IsWildcard : Text → Type 0
IsWildcard host = (host ≡ codes "0.0.0.0") ⊎ ((host ≡ codes "[::]") ⊎ (host ≡ []))

wildcard_listens_everywhere :
    (host port : Text)
    → any (λ c. c == b':') port ≡ false
    → IsWildcard host
    → listens_everywhere (host ++ b':' ∷ port) ≡ true
unfolding listens_everywhere controller_host trim_prefix trim_suffix equal has_prefix cut_last
wildcard_listens_everywhere host port h (inl e) =
    rw e (rw (cut_last-append (codes "0.0.0.0") port h))
wildcard_listens_everywhere host port h (inr (inl e)) =
    rw e (rw (cut_last-append (codes "[::]") port h))
wildcard_listens_everywhere host port h (inr (inr e)) = rw e (rw (cut_last-append [] port h))

-- In an accepted document the controller's address is none of "0.0.0.0:port", "[::]:port" and
-- ":port", whatever the port, if the port holds no colon.
pub parse-controller :
    (text : Text) (role : Role) {d : Document} (host port : Text)
    → parse text role ≡ ok d
    → any (λ c. c == b':') port ≡ false
    → IsWildcard host
    → scalar (codes "controller-listen") d ≢ some (host ++ b':' ∷ port)
unfolding scalar check_scalar
parse-controller text role {d} host port h colon w e =
    let q = (parse-Parsed text role h).postured in
    let checks = all_of-map-eq-ok (check_scalar d) d.scalars q.by_scalar in
    let one =
      All-lookup (λ kv. check_scalar d kv ≡ ok tt) (codes "controller-listen") d.scalars checks e in
    let bad = wildcard_listens_everywhere host port colon w in unfold equal in ground arith
