-- ===== src/Verify.antt =====
-- internal/verify/verify.go.
pub mod Summary
use Prim.Native.String.{String}
use proxyctl.Prelude.{
  ℕ, Bool, true, false, not, ◌||◌, ◌==◌, List, [], ◌∷◌, ◌++◌, Option, none, some, if◌then◌else◌,
  all,
}
use proxyctl.Text.{Text, codes, equal, cut}
use proxyctl.Net.{cut_last}
use proxyctl.Safex.Codes.{Result, ok, err, invalid_enum}

-- `Check`; the milliseconds are not carried
pub record Check : Type 0 where
  pub name : Text
  pub status : Text
  pub detail : String

-- `Result`; the times are not carried
pub record Verified : Type 0 where
  pub profile : Text
  pub ok_flag : Bool
  pub checks : List Check

unfoldable pub static_check : Text → String → Check
static_check name detail = record { name = name; status = codes "pass"; detail = detail }

abbrev pub common_checks : List Check
unfolding static_check
common_checks =
    static_check (codes "no-direct-fallback") "render allowlist forbids DIRECT rules"
    ∷ static_check (codes "no-insecure-tls")
        "render allowlist forbids skip-cert-verify and insecure"
    ∷ static_check (codes "loopback-only-controller")
        "controller must bind loopback per config validation"
    ∷ []

abbrev pub canary_checks : List Check
unfolding static_check
canary_checks =
    static_check (codes "egress-link-required")
      "all rules route via egress-hy2; no fallback accepted"
    ∷ static_check (codes "no-secret-in-report")
        "report contains no credentials, auth headers, or full target URLs"
    ∷ []

-- The checks of a profile, as `Run` adds them.
unfoldable pub checks_of : Text → List Check
unfolding equal
checks_of profile = common_checks ++ (if equal profile (codes "canary") then canary_checks else [])

unfoldable pub not_failed : Check → Bool
unfolding equal
not_failed c = not (equal c.status (codes "fail"))

-- `Run`
unfoldable pub run : Text → Result Verified
unfolding equal checks_of not_failed
run profile =
    if equal profile (codes "loopback") || equal profile (codes "canary")
    then ok (record {
      profile = profile;
      ok_flag = all not_failed (checks_of profile);
      checks = checks_of profile;
    })
    else err invalid_enum "invalid profile %q: must be loopback or canary"

unfoldable pub ends_host : ℕ → Bool
ends_host c = c == b'/' || c == b'?' || c == b'#'

-- The loop of `RedactTargetURL`.
unfoldable pub host_part : Text → Text
unfolding ends_host
host_part [] = []
host_part (c ∷ s) = let rest = host_part s in if ends_host c then [] else c ∷ rest

-- `rest` behind its last "@".
unfoldable pub behind_userinfo : Text → Text
unfolding cut_last
behind_userinfo rest = elim (cut_last b'@' rest) [ none ↦ rest | some (_, behind) ↦ behind ]

-- `RedactTargetURL`
unfoldable pub redact_target_url : Text → Text
unfolding cut host_part behind_userinfo
redact_target_url u = elim (cut (codes "://") u) [
  | none ↦ codes "<redacted>"
  | some (scheme, rest) ↦ scheme ++ (codes "://" ++ behind_userinfo (host_part rest))
]
