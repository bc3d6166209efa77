-- ===== src/Traffic/Hosts.antt =====
-- Under which name the traffic of a connection counts.
use proxyctl.Prelude.{
  ◌≡◌, ◌≢◌, ◌≤◌, Bool, true, false, ◌&&◌, ◌||◌, [], ◌∷◌, ◌++◌, Option, some, leb, all, All,
  if◌then◌else◌, ◌==◌, ◌⊎◌,
}
use proxyctl.Text.{Text, codes, size, split, trim, trim_suffix}
use proxyctl.Net.Ip.{parses_ip}

-- A label: 1 to 63 bytes, lower-case letters, digits and hyphens, and no hyphen at an end.
unfoldable pub IsLabelName : Text → Type 0
IsLabelName l =
    (l ≢ [])
    × (size l ≤ 63)
    × ((s : Text) → l ≢ b'-' ∷ s)
    × ((s : Text) → l ≢ s ++ (b'-' ∷ []))
    × (all (λ c. (leb b'a' c && leb c b'z') || (leb b'0' c && leb c b'9') || c == b'-') l ≡ true)

-- A host name: 1 to 253 bytes, and every part between dots is a label.
unfoldable pub IsHostName : Text → Type 0
IsHostName h = (h ≢ []) × (size h ≤ 253) × All IsLabelName (split b'.' h)

false_is_true : false ≡ true → ⊥
false_is_true h = cc

module _ (to_ascii : Text → Option Text) (to_lower : Text → Text) where
  -- The value is no IP address, with or without brackets, and its lower-case ASCII form is the host
  -- name.
  unfoldable pub Names : Text → Text → Type 0
  Names value h =
      let v = trim_suffix b'.' value in
      (parses_ip (trim (λ c. c == b'[' || c == b']') v) ≡ false)
      × ((ascii : Text) × (to_ascii v ≡ some ascii) × (to_lower ascii ≡ h))
      × IsHostName h

  -- The name of the first value that names one, or a fixed name.
  unfoldable pub Counted : Text → Text → Bool → Text → Type 0
  Counted host sniff_host ip_valid domain =
      Names host domain
      ⊎ (((h : Text) → Names host h → ⊥) × Names sniff_host domain)
      ⊎ (((h : Text) → Names host h → ⊥)
          × ((h : Text) → Names sniff_host h → ⊥)
          × (domain ≡ (if ip_valid then codes "[ip-only]" else codes "[unknown-domain]")))
