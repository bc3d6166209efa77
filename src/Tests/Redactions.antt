-- ===== src/Tests/Redactions.antt =====
-- Redacted texts.
use proxyctl.Prelude.{◌≡◌, refl, map, All, ◌⊎◌}
use proxyctl.Text.{Text, codes, split}
use proxyctl.Preflight.Evidence.{ascii_lower_byte}
use proxyctl.Safex.Redact.{mask, redact, redact_assignments}
use proxyctl.Safex.Assignments.{HasAssignment}
use proxyctl.Safex.Masked.{redact-¬HasAssignment}

abbrev lower : Text → Text
lower = map ascii_lower_byte

abbrev report : Text
report = codes "host=a\nPassword = hunter2\nsee http://u:p@h/x"

redacted : redact lower report ≡ codes "host=a\n<REDACTED>\nsee http://<REDACTED>@h/x"
unfolding redact ascii_lower_byte proxyctl.Safex.Redact.ends_authority
redacted = refl

-- The mark whose colon ends the authority of another mark is not seen.
nested_url : redact lower (codes "a://b://u:p@h") ≡ codes "a://b://u:p@h"
unfolding redact ascii_lower_byte proxyctl.Safex.Redact.ends_authority
nested_url = refl

redact-¬HasAssignment_example :
    All (λ line. (line ≡ mask) ⊎ (¬ HasAssignment (lower line))) (split b'\n' (redact lower report))
redact-¬HasAssignment_example = redact-¬HasAssignment lower report refl
