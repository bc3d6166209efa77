-- ===== src/Config/Parse.antt =====
-- internal/config/config.go: `Parse`.
use proxyctl.Prelude.{[]}
use proxyctl.Text.{Text, split}
use proxyctl.Safex.Codes.{Result, ok, ◌>>=◌, ◌>>◌}
use proxyctl.Config.Document.{Role, Document, empty_document}
use proxyctl.Config.Lines.{State, parse_lines}
use proxyctl.Config.Validate.{validate}

abbrev pub start : Role → State
start role = record { doc = empty_document role; section = [] }

-- `Parse`
unfoldable pub parse : Text → Role → Result Document
parse text role = do
  s ← parse_lines role (split b'\n' text) (start role)
  validate role s.doc
  ok s.doc
