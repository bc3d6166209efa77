-- ===== src/Lib.antt =====
-- proxyctl: a control program that renders proxy configurations for two roles, gateway and egress, and
-- publishes them with their certificates. A document in a YAML subset is parsed and checked against an
-- allow-list and a fail-closed network posture; a pinned template is filled in two phases, first from
-- the document and then from a credential bundle; the files are published by a transaction that is to
-- leave alone what is in the output directory.
--
-- Parts, with the code they are about:
--   Text, Text/Laws      Go strings and package strings, as lists of the characters that range yields
--   Table                Go maps with string keys
--   Files                the calls of package os and of statfs
--   Net, Net/Ip          net.SplitHostPort, net.JoinHostPort and netip.ParseAddr, as the program calls them
--   Safex                internal/safex/errors.go. Codes: codes, exit codes and results. Redact: Redact with
--                        its passes, and IsPlaceholder. Assignments and Masked are about what the passes
--                        leave, Userinfo about what the URL pass does.
--   Config               internal/config/config.go. Document: roles, allow-lists, the document (Document,
--                        ParseRole, isPlaceholder). Lines: splitKV and the loop of Parse. Validate:
--                        validate. Posture: validateNetworkPosture, validateGatewayListeners. Parse: Parse.
--                        RawLines, Accepted and Listeners are about accepted documents.
--   Yaml                 internal/render/yaml_scalar.go. Yaml: quoteYAML. Value: the tests on values. Emit:
--                        emit. Read is an independent reader of double-quoted scalars, and Emitted is about
--                        the values that emit returns.
--   Render               internal/render/schema.go (Schema), validateTemplate, templateVars and
--                        checkNoTraversal of internal/render/render.go (Template), and
--                        internal/render/substitute.go with placeholderValues (Substitute), and the
--                        publication set of Run (Assets). Run: Run, internal/render/loader.go, and ParseFile
--                        of internal/config/config.go. Loops and Resolved are about the loops and a filled
--                        template, Material about the publication set, and Prepared and Published about a run.
--   Writer               internal/render/writer.go and writer_linux.go. Names: validateOutputNames. Backend:
--                        the backend record. Transaction: writeTransactionWithBackend and rollback. Walk:
--                        openOutputDirLinux (with Reached). Kernel: the Linux backend. Respects: relations
--                        that all operations of a backend respect. Calls, Kept, Made, Tracked and Undone
--                        are about a transaction with this backend and the output directory, and Staged,
--                        Linked, Placed and Completed about one that reports no error.
--   Credential           internal/credential. Bundle: the names of each role, Scalar, Materialize and Close.
--                        Loader: load and LoadSystemd over a source, validateScalar, validateAsset. UnitDir:
--                        relUnitDir, secureCredentialMetadata and checkNameCollisions of source.go. Scalar,
--                        Loaded and Confined are about what they let through.
--   Traffic              engine/mihomo/overlay/tunnel/statistic/domain_accounting.go. Journal: add and flush.
--                        Domain: accountingDomain. Totals and Bounds are about the counted bytes and
--                        the number of rows, Hosts about the names under which traffic counts.
--   Preflight            internal/preflight. Probe: the facts, Probe and NetProbe, and the targets. Host: the
--                        checks of preflight.go on the host. Evidence: netprobe.go. Accounts: passwd.go.
--                        Tables: procnet.go. Linux: probe_linux.go. Run:
--                        Run. Judged, Observed, Ready, Entries, Rows and Fields are about hosts that pass,
--                        and about the account database and the socket tables.
--   Status               internal/status/status.go. Trusted is about the summary of a report.
--   Verify               internal/verify/verify.go. Summary is about RedactTargetURL.
--   Command              cmd/proxyctl/main.go and runtime_unix.go. Ended and Offline are about runs of the program.
--   Tests                runs at concrete inputs.
--
-- How the state corresponds. A string is a list of code points, with 1114112 + b for a byte b that is no
-- part of a valid sequence, so every string of bytes has its list. A Go map is a list of entries whose
-- order is the order in which keys were first set; the program's loops over maps look for any refused
-- entry, and the order decides only which refusal is reported. An error is its code and the format string
-- of its message; the arguments of the format, line numbers among them, and wrapped causes are not
-- carried. A backend is a record of functions on a state, one for each function value of the source's
-- backend; the transaction passes this state through every call in the order of the code. The Linux
-- backend's state holds the entries of the output directory with their inodes and bytes, apart from
-- them the staging directory with its files, and the events of the system calls to come: each runs, fails, or runs after another process
-- has created an entry of the output directory. What other
-- processes remove or rename there is not modelled; nor is another process inside the staging
-- directory, whose name holds 128 random bits.
--
-- A credential source is a record of functions on a state, as a backend is. A traffic journal's counters
-- are the bit patterns of 64-bit integers, its times natural numbers of seconds, and the batches that its
-- directory has received are kept under their sequence numbers, since a rename replaces a file of the
-- same name.
--
-- Fuel. templateVars, containsDanglingPlaceholder and replaceAllChecked loop on a text that a round
-- shortens; the model gives them one more unit of fuel than the text has characters, and so for the
-- loops of redaction. redactURLCreds has its bound in the source, and the model takes this one.
--
-- A probe of preflight answers from the list of the calls that were made before, so it may change its
-- answers, and each check returns this list with its own calls added. Times are natural numbers of
-- nanoseconds from Go's zero time on, so earlier times are left out.
--
-- Not modelled: the systemd source's descriptors, zeroing secret bytes and closing the bundle at the end
-- of render.Run, printing, and the Python tools. A nil pointer inside a NetProbe is the same as none.
mod Prelude
pub mod Text
pub mod Table
pub mod Files
pub mod Safex
pub mod Net
pub mod Config
pub mod Render
pub mod Writer
pub mod Yaml
pub mod Credential
pub mod Preflight
pub mod Traffic
pub mod Status
pub mod Verify
pub mod Command
mod Tests
