-- ===== src/Preflight/Rows.antt =====
-- No listener of a host is passed over.
use proxyctl.Prelude.{
  ◌≡◌, refl, Bool, true, false, List, [], ◌∷◌, ◌++◌, none, some, All, Bool-cases, Option-cases, inl,
  inr, ◌⊎◌,
}
use mathlib.Core.Option.{some-injective}
use proxyctl.Text.{Text, equal, split, trim_space}
use proxyctl.Net.Ip.{Addr}
use proxyctl.Files.{Got-cases, absent, got, Files}
use proxyctl.Preflight.Probe.{Listener, Call, not_failed}
use proxyctl.Preflight.Tables.{parse_proc_net_line, rows_on, parse_proc_net}
use proxyctl.Preflight.Host.{check_ports, same_pair, role_reservations}
use proxyctl.Preflight.Judged.{NoConflict, scan_listeners-NoConflict}
use proxyctl.Preflight.Linux.{
  SocketTable, socket_tables, table_listeners, listeners_on, listeners, linux_probe,
}

none_is_some {ℓ} : {A : Type ℓ} {a : A} → none ≡ some a → ⊥
none_is_some h = cc

All-append {ℓ κ} :
    {A : Type ℓ} (P : A → Type κ) (xs ys : List A) → All P (xs ++ ys) → All P xs × All P ys
All-append P [] ys h = (tt, h)
All-append P (x ∷ xs) ys h = let (a, b) = All-append P xs ys h.1 in ((h.0, a), b)

List-cases : (ps : List Text) → (ps ≡ []) ⊎ ((p : Text) × (qs : List Text) × (ps ≡ p ∷ qs))
List-cases [] = inl refl
List-cases (p ∷ qs) = inr (p, qs, refl)

All-same {ℓ κ} : {A : Type ℓ} (P : A → Type κ) {xs ys : List A} → xs ≡ ys → All P ys → All P xs
All-same P e a = rw e a

false_is_true : false ≡ true → ⊥
false_is_true h = cc

-- The rows behind the header.
unfoldable pub rows : Text → List Text
rows text = elim (split b'\n' text) [ [] ↦ [] | header ∷ lines ↦ lines ]

rows_behind :
    (text header : Text) (lines : List Text) → split b'\n' text ≡ header ∷ lines → rows text ≡ lines
unfolding rows
rows_behind text header lines e = rw (e, rows) refl

no_rows : (text : Text) → split b'\n' text ≡ [] → rows text ≡ []
unfolding rows
no_rows text e = rw (e, rows) refl

module _ (print_addr : Addr → Text) (P : Listener → Type 0) where
  -- A row is blank, or well-formed and no listener, or a listener with the property.
  unfoldable pub Heard : Text → Bool → Text → Type 0
  Heard proto is6 line =
      (equal (trim_space line) [] ≡ true)
      ⊎ (parse_proc_net_line print_addr line proto is6 ≡ some none)
      ⊎ ((l : Listener) × (parse_proc_net_line print_addr line proto is6 ≡ some (some l)) × P l)

  -- A table is absent and need not be there, or all of its rows are heard.
  unfoldable pub TableHeard : Files → SocketTable → Type 0
  TableHeard files tb =
      ((files.read_file tb.path ≡ absent) × (tb.required ≡ false))
      ⊎ ((text : Text) × (files.read_file tb.path ≡ got text)
          × All (Heard tb.proto tb.is6) (rows text))

  rows_on-Heard :
      (proto : Text) (is6 : Bool) (lines : List Text) (out : List Listener)
      → rows_on print_addr proto is6 lines ≡ some out
      → All P out
      → All (Heard proto is6) lines
  unfolding rows_on Heard
  rows_on-Heard proto is6 [] out h a = tt
  rows_on-Heard proto is6 (line ∷ lines) out h a = elim (Bool-cases (equal (trim_space line) [])) [
    | inl e ↦ (inl e, rows_on-Heard proto is6 lines out (rw (e, rows_on) at h) a)
    | inr e ↦ elim (Option-cases (parse_proc_net_line print_addr line proto is6)) [
      | inl f ↦ elim (none_is_some (rw (e, f, rows_on) at h)) [ ]
      | inr (none, f) ↦ (inr (inl f), rows_on-Heard proto is6 lines out (rw (e, f, rows_on) at h) a)
      | inr (some l, f) ↦ elim (Option-cases (rows_on print_addr proto is6 lines)) [
        | inl g ↦ elim (none_is_some (rw (e, f, g, rows_on) at h)) [ ]
        | inr (ls, g) ↦
            let both = All-same P (some-injective (l ∷ ls) out (rw (e, f, g, rows_on) at h)) a in
            (inr (inr (l, f, both.0)), rows_on-Heard proto is6 lines ls g both.1)
      ]
    ]
  ]

  parse_proc_net-Heard :
      (text proto : Text) (is6 : Bool) (out : List Listener)
      → parse_proc_net print_addr text proto is6 ≡ some out
      → All P out
      → All (Heard proto is6) (rows text)
  unfolding parse_proc_net rows
  parse_proc_net-Heard text proto is6 out h a = elim (List-cases (split b'\n' text)) [
    | inl e ↦ All-same (Heard proto is6) (no_rows text e) tt
    | inr (header, lines, e) ↦
        All-same (Heard proto is6) (rows_behind text header lines e)
          (rows_on-Heard proto is6 lines out (rw (e, parse_proc_net) at h) a)
  ]

  table_listeners-TableHeard :
      (files : Files) (tb : SocketTable) (out : List Listener)
      → table_listeners print_addr files tb ≡ some out
      → All P out
      → TableHeard files tb
  unfolding table_listeners TableHeard
  table_listeners-TableHeard files tb out h a = elim (Got-cases (files.read_file tb.path)) [
    | inl e ↦ elim (Bool-cases tb.required) [
      | inl r ↦ elim (none_is_some (rw (e, r, table_listeners) at h)) [ ]
      | inr r ↦ inl (e, r)
    ]
    | inr (inl e) ↦ elim (none_is_some (rw (e, table_listeners) at h)) [ ]
    | inr (inr (text, e)) ↦
        inr
          (text, e, parse_proc_net-Heard text tb.proto tb.is6 out (rw (e, table_listeners) at h) a)
  ]

  pub listeners_on-TableHeard :
      (files : Files) (tbs : List SocketTable) (out : List Listener)
      → listeners_on print_addr files tbs ≡ some out
      → All P out
      → All (TableHeard files) tbs
  unfolding listeners_on
  listeners_on-TableHeard files [] out h a = tt
  listeners_on-TableHeard files (tb ∷ tbs) out h a =
      elim (Option-cases (table_listeners print_addr files tb)) [
        | inl e ↦ elim (none_is_some (rw (e, listeners_on) at h)) [ ]
        | inr (ls, e) ↦ elim (Option-cases (listeners_on print_addr files tbs)) [
          | inl f ↦ elim (none_is_some (rw (e, f, listeners_on) at h)) [ ]
          | inr (more, f) ↦
              let both =
                All-same P (some-injective (ls ++ more) out (rw (e, f, listeners_on) at h)) a in
              let (here, later) = All-append P ls more both in
              (
                table_listeners-TableHeard files tb ls e here,
                listeners_on-TableHeard files tbs more f later,
              )
        ]
      ]

-- No pair that the role reserves is the listener's.
unfoldable pub Unreserved : (Text → Text) → Text → Listener → Type 0
Unreserved to_lower role l =
    All (λ r. same_pair (to_lower l.protocol) l.port r ≡ false) (role_reservations role)

-- Where the port check does not fail on a Linux host, each of the four socket tables is absent
-- and need not be there, or every row of it behind the header is blank, or is well-formed and
-- no listener, or is a listener on a pair that the role does not reserve.
pub check_ports-TableHeard :
    (to_lower : Text → Text) (print_addr : Addr → Text) (host : List Call → Files) (role : Text)
    (calls : List Call)
    → not_failed (check_ports to_lower role (linux_probe print_addr host) calls).0 ≡ true
    → All (TableHeard print_addr (Unreserved to_lower role) (host calls)) socket_tables
unfolding check_ports Unreserved listeners NoConflict
check_ports-TableHeard to_lower print_addr host role calls h =
    elim (Option-cases (listeners print_addr (host calls))) [
      | inl e ↦ elim (false_is_true (rw (e, check_ports) at h)) [ ]
      | inr (ls, e) ↦
          listeners_on-TableHeard print_addr (Unreserved to_lower role) (host calls) socket_tables
            ls e ((scan_listeners-NoConflict to_lower role ls).0 (rw (e, check_ports) at h))
    ]
