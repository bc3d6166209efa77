-- ===== src/Net.antt =====
-- Package net and net/netip as the program calls them: IP literals and host:port pairs.
pub mod Ip
use proxyctl.Prelude.{
  ℕ, ◌+◌, Bool, true, false, not, ◌&&◌, ◌||◌, [], ◌∷◌, ◌++◌, Option, none, some, ◌==◌, length,
  if◌then◌else◌, any,
}
use proxyctl.Text.{Text, trim}

-- The text before and behind the last `sep`.
unfoldable pub cut_last : ℕ → Text → Option (Text × Text)
cut_last sep [] = none
cut_last sep (c ∷ s) = elim (cut_last sep s) [
  | some (a, b) ↦ some (c ∷ a, b)
  | none ↦ if c == sep then some ([], s) else none
]

unfoldable pub cut_first : ℕ → Text → Option (Text × Text)
cut_first sep [] = none
cut_first sep (c ∷ s) =
    if c == sep
    then some ([], s)
    else elim (cut_first sep s) [ none ↦ none | some (a, b) ↦ some (c ∷ a, b) ]

abbrev pub holds : ℕ → Text → Bool
holds b s = any (λ c. c == b) s

-- `net.SplitHostPort` at "[host]:port": the bracket closes just before the last colon.
split_bracketed : Text → Option (Text × Text)
split_bracketed inside = elim (cut_first b']' inside) [
  | none ↦ none
  | some (host, []) ↦ none
  | some (host, c ∷ port) ↦
      if c == b':' && not (holds b':' port || holds b'[' inside || holds b']' port)
      then some (host, port)
      else none
]

split_plain : Text → Option (Text × Text)
split_plain s = elim (cut_last b':' s) [
  | none ↦ none
  | some (host, port) ↦
      if holds b':' host || holds b'[' s || holds b']' s then none else some (host, port)
]

-- `net.SplitHostPort`; `none` is an error
unfoldable pub split_host_port : Text → Option (Text × Text)
unfolding split_bracketed split_plain cut_first cut_last
split_host_port [] = none
split_host_port (c ∷ s) = if c == b'[' then split_bracketed s else split_plain (c ∷ s)

-- `net.JoinHostPort`
unfoldable pub join_host_port : Text → Text → Text
join_host_port host port =
    if holds b':' host || holds b'%' host
    then b'[' ∷ (host ++ (b']' ∷ b':' ∷ port))
    else host ++ (b':' ∷ port)
