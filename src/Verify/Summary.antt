-- ===== src/Verify/Summary.antt =====
-- What `RedactTargetURL` keeps.
use proxyctl.Prelude.{
  ap, ◌∙◌, ℕ, ◌≡◌, refl, sym, arith, Bool, true, false, ◌||◌, ◌==◌, [], ◌∷◌, ◌++◌, none, some, any,
  Option-cases, Bool-cases, ◌⊎◌, inl, inr,
}
use mathlib.Core.Option.{some-injective}
use proxyctl.Text.{Text, codes, cut, contains}
use proxyctl.Text.Laws.{cut-append, cut-before, cut-contains}
use proxyctl.Net.{cut_last}
use proxyctl.Verify.{ends_host, host_part, behind_userinfo, redact_target_url}

abbrev is_end : ℕ → Bool
is_end c = c == b'/' || c == b'?' || c == b'#'

none_is_some {ℓ} : {A : Type ℓ} {a : A} → none ≡ some a → ⊥
none_is_some h = cc

-- The text behind an authority: nothing, or a text that begins with one of its ends.
pub data Behind : Text → Type 0 where
  nothing_left : Behind []
  from_end : (c : ℕ) (s : Text) → is_end c ≡ true → Behind (c ∷ s)

-- The host of an authority: what stands behind its last "@", or all of it.
pub HostOf : Text → Text → Type 0
HostOf authority host =
    (any (λ c. c == b'@') host ≡ false)
    × ((authority ≡ host) ⊎ ((user : Text) × (authority ≡ user ++ (b'@' ∷ host))))

cut_last-plain : (s : Text) → cut_last b'@' s ≡ none → any (λ c. c == b'@') s ≡ false
unfolding cut_last
cut_last-plain [] e = refl
cut_last-plain (c ∷ s) e = elim (Option-cases (cut_last b'@' s)) [
  | inl f ↦ let later = cut_last-plain s f in ground arith
  | inr ((a, b), f) ↦ elim (none_is_some (sym (rw (f, cut_last) at e))) [ ]
]

cut_last-append :
    (s : Text) (found : Text × Text)
    → cut_last b'@' s ≡ some found
    → (s ≡ found.0 ++ (b'@' ∷ found.1)) × (any (λ c. c == b'@') found.1 ≡ false)
unfolding cut_last
cut_last-append [] found e = cc
cut_last-append (c ∷ s) found e = elim (Option-cases (cut_last b'@' s)) [
  | inl f ↦ elim (Bool-cases (c == b'@')) [
    | inl at_sign ↦
        let plain = cut_last-plain s f in
        let same : c ≡ b'@' = ground arith in
        rw (← some-injective ([], s) found (rw (f, at_sign, cut_last) at e))
          (ap (λ (x : ℕ). x ∷ s) same, plain)
    | inr other ↦ elim (none_is_some (rw (f, other, cut_last) at e)) [ ]
  ]
  | inr ((a, b), f) ↦
      let (whole, plain) = cut_last-append s (a, b) f in
      rw (← some-injective (c ∷ a, b) found (rw (f, cut_last) at e)) (ap (◌∷◌ c) whole, plain)
]

behind_userinfo-HostOf : (s : Text) → HostOf s (behind_userinfo s)
unfolding behind_userinfo HostOf
behind_userinfo-HostOf s = elim (Option-cases (cut_last b'@' s)) [
  | inl e ↦ rw (e, behind_userinfo) (cut_last-plain s e, inl refl)
  | inr (found, e) ↦
      let (whole, plain) = cut_last-append s found e in
      rw (e, behind_userinfo) (plain, inr (found.0, whole))
]

-- What the loop takes is the authority, in front of the rest.
host_part-Behind :
    (s : Text)
    → (behind : Text) × (host_part s ++ behind ≡ s)
      × (any is_end (host_part s) ≡ false)
      × Behind behind
unfolding host_part ends_host
host_part-Behind [] = ([], refl, refl, nothing_left)
host_part-Behind (c ∷ s) = elim (Bool-cases (ends_host c)) [
  | inl e ↦ rw (e, host_part) (c ∷ s, refl, refl, from_end c s e)
  | inr e ↦
      let (behind, whole, plain, kept) = host_part-Behind s in
      rw (e, host_part) (behind, ap (◌∷◌ c) whole, ground arith, kept)
]

-- A URL with its first "://", the authority behind it up to the first end, and the authority's host.
unfoldable pub IsSummary : Text → Text → Type 0
unfolding HostOf
IsSummary u v =
    ((contains u (codes "://") ≡ false) × (v ≡ codes "<redacted>"))
    ⊎ ((scheme authority behind host : Text) × (scheme ++ (codes "://" ++ (authority ++ behind))
          ≡ u)
        × (contains scheme (codes "://") ≡ false)
        × (any is_end authority ≡ false)
        × Behind behind
        × HostOf authority host
        × (v ≡ scheme ++ (codes "://" ++ host)))

-- A target's summary is the fixed text for a URL without "://". Otherwise it is what stands in front
-- of the first "://", the "://" itself, and the host: of the authority, which goes up to the first
-- "/", "?" or "#" or to the end, what stands behind its last "@", or all of it where it has none.
pub redact_target_url-IsSummary : (u : Text) → IsSummary u (redact_target_url u)
unfolding redact_target_url IsSummary
redact_target_url-IsSummary u = elim (Option-cases (cut (codes "://") u)) [
  | inl e ↦ rw (e, redact_target_url) (inl (cut-contains (codes "://") u e, refl))
  | inr ((scheme, rest), e) ↦
      let (behind, whole, plain, kept) = host_part-Behind rest in
      rw (e, redact_target_url)
        (inr (
          scheme,
          host_part rest,
          behind,
          behind_userinfo (host_part rest),
          ap (λ t. scheme ++ (codes "://" ++ t)) whole ∙ cut-append (codes "://") u e,
          cut-before b':' (codes "//") u e,
          plain,
          kept,
          behind_userinfo-HostOf (host_part rest),
          refl,
        ))
]
