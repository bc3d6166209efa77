-- ===== src/Status/Trusted.antt =====
-- Where the summary of a status report comes from.
use Prim.Native.String.{String}
use proxyctl.Prelude.{
  ◌≡◌, ◌≢◌, refl, sym, arith, false, Option, none, some, Bool-cases, inl, inr, ap, ◌∙◌,
}
use proxyctl.Text.{Text, codes, member, split}
use proxyctl.Files.{
  Files, Got, Kind-cases, absent, refused, got, Node, symlink, directory, regular, special,
}
use proxyctl.Safex.Codes.{Result, ok, err, Code, bind-eq-ok}
use proxyctl.Config.Lines.{is_empty}
use proxyctl.Status.{
  VerifySum, Report, state_file_name, decoded, read_state_file, read_state_dir, read_last_verify,
  collect,
}

summary_of : Result Report → Option VerifySum
summary_of (ok r) = r.last_verify
summary_of (err _ _) = none

err_is_ok {ℓ} : {A : Type ℓ} {c : Code} {m : String} {a : A} → err c m ≡ ok a → ⊥
err_is_ok h = cc

none_is_some {ℓ} : {A : Type ℓ} {a : A} → none ≡ some a → ⊥
none_is_some h = cc

directory_is_symlink : directory ≡ symlink → ⊥
directory_is_symlink h = cc

regular_is_symlink : regular ≡ symlink → ⊥
regular_is_symlink h = cc

special_is_symlink : special ≡ symlink → ⊥
special_is_symlink h = cc

module _ (files : Files) (join_path : Text → Text → Text) (decode : Text → Option VerifySum) where
  -- The content of a file that Lstat does not tell to be a symlink, in a real directory.
  unfoldable pub Trusted : Text → VerifySum → Type 0
  Trusted dir sum =
      (member (codes "..") (split b'/' dir) ≡ false)
      × ((n : Node) × (files.lstat dir ≡ got n) × (n.kind ≡ directory))
      × ((n : Node) × (files.lstat (join_path dir state_file_name) ≡ got n) × (n.kind ≢ symlink))
      × ((text : Text) × (files.read_file (join_path dir state_file_name) ≡ got text)
          × (decode text ≡ some sum))

  decoded-read :
      (g : Got Text) (sum : VerifySum)
      → decoded files join_path decode g ≡ ok (some sum)
      → (text : Text) × (g ≡ got text) × (decode text ≡ some sum)
  unfolding decoded
  decoded-read absent sum h = cc
  decoded-read refused sum h = cc
  decoded-read (got text) sum h = (text, refl, ground arith)

  read_state_file-read :
      (g : Got Node) (path : Text) (sum : VerifySum)
      → read_state_file files join_path decode g path ≡ ok (some sum)
      → ((n : Node) × (g ≡ got n) × (n.kind ≢ symlink))
        × ((text : Text) × (files.read_file path ≡ got text) × (decode text ≡ some sum))
  unfolding read_state_file
  read_state_file-read absent path sum h = cc
  read_state_file-read refused path sum h = cc
  read_state_file-read (got n) path sum h = elim (Kind-cases n.kind) [
    | inl e ↦ elim (err_is_ok (rw (e, read_state_file) at h)) [ ]
    | inr (inl e) ↦ (
      (n, refl, λ l. directory_is_symlink (sym e ∙ l)),
      decoded-read (files.read_file path) sum (rw (e, read_state_file) at h),
    )
    | inr (inr (inl e)) ↦ (
      (n, refl, λ l. regular_is_symlink (sym e ∙ l)),
      decoded-read (files.read_file path) sum (rw (e, read_state_file) at h),
    )
    | inr (inr (inr e)) ↦ (
      (n, refl, λ l. special_is_symlink (sym e ∙ l)),
      decoded-read (files.read_file path) sum (rw (e, read_state_file) at h),
    )
  ]

  read_state_dir-Trusted :
      (g : Got Node) (dir : Text) (sum : VerifySum)
      → files.lstat dir ≡ g
      → member (codes "..") (split b'/' dir) ≡ false
      → read_state_dir files join_path decode g dir ≡ ok (some sum)
      → Trusted dir sum
  unfolding read_state_dir Trusted
  read_state_dir-Trusted absent dir sum l m h = cc
  read_state_dir-Trusted refused dir sum l m h = cc
  read_state_dir-Trusted (got n) dir sum l m h = elim (Kind-cases n.kind) [
    | inl e ↦ elim (err_is_ok (rw (e, read_state_dir) at h)) [ ]
    | inr (inl e) ↦
        let (file, content) =
          read_state_file-read (files.lstat (join_path dir state_file_name))
            (join_path dir state_file_name) sum (rw (e, read_state_dir) at h) in
        (m, (n, l, e), file, content)
    | inr (inr (inl e)) ↦ elim (err_is_ok (rw (e, read_state_dir) at h)) [ ]
    | inr (inr (inr e)) ↦ elim (err_is_ok (rw (e, read_state_dir) at h)) [ ]
  ]

  read_last_verify-Trusted :
      (dir : Text) (sum : VerifySum)
      → read_last_verify files join_path decode dir ≡ ok (some sum)
      → Trusted dir sum
  unfolding read_last_verify
  read_last_verify-Trusted dir sum h = elim (Bool-cases (member (codes "..") (split b'/' dir))) [
    | inl up ↦ elim (err_is_ok (rw (up, read_last_verify) at h)) [ ]
    | inr down ↦
        read_state_dir-Trusted (files.lstat dir) dir sum refl down
          (rw (down, read_last_verify) at h)
  ]

  -- When a status report has a summary, the state directory has no component "..", Lstat tells that
  -- it is a directory and that its state file is no symlink, and the summary is what the file's
  -- content decodes to.
  pub collect-Trusted :
      (dir : Text) (r : Report) (sum : VerifySum)
      → collect files join_path decode dir ≡ ok r
      → r.last_verify ≡ some sum
      → Trusted dir sum
  unfolding collect summary_of
  collect-Trusted dir r sum h e = elim (Bool-cases (is_empty dir)) [
    | inl empty ↦ elim (none_is_some (ap summary_of (rw (empty, collect) at h) ∙ e)) [ ]
    | inr path ↦
        let (found, f, g) =
          bind-eq-ok (read_last_verify files join_path decode dir) _ (rw (path, collect) at h) in
        read_last_verify-Trusted dir sum (f ∙ ap ok (ap summary_of g ∙ e))
  ]
