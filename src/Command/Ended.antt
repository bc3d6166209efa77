-- ===== src/Command/Ended.antt =====
-- What a run of the program has done when it ends.
use Prim.Native.String.{String}
use proxyctl.Prelude.{
  ◌≡◌, refl, ap, arith, ℕ, false, List, [], ◌∷◌, Option, none, some, inl, inr, not, ◌==◌,
}
use proxyctl.Text.{Text, codes, equal, member}
use proxyctl.Safex.Codes.{
  Code, Result, ok, err, Result-cases, bind-eq-ok, reject_if, reject_if-eq-ok,
}
use proxyctl.Config.Lines.{is_empty}
use proxyctl.Render.Run.{Rendered}
use proxyctl.Render.Published.{Published, render-Published}
use proxyctl.Writer.Kernel.{Kernel, linux}
use proxyctl.Command.{
  Flags, System, Printed, render_report, error_line, Ending, exits, fail, flags_of, flags_with,
  cmd_render, render_flags, render_options, reported, run_render, run,
}

pub err_is_ok {ℓ} : {A : Type ℓ} {c : Code} {m : String} {a : A} → err c m ≡ ok a → ⊥
err_is_ok h = cc

pub ok_injective {ℓ} : {A : Type ℓ} {a b : A} → ok a ≡ ok b → a ≡ b
ok_injective h = cc

zero_of : (n : ℕ) → not (n == 0) ≡ false → n ≡ 0
zero_of n h = ground arith

empty_report : Rendered
empty_report = record { role = []; files = []; template_dir = [] }

report_of : List Printed → Rendered
report_of (render_report r ∷ _) = r
report_of _ = empty_report

error_is_report :
    {c : Code} {m : String} {r : Rendered}
    → ◌≡◌ {A = List Printed} (error_line c m ∷ []) (render_report r ∷ [])
    → ⊥
error_is_report h = cc

module _ (sys : System) where
  flags_of-ok : (o : Option Flags) (f : Flags) → flags_of o ≡ ok f → o ≡ some f
  unfolding flags_of
  flags_of-ok none f h = cc
  flags_of-ok (some g) f h = cc

  pub flags_with-ok :
      (name needed : Text) (a b : String) (args : List Text) (f : Flags)
      → flags_with sys name needed a b args ≡ ok f
      → (sys.parse_flags name args ≡ some f) × (f.positional ≡ 0)
  unfolding flags_with
  flags_with-ok name needed a b args f h =
      let (g, e, h1) = bind-eq-ok (flags_of (sys.parse_flags name args)) _ h in
      let (_, none_left, h2) = bind-eq-ok (reject_if (not (g.positional == 0)) _ _) _ h1 in
      let (_, _, h3) = bind-eq-ok (reject_if (is_empty (g.text needed)) _ _) _ h2 in
      let zero_left = reject_if-eq-ok (not (g.positional == 0)) _ _ none_left in
      let same = ok_injective h3 in
      (
        flags_of-ok (sys.parse_flags name args) f (rw (← same) e),
        rw (← same) (zero_of g.positional zero_left),
      )

  reported-ok :
      (x : Result Rendered) (r : Rendered)
      → (reported sys x).1 ≡ render_report r ∷ []
      → (x ≡ ok r) × ((reported sys x).0 ≡ exits 0)
  unfolding fail report_of
  reported-ok (ok s) r h = (ap ok (ap report_of h), refl)
  reported-ok (err c m) r h = cc

  -- The run of the flags prepared the report, and the directory holds what it names.
  unfoldable pub Rendering : List Text → Ending → Rendered → Kernel → Type 0
  Rendering args end r k =
      (f : Flags) × (sys.parse_flags (codes "render") args ≡ some f)
      × (f.positional ≡ 0)
      × (end ≡ exits 0)
      × Published sys.files sys.eval_symlinks sys.join_path sys.clean sys.digest sys.load
          (render_options sys f) r k

  cmd_render-Rendering :
      (args : List Text) (k : Kernel) (r : Rendered)
      → (cmd_render sys linux args k).0.1 ≡ render_report r ∷ []
      → Rendering args (cmd_render sys linux args k).0.0 r (cmd_render sys linux args k).1
  unfolding cmd_render Rendering fail
  cmd_render-Rendering args k r h = elim (Result-cases (render_flags sys args)) [
    | inr (c, m, e) ↦ elim (error_is_report (rw (e, cmd_render) at h)) [ ]
    | inl (f, e) ↦
        let ran = run_render sys linux (render_options sys f) k in
        let (found, none_left) = flags_with-ok _ _ _ _ args f e in
        let (good, code) = reported-ok ran.0 r (rw (e, cmd_render) at h) in
        rw (e, cmd_render)
          (
            f,
            found,
            none_left,
            code,
            render-Published sys.files sys.eval_symlinks sys.join_path sys.clean sys.digest sys.load
                (render_options sys f) k r good,
          )
  ]

  -- When the command render, with the Linux backend, prints a report, its flags parsed without an
  -- argument behind them, the program ends with code 0, and all that holds for a run of render
  -- with these flags that returns this report: the config was accepted and the template pinned,
  -- and the output directory holds, as entries of this program, the template filled from the
  -- document and the bundle and every asset of the bundle with exactly these bytes, and no staging
  -- directory.
  pub run-Rendering :
      (args : List Text) (k : Kernel) (r : Rendered)
      → (run sys linux (codes "render" ∷ args) k).0.1 ≡ render_report r ∷ []
      → Rendering args
          (run sys linux (codes "render" ∷ args) k).0.0
          r
          (run sys linux (codes "render" ∷ args) k).1
  unfolding run equal member
  run-Rendering args k r h = cmd_render-Rendering args k r h
