-- ===== src/Render/Published.antt =====
-- What `Run` with the Linux backend has published when it returns a result.
use proxyctl.Prelude.{◌≡◌, ◌≢◌, inl, inr, refl, true, List, [], ◌∷◌, Option, some, Bool-cases}
use proxyctl.Text.{Text, encode, equal, member}
use proxyctl.Text.Laws.{equal_iff}
use proxyctl.Table.{Table, lookup, All-lookup}
use proxyctl.Files.{Files}
use proxyctl.Safex.Codes.{Result, ok, err, ◌>>◌, bind-eq-ok, Result-cases}
use proxyctl.Writer.Linked.{Stands}
use proxyctl.Writer.Placed.{content}
use proxyctl.Writer.Transaction.{bytes_of}
use proxyctl.Writer.Kernel.{Entry}
use proxyctl.Render.Assets.{
  member-All, IsOutputName, IsPublishable, publishable, rendered_name, publishable-IsOutputName,
}
use proxyctl.Render.Run.{Options, Rendered, Material, prepare, render}
use proxyctl.Render.Prepared.{Prepared, prepare-Prepared}
use proxyctl.Writer.Names.{
  Bytes, has_key, ordered, output_name_order, check_names, validate_output_names,
}
use proxyctl.Writer.Kernel.{Kernel, linux}
use proxyctl.Writer.Transaction.{transaction}
use proxyctl.Writer.Staged.{err_is_ok}
use proxyctl.Writer.Completed.{Completed, Outcome, transaction-Outcome}

has_found :
    (files : Table Bytes) (x : Text) (v : Bytes) → lookup x files ≡ some v → has_key files x ≡ true
unfolding has_key
has_found files x v e = rw (e, has_key) refl

first_kept :
    (files : Table Bytes) (x n : Text) (names : List Text) (v : Bytes)
    → equal x n ≡ true
    → lookup x files ≡ some v
    → member n (ordered files (x ∷ names)) ≡ true
unfolding ordered member
first_kept files x n names v same e = rw (has_found files x v e, member, same) refl

member-ordered :
    (files : Table Bytes) (n : Text) (v : Bytes) (names : List Text)
    → lookup n files ≡ some v
    → member n names ≡ true
    → member n (ordered files names) ≡ true
unfolding ordered member has_key
member-ordered files n v [] e m = m
member-ordered files n v (x ∷ names) e m = elim (Bool-cases (equal x n)) [
  | inl same ↦ first_kept files x n names v same (rw (← (equal_iff x n).0 same) at e)
  | inr other ↦ elim (Bool-cases (has_key files x)) [
    | inl here ↦ rw (here, member, other) (member-ordered files n v names e (rw other at m))
    | inr gone ↦ rw gone (member-ordered files n v names e (rw other at m))
  ]
]

render_then :
    (x : Result (Unit {0})) (made r : Rendered) → (x >> ok made) ≡ ok r → (x ≡ ok tt) × (made ≡ r)
render_then (ok u) made r h = (refl, cc)
render_then (err c m) made r h = cc

ok_injective {ℓ} : {A : Type ℓ} {a b : A} → ok a ≡ ok b → a ≡ b
ok_injective h = cc

not_member : (n : Text) (names : List Text) → names ≡ [] → member n names ≡ true → ⊥
unfolding member
not_member n [] e m = cc
not_member n (x ∷ names) e m = cc

module _ (files : Files) (eval_symlinks : Text → Option Text) (join_path : Text → Text → Text)
    (clean : Text → Text) (digest : Text → Text) (load : Text → Result (Option Material)) where
  -- The files were prepared from accepted inputs, each stands under its name with its bytes, and
  -- nothing of the staging directory is left.
  pub record Published (opts : Options) (r : Rendered) (k : Kernel) : Type 0 where
    pub out : Table Bytes
    pub prepared : Prepared files eval_symlinks join_path clean digest load opts out r.files
    pub completed : Completed out r.files k
    pub delivered :
        (name : Text) (v : Bytes)
        → lookup name out ≡ some v
        → (e : Entry) × (lookup name k.finals ≡ some e) × (e.bytes ≡ v) × (e.ours ≡ true)

  not_empty :
      (opts : Options) (out : Table Bytes) (published : List Text)
      → Prepared files eval_symlinks join_path clean digest load opts out published
      → published ≢ []
  unfolding validate_output_names
  not_empty opts out published p =
      let (_, _, e) = bind-eq-ok (check_names out) _ p.named in
      let names = publishable-IsOutputName opts.role p.role p.valid in
      λ none_there. not_member (rendered_name p.role) published none_there (
        rw (ok_injective e) at (
          member-ordered out (rendered_name p.role) (encode p.rendered) output_name_order p.placed
            names.0.1))

  -- A name of the set is published.
  Prepared-member :
      (opts : Options) (out : Table Bytes) (published : List Text) (name : Text) (v : Bytes)
      → Prepared files eval_symlinks join_path clean digest load opts out published
      → lookup name out ≡ some v
      → member name published ≡ true
  unfolding validate_output_names
  Prepared-member opts out published name v p e =
      let (_, _, f) = bind-eq-ok (check_names out) _ p.named in
      let names = publishable-IsOutputName opts.role p.role p.valid in
      let own = All-lookup (IsPublishable p.role) name out p.own e in
      let (plain, known) = member-All IsOutputName name (publishable p.role) own names in
      rw (← ok_injective f) (member-ordered out name v output_name_order e known)

  Stands-bytes :
      (out : Table Bytes) (name : Text) (v : Bytes) (k : Kernel)
      → lookup name out ≡ some v
      → Stands (content out) k name
      → (e : Entry) × (lookup name k.finals ≡ some e) × (e.bytes ≡ v) × (e.ours ≡ true)
  unfolding Stands bytes_of
  Stands-bytes out name v k f (e, found, b, o) = (e, found, rw (f, bytes_of) at b, o)

  publication :
      (opts : Options) (out : Table Bytes) (published : List Text) (k : Kernel)
      → Prepared files eval_symlinks join_path clean digest load opts out published
      → Outcome out published k
      → Published opts
          (record { role = opts.role; files = published; template_dir = opts.template_dir })
          k
  unfolding Outcome Completed
  publication opts out published k p (inl e) = elim (not_empty opts out published p e) [ ]
  publication opts out published k p (inr c) = record {
    out = out;
    prepared = p;
    completed = c;
    delivered = λ name v e. Stands-bytes out name v k e (
        member-All (Stands (content out) k) name published
          (Prepared-member opts out published name v p e) c.0);
  }

  pub render-Published :
      (opts : Options) (k : Kernel) (r : Rendered)
      → (render files eval_symlinks join_path clean digest load linux opts k).0 ≡ ok r
      → Published opts r (render files eval_symlinks join_path clean digest load linux opts k).1
  unfolding render
  render-Published opts k r h =
      elim (Result-cases (prepare files eval_symlinks join_path clean digest load opts)) [
        | inr (c, m, e) ↦ elim (err_is_ok (rw (e, render) at h)) [ ]
        | inl ((out, published), e) ↦
            let ran = transaction linux out opts.out_dir k in
            let made : Rendered = record {
              role = opts.role;
              files = published;
              template_dir = opts.template_dir;
            } in
            let (good, same) = render_then ran.0 made r (rw (e, render) at h) in
            let ready =
              prepare-Prepared files eval_symlinks join_path clean digest load opts out published
                e in
            rw (e, render, ← same)
              (publication opts out published ran.1 ready
                (transaction-Outcome out opts.out_dir k published ready.named good))
      ]
