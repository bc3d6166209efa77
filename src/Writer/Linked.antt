-- ===== src/Writer/Linked.antt =====
-- What the publication by the Linux backend does to a staged file.
use Prim.Native.String.{String}
use proxyctl.Prelude.{
  Bool, true, false, none, some, ◌≡◌, inl, inr, refl, ap, Option-cases, Bool-cases,
}
use proxyctl.Text.{Text, equal}
use proxyctl.Text.Laws.{equal_refl}
use proxyctl.Table.{Table, lookup, assign, without, lookup-assign, lookup-without}
use proxyctl.Safex.Codes.{Result, ok}
use proxyctl.Writer.Names.{Bytes}
use proxyctl.Writer.Calls.{unlink_staged-R}
use proxyctl.Writer.Kept.{Kept, Kept-preorder, same, tick-Kept}
use proxyctl.Writer.Kernel.{
  Entry, Kernel, tick, staged_entries, link_entry, link_if, link_at, drop_staged, unlink_staged,
  unlink_linked, publish,
}
use proxyctl.Writer.Staged.{
  err_is_ok, none_is_some, syscall-ok, tick-staged, GoodBut, Good-same, Good-equal,
}

module _ (content : Text → Bytes) where
  dropped :
      (name n : Text) (e : Entry) (t : Table Entry)
      → (lookup n t ≡ some e → (e.bytes ≡ content n) × (e.ours ≡ true))
      → lookup n (without name t) ≡ some e
      → (e.bytes ≡ content n) × (e.ours ≡ true)
  dropped name n e t g h = elim (Bool-cases (equal name n)) [
    | inl same ↦ elim (none_is_some (rw (lookup-without, same) at h)) [ ]
    | inr other ↦ g (rw (lookup-without, other) at h)
  ]

  drop_staged-Good :
      (m : String) (name : Text) (k : Kernel)
      → (drop_staged m name k).0 ≡ ok tt
      → GoodBut content none k
      → GoodBut content none (drop_staged m name k).1
  unfolding drop_staged GoodBut
  drop_staged-Good m name k h g = elim (Option-cases (lookup name (staged_entries k))) [
    | inl f ↦ elim (err_is_ok (rw (f, drop_staged) at h)) [ ]
    | inr (old, f) ↦
        λ n e found. dropped name n e (staged_entries k) (g n e) (rw (f, drop_staged) at found)
  ]

  unlink_staged-Good :
      (m : String) (name : Text) (k : Kernel)
      → (unlink_staged m name k).0 ≡ ok tt
      → GoodBut content none k
      → GoodBut content none (unlink_staged m name k).1
  unfolding unlink_staged
  unlink_staged-Good m name k h g =
      let (a, e) = syscall-ok m (drop_staged m name) k h in
      Good-equal content none (ap (λ (r : Result (Unit {0}) × Kernel). r.1) e) (
        drop_staged-Good m name (tick k).1 a
          (Good-same content none k (tick k).1 (tick-staged k) g))

  -- The name is there, with its content and made by this program.
  unfoldable pub Stands : Kernel → Text → Type 0
  Stands k name =
      (e : Entry) × (lookup name k.finals ≡ some e) × (e.bytes ≡ content name) × (e.ours ≡ true)

  pub Stands-Kept : (k k' : Kernel) (name : Text) → Kept k k' → Stands k name → Stands k' name
  unfolding Stands
  Stands-Kept k k' name r (e, found, b, o) = (e, r.keeps name e found, b, o)

  linked-Good :
      (name : Text) (x : Entry) (k : Kernel)
      → (unlink_staged "cannot remove staged file" name
          (record k { finals = assign name x k.finals })).0
        ≡ ok tt
      → lookup name (staged_entries k) ≡ some x
      → GoodBut content none k
      → GoodBut content none
          (unlink_staged "cannot remove staged file" name
            (record k { finals = assign name x k.finals })).1
        × Stands
            (unlink_staged "cannot remove staged file" name
              (record k { finals = assign name x k.finals })).1
            name
  unfolding Stands GoodBut
  linked-Good name x k h e g =
      let k1 = record k { finals = assign name x k.finals } in
      let (b, o) = g name x e in
      (
        unlink_staged-Good _ name k1 h (Good-same content none k k1 refl g),
        Stands-Kept k1 (unlink_staged "cannot remove staged file" name k1).1 name
            (unlink_staged-R Kept-preorder same tick-Kept "cannot remove staged file" name k1)
            (x, rw (lookup-assign, equal_refl name) refl, b, o),
      )

  link_checked :
      (b : Bool) (name : Text) (k : Kernel)
      → (unlink_linked (link_if b name k).0 name (link_if b name k).1).1 ≡ ok tt
      → GoodBut content none k
      → GoodBut content none (unlink_linked (link_if b name k).0 name (link_if b name k).1).2
        × Stands (unlink_linked (link_if b name k).0 name (link_if b name k).1).2 name
  unfolding link_if unlink_linked GoodBut
  link_checked false name k h g = cc
  link_checked true name k h g = elim (Option-cases (lookup name (staged_entries k))) [
    | inl e ↦ elim (err_is_ok (rw (e, link_entry) at h)) [ ]
    | inr (x, e) ↦ elim (Option-cases (lookup name k.finals)) [
      | inr (y, f) ↦ elim (err_is_ok (rw (e, f, link_entry) at h)) [ ]
      | inl f ↦ rw (e, f, link_entry) (linked-Good name x k (rw (e, f, link_entry) at h) e g)
    ]
  ]

  pub publish-Good :
      (name : Text) (k : Kernel)
      → (publish name k).1 ≡ ok tt
      → GoodBut content none k
      → GoodBut content none (publish name k).2 × Stands (publish name k).2 name
  unfolding publish link_at
  publish-Good name k h g =
      link_checked (tick k).0 name (tick k).1 h
        (Good-same content none k (tick k).1 (tick-staged k) g)
