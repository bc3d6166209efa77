-- ===== src/Writer/Tracked.antt =====
-- The names that a transaction records, and the entries it makes with the Linux backend.
use proxyctl.Prelude.{
  Bool, true, false, List, [], ◌∷◌, some, if◌then◌else◌, ◌≡◌, ◌⊎◌, inl, inr, refl, arith,
}
use proxyctl.Text.{Text, member}
use proxyctl.Table.{Table, lookup}
use proxyctl.Safex.Codes.{Result, ok, err, Result-cases}
use proxyctl.Writer.Names.{Bytes}
use proxyctl.Writer.Exec.{Exec, after, ◌>>◌}
use proxyctl.Writer.Backend.{staging}
use proxyctl.Writer.Kernel.{Entry, Kernel, publish, linux}
use proxyctl.Writer.Respects.{stage_one-R, settle-R}
use proxyctl.Writer.Made.{NoneMade, NoneMade-preorder, calls-NoneMade, publish-made}
use proxyctl.Writer.Transaction

member-published :
    (b : Bool) (name n : Text) (names : List Text)
    → member n names ≡ true
    → member n (if b then name ∷ names else names) ≡ true
unfolding member
member-published true name n names h = ground arith
member-published false name n names h = h

module _ (files : Table Bytes) where
  -- Every entry of this program is an old one or has a published name.
  pub record Tracked (k : Kernel) (r : Transaction.Run Kernel) : Type 0 where
    pub tracks :
        (n : Text) (e : Entry)
        → lookup n r.state.finals ≡ some e
        → e.ours ≡ true
        → (lookup n k.finals ≡ some e) ⊎ (member n r.published ≡ true)

  Tracked-NoneMade :
      (k : Kernel) (r r' : Transaction.Run Kernel)
      → Tracked k r
      → NoneMade r.state r'.state
      → r'.published ≡ r.published
      → Tracked k r'
  Tracked-NoneMade k r r' t m same = record {
    tracks = λ n e h o. rw same (t.tracks n e (m.made n e h o) o);
  }

  stage_one-published :
      (name : Text) (r : Transaction.Run Kernel)
      → (Transaction.stage_one linux files name r).1.published ≡ r.published
  unfolding Transaction.stage_one Transaction.fill_file
  stage_one-published name r = elim (Result-cases (linux.create_at staging name r.state).0) [
    | inl (id, e) ↦ rw (e, Transaction.fill_file) refl
    | inr (c, m, e) ↦ rw (e, Transaction.fill_file) refl
  ]

  >>-Tracked :
      (k : Kernel) (m f : Exec (Transaction.Run Kernel) (Unit {0})) (r : Transaction.Run Kernel)
      → Tracked k (m r).1
      → ((t : Transaction.Run Kernel) → Tracked k t → Tracked k (f t).1)
      → Tracked k ((m >> f) r).1
  >>-Tracked k m f r h next = go (m r).0 (m r).1 h
    where
      go :
          (x : Result (Unit {0})) (t : Transaction.Run Kernel)
          → Tracked k t
          → Tracked k (after x f t).1
      go (ok _) t g = next t g
      go (err _ _) t g = g

  stage_all-Tracked :
      (k : Kernel) (names : List Text) (r : Transaction.Run Kernel)
      → Tracked k r
      → Tracked k (Transaction.stage_all linux files names r).1
  unfolding Transaction.stage_all
  stage_all-Tracked k [] r t = t
  stage_all-Tracked k (name ∷ names) r t =
      >>-Tracked k (Transaction.stage_one linux files name)
        (Transaction.stage_all linux files names) r
        (Tracked-NoneMade k r (Transaction.stage_one linux files name r).1 t
          (stage_one-R NoneMade-preorder linux calls-NoneMade files name r)
          (stage_one-published name r))
        (stage_all-Tracked k names)

  publish_one-Tracked :
      (k : Kernel) (name : Text) (r : Transaction.Run Kernel)
      → Tracked k r
      → Tracked k (Transaction.publish_one linux files name r).1
  unfolding Transaction.publish_one linux
  publish_one-Tracked k name r t = record {
    tracks = λ n e h o. elim (publish-made name r.state n e h o) [
      | inr (eq, linked) ↦ inr (rw linked (unfold member in rw eq refl))
      | inl old ↦ elim (t.tracks n e old o) [
        | inl older ↦ inl older
        | inr among ↦ inr (member-published (publish name r.state).0 name n r.published among)
      ]
    ];
  }

  publish_all-Tracked :
      (k : Kernel) (names : List Text) (r : Transaction.Run Kernel)
      → Tracked k r
      → Tracked k (Transaction.publish_all linux files names r).1
  unfolding Transaction.publish_all
  publish_all-Tracked k [] r t = t
  publish_all-Tracked k (name ∷ names) r t =
      >>-Tracked k (Transaction.publish_one linux files name)
        (Transaction.publish_all linux files names) r (publish_one-Tracked k name r t)
        (publish_all-Tracked k names)

  pub body-Tracked :
      (k : Kernel) (staging_name : Text) (names : List Text) (r : Transaction.Run Kernel)
      → Tracked k r
      → Tracked k (Transaction.body linux files staging_name names r).1
  unfolding Transaction.body Transaction.settle_run
  body-Tracked k staging_name names r t =
      let finish = Transaction.settle_run linux files staging_name in
      let publication = Transaction.publish_all linux files names in
      >>-Tracked k (Transaction.stage_all linux files names) (publication >> finish) r
        (stage_all-Tracked k names r t)
        (λ u v. >>-Tracked k publication finish u (publish_all-Tracked k names u v) (λ w x.
          Tracked-NoneMade k w (finish w).1 x
            (settle-R NoneMade-preorder linux calls-NoneMade files staging_name w.state) refl))
