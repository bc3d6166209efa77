-- ===== src/Writer/Kept.antt =====
-- Entries of the output directory across a transaction with the Linux backend.
use proxyctl.Prelude.{Bool, true, false, List, [], ◌∷◌, Option, none, some, ◌≡◌, refl, arith}
use proxyctl.Text.{Text}
use proxyctl.Text.Laws.{equal_iff}
use proxyctl.Table.{Table, lookup, lookup-assign}
use proxyctl.Writer.Names.{Bytes}
use proxyctl.Writer.Kernel.{
  Entry, Event, fine, fails, appears, Kernel, theirs, add_absent, tick_on, tick, staged_entries,
  link_entry, link_if, unlink_linked, link_at, publish, linux,
}
use proxyctl.Writer.Calls.{unlink_staged-R, linux-Respects}
use proxyctl.Writer.Respects.{IsPreorder, transaction-R}
use proxyctl.Writer.Transaction.{transaction}

pub record Kept (k k' : Kernel) : Type 0 where
  pub keeps : (n : Text) (e : Entry) → lookup n k.finals ≡ some e → lookup n k'.finals ≡ some e

pub Kept-preorder : IsPreorder Kept
Kept-preorder = record {
  reflexive = λ k. record { keeps = λ n e h. h };
  transitive = λ k l m f g. record { keeps = λ n e h. g.keeps n e (f.keeps n e h) };
}

-- States with the same entries.
pub same : (k k' : Kernel) → k'.finals ≡ k.finals → Kept k k'
same k k' e = record { keeps = λ n x h. rw e h }

lookup-add_absent :
    (j n : Text) (e : Entry) (t : Table Entry) {x : Entry}
    → lookup n t ≡ some x
    → lookup n (add_absent j e t) ≡ some x
unfolding add_absent
lookup-add_absent j n e t {x} h = ground (arith, lookup-assign j n e t, equal_iff j n)

tick_on-Kept : (es : List Event) (k : Kernel) → Kept k (tick_on es k).1
unfolding tick_on
tick_on-Kept [] k = same k k refl
tick_on-Kept (fine ∷ es) k = same k (record k { events = es }) refl
tick_on-Kept (fails ∷ es) k = same k (record k { events = es }) refl
tick_on-Kept (appears j x ∷ es) k = record {
  keeps = λ n e h. lookup-add_absent j n (theirs x) k.finals h;
}

pub tick-Kept : (k : Kernel) → Kept k (tick k).1
unfolding tick
tick-Kept k = tick_on-Kept k.events k

link_entry-Kept : (name : Text) (x : Option Entry) (k : Kernel) → Kept k (link_entry name x k).1
unfolding link_entry
link_entry-Kept name none k = same k k refl
link_entry-Kept name (some e) k = record {
  keeps = λ n x h. ground (arith, lookup-assign name n e k.finals, equal_iff name n);
}

link_if-Kept : (b : Bool) (name : Text) (k : Kernel) → Kept k (link_if b name k).1
unfolding link_if
link_if-Kept true name k = link_entry-Kept name (lookup name (staged_entries k)) k
link_if-Kept false name k = same k k refl

link_at-Kept : (name : Text) (k : Kernel) → Kept k (link_at name k).1
unfolding link_at
link_at-Kept name k =
    Kept-preorder.transitive k (tick k).1 (link_at name k).1 (tick-Kept k)
      (link_if-Kept (tick k).0 name (tick k).1)

unlink_linked-Kept : (b : Bool) (name : Text) (k : Kernel) → Kept k (unlink_linked b name k).2
unfolding unlink_linked
unlink_linked-Kept true name k = unlink_staged-R Kept-preorder same tick-Kept _ name k
unlink_linked-Kept false name k = same k k refl

publish-Kept : (name : Text) (k : Kernel) → Kept k (publish name k).2
unfolding publish
publish-Kept name k =
    Kept-preorder.transitive k (link_at name k).1 (publish name k).2 (link_at-Kept name k)
      (unlink_linked-Kept (link_at name k).0 name (link_at name k).1)

pub linux_publish-Kept : (name : Text) (k : Kernel) → Kept k (linux.publish name k).2
unfolding linux
linux_publish-Kept = publish-Kept

-- A transaction with the Linux backend, whatever it returns, whichever system calls fail and
-- whatever other processes create meanwhile, keeps every entry of the output directory that was
-- there at its start, with its inode and its content.
pub transaction-Kept :
    (files : Table Bytes) (out_dir : Text) (k : Kernel) (n : Text) (e : Entry)
    → lookup n k.finals ≡ some e
    → lookup n (transaction linux files out_dir k).1.finals ≡ some e
transaction-Kept files out_dir k n e h =
    (transaction-R Kept-preorder linux (linux-Respects Kept-preorder same tick-Kept) files
        linux_publish-Kept out_dir k).keeps
      n e h
