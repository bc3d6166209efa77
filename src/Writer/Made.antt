-- ===== src/Writer/Made.antt =====
-- Which entries of the output directory the calls of the Linux backend make.
use proxyctl.Prelude.{
  Bool, true, false, List, [], ◌∷◌, Option, none, some, ◌≡◌, ◌⊎◌, inl, inr, refl, ◌∙◌, arith,
}
use proxyctl.Text.{Text, equal}
use proxyctl.Text.Laws.{equal_iff}
use proxyctl.Table.{Table, lookup, lookup-assign}
use proxyctl.Writer.Kernel.{
  Entry, Event, fine, fails, appears, Kernel, theirs, add_absent, tick_on, tick, staged_entries,
  link_entry, link_if, unlink_linked, link_at, publish, linux,
}
use proxyctl.Writer.Respects.{IsPreorder, Respects}
use proxyctl.Writer.Calls.{unlink_staged-R, linux-Respects}

-- No entry of this program is in the later state that was not in the earlier one.
pub record NoneMade (k k' : Kernel) : Type 0 where
  pub made :
      (n : Text) (e : Entry)
      → lookup n k'.finals ≡ some e
      → e.ours ≡ true
      → lookup n k.finals ≡ some e

pub NoneMade-preorder : IsPreorder NoneMade
NoneMade-preorder = record {
  reflexive = λ k. record { made = λ n e h o. h };
  transitive = λ k l m f g. record { made = λ n e h o. f.made n e (g.made n e h o) o };
}

pub same_entries : (k k' : Kernel) → k'.finals ≡ k.finals → NoneMade k k'
same_entries k k' e = record { made = λ n x h o. rw e at h }

lookup-theirs :
    (j n : Text) (x e : Entry) (t : Table Entry)
    → lookup n (add_absent j (theirs x) t) ≡ some e
    → e.ours ≡ true
    → lookup n t ≡ some e
unfolding add_absent
lookup-theirs j n x e t h o = ground (arith, lookup-assign j n (theirs x) t, equal_iff j n)

tick_on-NoneMade : (es : List Event) (k : Kernel) → NoneMade k (tick_on es k).1
unfolding tick_on
tick_on-NoneMade [] k = same_entries k k refl
tick_on-NoneMade (fine ∷ es) k = same_entries k (record k { events = es }) refl
tick_on-NoneMade (fails ∷ es) k = same_entries k (record k { events = es }) refl
tick_on-NoneMade (appears j x ∷ es) k = record {
  made = λ n e h o. lookup-theirs j n x e k.finals h o;
}

pub tick-NoneMade : (k : Kernel) → NoneMade k (tick k).1
unfolding tick
tick-NoneMade k = tick_on-NoneMade k.events k

pub calls-NoneMade : Respects NoneMade linux
calls-NoneMade = linux-Respects NoneMade-preorder same_entries tick-NoneMade

-- An entry of this program is an old one, or publication reports that its name was linked.
link_entry-made :
    (name : Text) (x : Option Entry) (k : Kernel) (n : Text) (e : Entry)
    → lookup n (link_entry name x k).1.finals ≡ some e
    → (lookup n k.finals ≡ some e) ⊎ ((equal name n ≡ true) × ((link_entry name x k).0 ≡ true))
unfolding link_entry
link_entry-made name none k n e h = inl h
link_entry-made name (some x) k n e h = ground (arith, lookup-assign name n x k.finals)

link_if-made :
    (b : Bool) (name : Text) (k : Kernel) (n : Text) (e : Entry)
    → lookup n (link_if b name k).1.finals ≡ some e
    → (lookup n k.finals ≡ some e) ⊎ ((equal name n ≡ true) × ((link_if b name k).0 ≡ true))
unfolding link_if
link_if-made true name k n e h = link_entry-made name (lookup name (staged_entries k)) k n e h
link_if-made false name k n e h = inl h

unlink_linked-NoneMade :
    (b : Bool) (name : Text) (k : Kernel)
    → NoneMade k (unlink_linked b name k).2 × ((unlink_linked b name k).0 ≡ b)
unfolding unlink_linked
unlink_linked-NoneMade true name k =
    (unlink_staged-R NoneMade-preorder same_entries tick-NoneMade _ name k, refl)
unlink_linked-NoneMade false name k = (same_entries k k refl, refl)

pub publish-made :
    (name : Text) (k : Kernel) (n : Text) (e : Entry)
    → lookup n (publish name k).2.finals ≡ some e
    → e.ours ≡ true
    → (lookup n k.finals ≡ some e) ⊎ ((equal name n ≡ true) × ((publish name k).0 ≡ true))
unfolding publish link_at
publish-made name k n e h o =
    let k1 = (tick k).1 in
    let linked = link_if (tick k).0 name k1 in
    let (unmade, flag) = unlink_linked-NoneMade linked.0 name linked.1 in
    elim (link_if-made (tick k).0 name k1 n e (unmade.made n e h o)) [
      | inl old ↦ inl ((tick-NoneMade k).made n e old o)
      | inr (eq, set) ↦ inr (eq, flag ∙ set)
    ]
