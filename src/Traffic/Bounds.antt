-- ===== src/Traffic/Bounds.antt =====
-- The limit on the rows of a journal.
use proxyctl.Prelude.{ℕ, ◌≤◌, ◌+◌, arith, Bool, ◌||◌, List, [], ◌∷◌, Option, length, if◌then◌else◌}
use proxyctl.Text.{Text, codes, equal}
use proxyctl.Text.Laws.{equal_refl}
use proxyctl.Traffic.Journal.{
  Row, Journal, has_row, count_in, max_rows, slot, counted_domain, add, flush, Event, counts,
  flushes, step, run,
}

abbrev limit_domain : Text
limit_domain = codes "[domain-limit]"

-- The rows that stand for a domain of their own.
unfoldable pub named_rows : List Row → ℕ
unfolding equal
named_rows [] = 0
named_rows (r ∷ rows) = (if equal r.domain (codes "[domain-limit]") then 0 else 1) + named_rows rows

named_rows-length : (rows : List Row) → named_rows rows ≤ length rows
unfolding named_rows
named_rows-length [] = omega arith
named_rows-length (r ∷ rows) = ground (arith, named_rows-length rows)

-- A row that is there stays one row, and a new one counts where it has its own domain.
named_rows-count_in :
    (start : ℕ) (domain : Text) (up down : ℕ) (rows : List Row)
    → named_rows (count_in start domain up down rows)
      ≤ named_rows rows + (if has_row start domain rows || equal domain limit_domain then 0 else 1)
unfolding named_rows count_in has_row
named_rows-count_in start domain up down [] = ground arith
named_rows-count_in start domain up down (r ∷ rows) =
    ground (arith, named_rows-count_in start domain up down rows)

named_rows-add :
    (host : Text) (up down now : ℕ) (j : Journal)
    → named_rows j.rows ≤ max_rows
    → named_rows (add host up down now j).rows ≤ max_rows
unfolding add counted_domain
named_rows-add host up down now j h =
    let start = slot now j.from in
    ground (
      arith,
      named_rows-count_in start host up down j.rows,
      named_rows-count_in start limit_domain up down j.rows,
      named_rows-length j.rows,
      equal_refl limit_domain,
    )

named_rows-flush :
    (entries : Option ℕ) (io : Option Bool) (now ns : ℕ) (j : Journal)
    → named_rows j.rows ≤ max_rows
    → named_rows (flush entries io now ns j).1.rows ≤ max_rows
unfolding flush named_rows
named_rows-flush entries io now ns j h = ground arith

-- Over any sequence of counted payloads and tried flushes at most 10000 rows wait that are not merged
-- under the limit's name, if so it was at the start.
pub named_rows-run :
    (es : List Event) (j : Journal)
    → named_rows j.rows ≤ max_rows
    → named_rows (run es j).rows ≤ max_rows
unfolding run step
named_rows-run [] j h = h
named_rows-run (counts host up down now ∷ es) j h =
    named_rows-run es (add host up down now j) (named_rows-add host up down now j h)
named_rows-run (flushes entries io now ns ∷ es) j h =
    named_rows-run es (flush entries io now ns j).1 (named_rows-flush entries io now ns j h)
