-- ===== src/Tests/Journals.antt =====
-- A traffic journal over counts, a failed flush and a flush.
use proxyctl.Prelude.{◌≡◌, ◌≤◌, ◌+◌, ◌%◌, refl, arith, true, false, List, [], ◌∷◌, some}
use proxyctl.Text.{codes}
use proxyctl.Traffic.Journal.{word, Journal, Event, counts, flushes, run, max_rows}
use proxyctl.Traffic.Totals.{accounted, all_counted, up_way, accounted-run}
use proxyctl.Traffic.Bounds.{named_rows, named_rows-run}

abbrev new_journal : Journal
new_journal = record {
  epoch = codes "e";
  seq = 0;
  from = 1000;
  unclean = false;
  rows = [];
  spool = [];
}

abbrev day : List Event
day =
    counts (codes "a.example") 5 7 1000
    ∷ counts (codes "b.example") 1 0 900
    ∷ flushes (some 3) (some false) 1002 1
    ∷ counts (codes "a.example") 10 0 1003
    ∷ flushes (some 3) (some true) 1004 2
    ∷ counts (codes "a.example") 4 4 2000
    ∷ []

day_counted : accounted up_way (run day new_journal) ≡ 20
unfolding accounted run
day_counted = refl

accounted-run_example :
    accounted up_way (run day new_journal) % word
    ≡ (accounted up_way new_journal + all_counted up_way day) % word
accounted-run_example = accounted-run up_way day new_journal

named_rows-run_example : named_rows (run day new_journal).rows ≤ max_rows
unfolding named_rows
named_rows-run_example = named_rows-run day new_journal (omega arith)
