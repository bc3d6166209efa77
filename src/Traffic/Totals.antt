-- ===== src/Traffic/Totals.antt =====
-- The counted bytes in committed batches and waiting rows.
use proxyctl.Prelude.{
  ℕ, ◌≡◌, ◌+◌, ◌%◌, refl, arith, Bool, not, ◌&&◌, List, [], ◌∷◌, Option, leb, if◌then◌else◌,
}
use proxyctl.Text.{Text}
use proxyctl.Traffic.Journal.{
  word, Row, Batch, Journal, is_positive, count_in, slot, counted_domain, add, insert_row,
  sort_rows, store, without_sequence, batch_of, flush, Event, counts, flushes, step, run,
}

-- The two directions of traffic.
pub data Way : Type 0 where
  up_way down_way : Way

abbrev pub pick : Way → ℕ → ℕ → ℕ
pick up_way up down = up
pick down_way up down = down

unfoldable pub total : Way → List Row → ℕ
total w [] = 0
total w (r ∷ rows) = pick w r.upload r.download + total w rows

-- The bytes of the batches up to a sequence number.
unfoldable pub stored : Way → ℕ → List Batch → ℕ
unfolding total
stored w n [] = 0
stored w n (b ∷ spool) =
    let rest = stored w n spool in if leb b.sequence n then total w b.rows + rest else rest

-- The bytes in committed batches and in the rows that wait.
unfoldable pub accounted : Way → Journal → ℕ
unfolding stored total
accounted w j = stored w j.seq j.spool + total w j.rows

-- What `add` counts: nothing when neither number is positive.
unfoldable pub counted : Way → Event → ℕ
unfolding is_positive
counted w (counts host up down now) =
    if not (is_positive up) && not (is_positive down) then 0 else pick w up down
counted w (flushes entries io now ns) = 0

unfoldable pub all_counted : Way → List Event → ℕ
unfolding counted
all_counted w [] = 0
all_counted w (e ∷ es) = counted w e + all_counted w es

total-count_in :
    (w : Way) (start : ℕ) (domain : Text) (up down : ℕ) (rows : List Row)
    → total w (count_in start domain up down rows) % word ≡ (total w rows + pick w up down) % word
unfolding total count_in
total-count_in up_way start domain up down [] = ground arith
total-count_in down_way start domain up down [] = ground arith
total-count_in up_way start domain up down (r ∷ rows) =
    ground (arith, total-count_in up_way start domain up down rows)
total-count_in down_way start domain up down (r ∷ rows) =
    ground (arith, total-count_in down_way start domain up down rows)

total-insert_row :
    (w : Way) (r : Row) (rows : List Row)
    → total w (insert_row r rows) ≡ pick w r.upload r.download + total w rows
unfolding total insert_row
total-insert_row w r [] = refl
total-insert_row w r (s ∷ rows) = ground (arith, total-insert_row w r rows)

total-sort_rows : (w : Way) (rows : List Row) → total w (sort_rows rows) ≡ total w rows
unfolding total sort_rows
total-sort_rows w [] = refl
total-sort_rows w (r ∷ rows) =
    omega (arith, total-insert_row w r (sort_rows rows), total-sort_rows w rows)

stored-without_sequence :
    (w : Way) (n : ℕ) (spool : List Batch)
    → (stored w (n + 1) (without_sequence (n + 1) spool) ≡ stored w n spool)
      × (stored w n (without_sequence (n + 1) spool) ≡ stored w n spool)
unfolding stored without_sequence
stored-without_sequence w n [] = (refl, refl)
stored-without_sequence w n (c ∷ spool) = ground (arith, stored-without_sequence w n spool)

accounted-add :
    (w : Way) (host : Text) (up down now : ℕ) (j : Journal)
    → accounted w (add host up down now j) % word
      ≡ (accounted w j + counted w (counts host up down now)) % word
unfolding accounted add counted
accounted-add w host up down now j = ground (
  arith,
  total-count_in w (slot now j.from) (counted_domain (slot now j.from) host j.rows) up down j.rows,
)

-- A flush moves bytes from the rows into a batch or leaves them where they are.
accounted-flush :
    (w : Way) (entries : Option ℕ) (io : Option Bool) (now ns : ℕ) (j : Journal)
    → accounted w (flush entries io now ns j).1 ≡ accounted w j
unfolding accounted flush store batch_of stored total
accounted-flush w entries io now ns j =
    ground (arith, stored-without_sequence w j.seq j.spool, total-sort_rows w j.rows)

-- Over any sequence of counted payloads and tried flushes, whichever of them fail and at which file
-- operation, the bytes of the committed batches together with those of the waiting rows grow in each
-- direction by exactly the counted bytes, modulo 2 ^ 64.
pub accounted-run :
    (w : Way) (es : List Event) (j : Journal)
    → accounted w (run es j) % word ≡ (accounted w j + all_counted w es) % word
unfolding run step all_counted counted
accounted-run w [] j = ground arith
accounted-run w (counts host up down now ∷ es) j =
    omega (arith, accounted-run w es (add host up down now j), accounted-add w host up down now j)
accounted-run w (flushes entries io now ns ∷ es) j =
    omega (
      arith,
      accounted-run w es (flush entries io now ns j).1,
      accounted-flush w entries io now ns j,
    )
