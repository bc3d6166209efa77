-- ===== src/Traffic/Journal.antt =====
-- engine/mihomo/overlay/tunnel/statistic/domain_accounting.go: `add` and `flush`.
-- Times are natural numbers of seconds. A counter is the bit pattern of an int64, so what is positive
-- lies between 0 and 2 ^ 63.
use proxyctl.Prelude.{
  ℕ, ◌+◌, ◌*◌, ◌/◌, ◌%◌, ◌^◌, Bool, true, false, not, ◌&&◌, ◌||◌, List, [], ◌∷◌, Option, none, some,
  if◌then◌else◌, ltb, leb, ◌==◌, length,
}
use proxyctl.Text.{Text, codes, equal}
use proxyctl.Credential.Bundle.{before}

abbrev pub word : ℕ
word = 2 ^ 64

-- `domainRow`, with the `domainKey` that it stands under in the map
pub record Row : Type 0 where
  pub start : ℕ
  pub domain : Text
  pub upload : ℕ
  pub download : ℕ

-- `domainBatch`
pub record Batch : Type 0 where
  pub version : ℕ
  pub emitted_ns : ℕ
  pub epoch : Text
  pub sequence : ℕ
  pub from : ℕ
  pub to : ℕ
  pub unclean_previous : Bool
  pub rows : List Row

-- `domainJournal`, with the batches that its directory has received under their sequence numbers.
pub record Journal : Type 0 where
  pub epoch : Text
  pub seq : ℕ
  pub from : ℕ
  pub unclean : Bool
  pub rows : List Row
  pub spool : List Batch

unfoldable pub is_positive : ℕ → Bool
is_positive n = not (n == 0) && ltb n (2 ^ 63)

unfoldable pub is_at : ℕ → Text → Row → Bool
unfolding equal
is_at start domain r = r.start == start && equal r.domain domain

unfoldable pub has_row : ℕ → Text → List Row → Bool
unfolding is_at
has_row start domain [] = false
has_row start domain (r ∷ rows) = is_at start domain r || has_row start domain rows

-- The row of a key grows, or a new row starts.
unfoldable pub count_in : ℕ → Text → ℕ → ℕ → List Row → List Row
unfolding is_at
count_in start domain up down [] =
    (record { start = start; domain = domain; upload = up % word; download = down % word }) ∷ []
count_in start domain up down (r ∷ rows) =
    let rest = count_in start domain up down rows in
    if is_at start domain r
    then (record r { upload = (r.upload + up) % word; download = (r.download + down) % word })
      ∷ rows
    else r ∷ rest

abbrev pub max_rows : ℕ
max_rows = 10000

-- The start of the quarter of an hour that counts.
unfoldable pub slot : ℕ → ℕ → ℕ
slot now from = let at = if ltb now from then from else now in at / 900 * 900

-- The domain that counts: a new one is merged when the rows are many.
unfoldable pub counted_domain : ℕ → Text → List Row → Text
unfolding has_row
counted_domain start host rows =
    if not (has_row start host rows) && leb max_rows (length rows)
    then codes "[domain-limit]"
    else host

-- `add`
unfoldable pub add : Text → ℕ → ℕ → ℕ → Journal → Journal
unfolding is_positive slot counted_domain count_in
add host up down now j =
    let start = slot now j.from in
    if not (is_positive up) && not (is_positive down)
    then j
    else record j { rows = count_in start (counted_domain start host j.rows) up down j.rows }

-- The order of `sort.Slice`
unfoldable pub precedes : Row → Row → Bool
unfolding before
precedes a b = if not (a.start == b.start) then ltb a.start b.start else before a.domain b.domain

unfoldable pub insert_row : Row → List Row → List Row
unfolding precedes
insert_row r [] = r ∷ []
insert_row r (s ∷ rows) =
    let rest = insert_row r rows in if precedes s r then s ∷ rest else r ∷ s ∷ rows

unfoldable pub sort_rows : List Row → List Row
unfolding insert_row
sort_rows [] = []
sort_rows (r ∷ rows) = insert_row r (sort_rows rows)

unfoldable pub without_sequence : ℕ → List Batch → List Batch
without_sequence n [] = []
without_sequence n (c ∷ spool) =
    let rest = without_sequence n spool in if c.sequence == n then rest else c ∷ rest

-- The rename gives the batch the file name of its sequence number, in place of a file of this name.
unfoldable pub store : Batch → List Batch → List Batch
unfolding without_sequence
store b spool = b ∷ without_sequence b.sequence spool

unfoldable pub batch_of : ℕ → ℕ → Journal → Batch
unfolding sort_rows
batch_of now ns j = record {
  version = 1;
  emitted_ns = ns;
  epoch = j.epoch;
  sequence = j.seq + 1;
  from = j.from;
  to = now;
  unclean_previous = j.unclean;
  rows = sort_rows j.rows;
}

-- The assignments at the end of `flush`
abbrev pub committed : ℕ → Journal → Journal
committed now j = record j { rows = []; seq = j.seq + 1; from = now; unclean = false }

-- `flush`, true for a nil error. `entries` is what listing the directory gives; `io` is none for an
-- error up to the rename, and behind it whether the directory is synced.
unfoldable pub flush : Option ℕ → Option Bool → ℕ → ℕ → Journal → Bool × Journal
unfolding batch_of store
flush none io now ns j = (false, j)
flush (some entries) io now ns j =
    if ltb 10000 entries then (false, j) else if ltb now j.from then (false, j) else elim io [
      | none ↦ (false, j)
      | some synced ↦
          let stored = record j { spool = store (batch_of now ns j) j.spool } in
          if synced then (true, committed now stored) else (false, stored)
    ]

-- What happens to a journal: payload bytes are counted, or a flush is tried.
pub data Event : Type 0 where
  counts : Text → ℕ → ℕ → ℕ → Event
  flushes : Option ℕ → Option Bool → ℕ → ℕ → Event

unfoldable pub step : Event → Journal → Journal
unfolding add flush
step (counts host up down now) j = add host up down now j
step (flushes entries io now ns) j = (flush entries io now ns j).1

unfoldable pub run : List Event → Journal → Journal
unfolding step
run [] j = j
run (e ∷ es) j = run es (step e j)
