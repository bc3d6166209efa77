-- ===== src/Tests/Files.antt =====
-- Transactions with the Linux backend.
use proxyctl.Prelude.{true, ◌≢◌, ◌≡◌, refl, false, [], ◌∷◌, some, none}
use proxyctl.Text.{Text, codes, split, has_prefix, equal}
use proxyctl.Writer.Reached.{Reaches, open_output_dir-Reaches}
use proxyctl.Prelude.{ℕ, ◌%◌, List}
use proxyctl.Writer.Completed.{Outcome, transaction-Outcome}
use proxyctl.Writer.Walk.{Entries, open_output_dir}
use proxyctl.Safex.Codes.{ok, err, io}
use proxyctl.Table.{Table, lookup}
use proxyctl.Writer.Names.{Bytes, validate_output_names}
use proxyctl.Writer.Walk.{Node, directory, nil, entry}
use proxyctl.Writer.Transaction.{transaction, undefined_message}
use proxyctl.Writer.Kernel.{fails, Kernel, Entry, fine, appears, linux}
use proxyctl.Writer.Undone.{transaction-made}
use proxyctl.Writer.Kept.{transaction-Kept}

abbrev tree : Node
tree = directory 0o755 (entry (codes "out") (directory 0o700 nil) nil)

abbrev pub old_entry : Entry
old_entry = record { ino = 7; bytes = 1 ∷ []; is_link = false; ours = false }

-- Another process makes an entry, and a later system call fails.
abbrev pub machine : Kernel
machine = record {
  root = tree;
  cwd = tree;
  finals = (codes "notes.txt", old_entry) ∷ [];
  staged = none;
  fresh = 100;
  suffix = codes "0a0b";
  events = fine ∷ fine ∷ fine ∷ fine ∷ fine ∷ fine ∷ appears (codes "gateway.key") old_entry ∷ [];
}

abbrev output_files : Table Bytes
output_files = (codes "gateway.key", 1 ∷ 2 ∷ []) ∷ (codes "gateway.crt", 3 ∷ []) ∷ []

transaction-Kept_example :
    lookup (codes "notes.txt") (transaction linux output_files (codes "/out") machine).1.finals
    ≡ some old_entry
unfolding lookup proxyctl.Text.equal
transaction-Kept_example =
    transaction-Kept output_files (codes "/out") machine (codes "notes.txt") old_entry refl

-- An entry of this program from an earlier run is there, and the sync of the first file fails.
abbrev own_entry : Entry
own_entry = record { ino = 8; bytes = 9 ∷ []; is_link = false; ours = true }

abbrev failing_machine : Kernel
failing_machine = record {
  root = tree;
  cwd = tree;
  finals = (codes "egress.crt", own_entry) ∷ [];
  staged = none;
  fresh = 100;
  suffix = codes "0a0b";
  events = fine ∷ fine ∷ fine ∷ fine ∷ fine ∷ fine ∷ fine ∷ fine ∷ fails ∷ [];
}

failing_machine_fails :
    (transaction linux output_files (codes "/out") failing_machine).0
    ≡ err io "cannot sync output file"
unfolding transaction linux proxyctl.Writer.Transaction.bytes_of
    proxyctl.Writer.Transaction.close_file proxyctl.Writer.Transaction.sync_file
    proxyctl.Writer.Transaction.fill_file proxyctl.Writer.Transaction.stage_one
    proxyctl.Writer.Transaction.stage_all proxyctl.Writer.Transaction.publish_one
    proxyctl.Writer.Transaction.publish_all proxyctl.Writer.Transaction.settle
    proxyctl.Writer.Transaction.settle_run proxyctl.Writer.Transaction.body
    proxyctl.Writer.Transaction.remove_staged proxyctl.Writer.Transaction.rollback
    proxyctl.Writer.Transaction.conclude proxyctl.Writer.Transaction.with_staging
    proxyctl.Writer.Transaction.enter_staging proxyctl.Writer.Transaction.open_staging
    proxyctl.Writer.Transaction.make_staging proxyctl.Writer.Transaction.refusal
    proxyctl.Writer.Transaction.refuse_one proxyctl.Writer.Transaction.refuse_existing
    proxyctl.Writer.Transaction.start_staging proxyctl.Writer.Transaction.with_output
    proxyctl.Writer.Transaction.hold_output proxyctl.Writer.Transaction.open_output
    proxyctl.Writer.Kernel.add_absent proxyctl.Writer.Kernel.tick_on proxyctl.Writer.Kernel.tick
    proxyctl.Writer.Kernel.syscall proxyctl.Writer.Kernel.make_staging_dir
    proxyctl.Writer.Kernel.mkdir_at proxyctl.Writer.Kernel.make_file proxyctl.Writer.Kernel.make_if
    proxyctl.Writer.Kernel.inspect_made proxyctl.Writer.Kernel.create_at proxyctl.Writer.Kernel.fill
    proxyctl.Writer.Kernel.write_file proxyctl.Writer.Kernel.link_entry
    proxyctl.Writer.Kernel.link_if proxyctl.Writer.Kernel.link_at proxyctl.Writer.Kernel.drop_staged
    proxyctl.Writer.Kernel.unlink_staged proxyctl.Writer.Kernel.unlink_linked
    proxyctl.Writer.Kernel.publish proxyctl.Writer.Kernel.remove_same
    proxyctl.Writer.Kernel.remove_found proxyctl.Writer.Kernel.remove_if_same_at
    proxyctl.Writer.Kernel.drop_staging_dir proxyctl.Writer.Kernel.rmdir_at
    proxyctl.Writer.Kernel.lstat_at proxyctl.Writer.Walk.find proxyctl.Writer.Walk.opened
    proxyctl.Writer.Walk.open_at proxyctl.Writer.Walk.walk proxyctl.Writer.Walk.check_mode
    proxyctl.Writer.Walk.open_output_dir proxyctl.Writer.Names.has_key proxyctl.Writer.Names.ordered
    proxyctl.Writer.Names.check_names proxyctl.Writer.Names.validate_output_names
    proxyctl.Text.equal proxyctl.Text.member proxyctl.Text.split proxyctl.Text.has_prefix
    proxyctl.Table.lookup proxyctl.Table.assign proxyctl.Table.without
failing_machine_fails = refl

failing_machine_keeps :
    lookup
      (codes "egress.crt")
      (transaction linux output_files (codes "/out") failing_machine).1.finals
    ≡ some own_entry
unfolding transaction linux proxyctl.Writer.Transaction.bytes_of
    proxyctl.Writer.Transaction.close_file proxyctl.Writer.Transaction.sync_file
    proxyctl.Writer.Transaction.fill_file proxyctl.Writer.Transaction.stage_one
    proxyctl.Writer.Transaction.stage_all proxyctl.Writer.Transaction.publish_one
    proxyctl.Writer.Transaction.publish_all proxyctl.Writer.Transaction.settle
    proxyctl.Writer.Transaction.settle_run proxyctl.Writer.Transaction.body
    proxyctl.Writer.Transaction.remove_staged proxyctl.Writer.Transaction.rollback
    proxyctl.Writer.Transaction.conclude proxyctl.Writer.Transaction.with_staging
    proxyctl.Writer.Transaction.enter_staging proxyctl.Writer.Transaction.open_staging
    proxyctl.Writer.Transaction.make_staging proxyctl.Writer.Transaction.refusal
    proxyctl.Writer.Transaction.refuse_one proxyctl.Writer.Transaction.refuse_existing
    proxyctl.Writer.Transaction.start_staging proxyctl.Writer.Transaction.with_output
    proxyctl.Writer.Transaction.hold_output proxyctl.Writer.Transaction.open_output
    proxyctl.Writer.Kernel.add_absent proxyctl.Writer.Kernel.tick_on proxyctl.Writer.Kernel.tick
    proxyctl.Writer.Kernel.syscall proxyctl.Writer.Kernel.make_staging_dir
    proxyctl.Writer.Kernel.mkdir_at proxyctl.Writer.Kernel.make_file proxyctl.Writer.Kernel.make_if
    proxyctl.Writer.Kernel.inspect_made proxyctl.Writer.Kernel.create_at proxyctl.Writer.Kernel.fill
    proxyctl.Writer.Kernel.write_file proxyctl.Writer.Kernel.link_entry
    proxyctl.Writer.Kernel.link_if proxyctl.Writer.Kernel.link_at proxyctl.Writer.Kernel.drop_staged
    proxyctl.Writer.Kernel.unlink_staged proxyctl.Writer.Kernel.unlink_linked
    proxyctl.Writer.Kernel.publish proxyctl.Writer.Kernel.remove_same
    proxyctl.Writer.Kernel.remove_found proxyctl.Writer.Kernel.remove_if_same_at
    proxyctl.Writer.Kernel.drop_staging_dir proxyctl.Writer.Kernel.rmdir_at
    proxyctl.Writer.Kernel.lstat_at proxyctl.Writer.Walk.find proxyctl.Writer.Walk.opened
    proxyctl.Writer.Walk.open_at proxyctl.Writer.Walk.walk proxyctl.Writer.Walk.check_mode
    proxyctl.Writer.Walk.open_output_dir proxyctl.Writer.Names.has_key proxyctl.Writer.Names.ordered
    proxyctl.Writer.Names.check_names proxyctl.Writer.Names.validate_output_names
    proxyctl.Text.equal proxyctl.Text.member proxyctl.Text.split proxyctl.Text.has_prefix
    proxyctl.Table.lookup proxyctl.Table.assign proxyctl.Table.without
failing_machine_keeps = refl

sync_is_not_undefined : "cannot sync output file" ≢ undefined_message
sync_is_not_undefined h = cc

transaction-made_example : lookup (codes "egress.crt") failing_machine.finals ≡ some own_entry
transaction-made_example =
    transaction-made output_files (codes "/out") failing_machine io "cannot sync output file"
      (codes "egress.crt") own_entry failing_machine_fails sync_is_not_undefined
      failing_machine_keeps refl

-- Without a failure both files are published.
abbrev pub good_machine : Kernel
good_machine = record failing_machine { finals = []; events = [] }

good_machine_publishes :
    let k = (transaction linux output_files (codes "/out") good_machine).1 in
    k.finals
    ≡ (codes "gateway.crt", record { ino = 100; bytes = 3 ∷ []; is_link = false; ours = true })
      ∷ (
        codes "gateway.key",
        record { ino = 101; bytes = 1 ∷ 2 ∷ []; is_link = false; ours = true },
      )
      ∷ []
unfolding transaction linux proxyctl.Writer.Transaction.bytes_of
    proxyctl.Writer.Transaction.close_file proxyctl.Writer.Transaction.sync_file
    proxyctl.Writer.Transaction.fill_file proxyctl.Writer.Transaction.stage_one
    proxyctl.Writer.Transaction.stage_all proxyctl.Writer.Transaction.publish_one
    proxyctl.Writer.Transaction.publish_all proxyctl.Writer.Transaction.settle
    proxyctl.Writer.Transaction.settle_run proxyctl.Writer.Transaction.body
    proxyctl.Writer.Transaction.remove_staged proxyctl.Writer.Transaction.rollback
    proxyctl.Writer.Transaction.conclude proxyctl.Writer.Transaction.with_staging
    proxyctl.Writer.Transaction.enter_staging proxyctl.Writer.Transaction.open_staging
    proxyctl.Writer.Transaction.make_staging proxyctl.Writer.Transaction.refusal
    proxyctl.Writer.Transaction.refuse_one proxyctl.Writer.Transaction.refuse_existing
    proxyctl.Writer.Transaction.start_staging proxyctl.Writer.Transaction.with_output
    proxyctl.Writer.Transaction.hold_output proxyctl.Writer.Transaction.open_output
    proxyctl.Writer.Kernel.add_absent proxyctl.Writer.Kernel.tick_on proxyctl.Writer.Kernel.tick
    proxyctl.Writer.Kernel.syscall proxyctl.Writer.Kernel.make_staging_dir
    proxyctl.Writer.Kernel.mkdir_at proxyctl.Writer.Kernel.make_file proxyctl.Writer.Kernel.make_if
    proxyctl.Writer.Kernel.inspect_made proxyctl.Writer.Kernel.create_at proxyctl.Writer.Kernel.fill
    proxyctl.Writer.Kernel.write_file proxyctl.Writer.Kernel.link_entry
    proxyctl.Writer.Kernel.link_if proxyctl.Writer.Kernel.link_at proxyctl.Writer.Kernel.drop_staged
    proxyctl.Writer.Kernel.unlink_staged proxyctl.Writer.Kernel.unlink_linked
    proxyctl.Writer.Kernel.publish proxyctl.Writer.Kernel.remove_same
    proxyctl.Writer.Kernel.remove_found proxyctl.Writer.Kernel.remove_if_same_at
    proxyctl.Writer.Kernel.drop_staging_dir proxyctl.Writer.Kernel.rmdir_at
    proxyctl.Writer.Kernel.lstat_at proxyctl.Writer.Walk.find proxyctl.Writer.Walk.opened
    proxyctl.Writer.Walk.open_at proxyctl.Writer.Walk.walk proxyctl.Writer.Walk.check_mode
    proxyctl.Writer.Walk.open_output_dir proxyctl.Writer.Names.has_key proxyctl.Writer.Names.ordered
    proxyctl.Writer.Names.check_names proxyctl.Writer.Names.validate_output_names
    proxyctl.Text.equal proxyctl.Text.member proxyctl.Text.split proxyctl.Text.has_prefix
    proxyctl.Table.lookup proxyctl.Table.assign proxyctl.Table.without
good_machine_publishes = refl

abbrev good_names : List Text
good_names = codes "gateway.crt" ∷ codes "gateway.key" ∷ []

good_names_accepted : validate_output_names output_files ≡ ok good_names
unfolding validate_output_names proxyctl.Writer.Names.has_key proxyctl.Writer.Names.ordered
    proxyctl.Writer.Names.check_names proxyctl.Text.equal proxyctl.Text.member proxyctl.Table.lookup
good_names_accepted = refl

good_machine_succeeds : (transaction linux output_files (codes "/out") good_machine).0 ≡ ok tt
unfolding transaction linux proxyctl.Writer.Transaction.bytes_of
    proxyctl.Writer.Transaction.close_file proxyctl.Writer.Transaction.sync_file
    proxyctl.Writer.Transaction.fill_file proxyctl.Writer.Transaction.stage_one
    proxyctl.Writer.Transaction.stage_all proxyctl.Writer.Transaction.publish_one
    proxyctl.Writer.Transaction.publish_all proxyctl.Writer.Transaction.settle
    proxyctl.Writer.Transaction.settle_run proxyctl.Writer.Transaction.body
    proxyctl.Writer.Transaction.remove_staged proxyctl.Writer.Transaction.rollback
    proxyctl.Writer.Transaction.conclude proxyctl.Writer.Transaction.with_staging
    proxyctl.Writer.Transaction.enter_staging proxyctl.Writer.Transaction.open_staging
    proxyctl.Writer.Transaction.make_staging proxyctl.Writer.Transaction.refusal
    proxyctl.Writer.Transaction.refuse_one proxyctl.Writer.Transaction.refuse_existing
    proxyctl.Writer.Transaction.start_staging proxyctl.Writer.Transaction.with_output
    proxyctl.Writer.Transaction.hold_output proxyctl.Writer.Transaction.open_output
    proxyctl.Writer.Kernel.add_absent proxyctl.Writer.Kernel.tick_on proxyctl.Writer.Kernel.tick
    proxyctl.Writer.Kernel.syscall proxyctl.Writer.Kernel.make_staging_dir
    proxyctl.Writer.Kernel.mkdir_at proxyctl.Writer.Kernel.make_file proxyctl.Writer.Kernel.make_if
    proxyctl.Writer.Kernel.inspect_made proxyctl.Writer.Kernel.create_at proxyctl.Writer.Kernel.fill
    proxyctl.Writer.Kernel.write_file proxyctl.Writer.Kernel.link_entry
    proxyctl.Writer.Kernel.link_if proxyctl.Writer.Kernel.link_at proxyctl.Writer.Kernel.drop_staged
    proxyctl.Writer.Kernel.unlink_staged proxyctl.Writer.Kernel.unlink_linked
    proxyctl.Writer.Kernel.publish proxyctl.Writer.Kernel.remove_same
    proxyctl.Writer.Kernel.remove_found proxyctl.Writer.Kernel.remove_if_same_at
    proxyctl.Writer.Kernel.drop_staging_dir proxyctl.Writer.Kernel.rmdir_at
    proxyctl.Writer.Kernel.lstat_at proxyctl.Writer.Walk.find proxyctl.Writer.Walk.opened
    proxyctl.Writer.Walk.open_at proxyctl.Writer.Walk.walk proxyctl.Writer.Walk.check_mode
    proxyctl.Writer.Walk.open_output_dir proxyctl.Writer.Names.has_key proxyctl.Writer.Names.ordered
    proxyctl.Writer.Names.check_names proxyctl.Writer.Names.validate_output_names
    proxyctl.Text.equal proxyctl.Text.member proxyctl.Text.split proxyctl.Text.has_prefix
    proxyctl.Table.lookup proxyctl.Table.assign proxyctl.Table.without
good_machine_succeeds = refl

transaction-Outcome_example :
    Outcome output_files good_names (transaction linux output_files (codes "/out") good_machine).1
transaction-Outcome_example =
    transaction-Outcome output_files (codes "/out") good_machine good_names good_names_accepted
      good_machine_succeeds

open_output_dir-Reaches_example :
    Reaches tree (split b'/' (codes "/./out/")) (directory 0o700 nil)
    × ((mode : ℕ) × (es : Entries) × (directory 0o700 nil ≡ directory mode es)
        × (mode % 0o1000 ≡ 0o700))
unfolding open_output_dir proxyctl.Writer.Walk.walk proxyctl.Writer.Walk.find
    proxyctl.Writer.Walk.opened proxyctl.Writer.Walk.open_at proxyctl.Writer.Walk.check_mode
    has_prefix split equal
open_output_dir-Reaches_example =
    open_output_dir-Reaches tree tree (codes "/./out/") (directory 0o700 nil) refl
