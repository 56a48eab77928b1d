-- ===== src/Tests/ReaderRuns.antt =====
-- A stream reader on stored data.
use iluvatar.Common.{
  ◌+◌, ◌-◌, ◌≤◌, ◌≡◌, ◌≢◌, refl, arith, min, Bytes, [], ◌∷◌, ◌++◌, length, take, drop, none, some,
  true, All,
}
use iluvatar.Common.{subst}
use iluvatar.Common.Sizes.{IsU64}
use iluvatar.Common.{bytes_eq, if◌then◌else◌}
use iluvatar.Archive.{EntryType, tar}
use iluvatar.Index.Store.{IndexEntry, ArchiveIndex}
use iluvatar.Engine.Read.{for_entry_range, reaches_past, required}
use iluvatar.Engine.Read.Entry.{read_engine_reads_the_entry, entry_past_the_end}
use iluvatar.Errors.{Error, Result, ok, err}
use iluvatar.Engine.Request.{seek_and_read, output_ready, done}
use iluvatar.Stream.{buf_size}
use iluvatar.Stream.Index.{
  Checkpoint, StreamIndex, validate, validate_checkpoints, has_descent, best_checkpoint_for_offset,
  best_index, partition_point,
}
use iluvatar.Stream.Reader.{
  StreamReader, finished, need_input_skipping, fresh, new, with_parts, clamp_len, is_some, step,
  step_once, step_in, restored, answer, check_full, serveable, skip, skipped, keep_end,
  is_stream_end, settle, provide_data, provided_state, read_output,
}
use iluvatar.Stream.Reader.Delivery.{Delivers, start, steps, seeks, reads}
use iluvatar.Stream.Reader.Range.{Marks, aimed, reader_reads_the_range, reader_reads_fully}
use iluvatar.Stream.Reader.Range.{new-IsValid}
use iluvatar.Stream.Reader.{seek_forward, seek_from, position, state_behind}
use iluvatar.Stream.Reader.Retargeting.{seek_forward-delivers}
use iluvatar.Stream.Reader.Fuel.{step-ne-none}
use iluvatar.Compress.None.{
  NoneDecompressor, none_decompressor, none_decodes, none-Restores, decompress, restore,
}
use iluvatar.Compress.None

-- Five bytes, with a checkpoint at the start.
abbrev content : Bytes
content = 10 ∷ 20 ∷ 30 ∷ 40 ∷ 50 ∷ []

abbrev first_checkpoint : Checkpoint (Unit {0})
first_checkpoint = record {
  compressed_offset = 0;
  bit_offset = 0;
  uncompressed_offset = 0;
  state = tt;
}

abbrev index : StreamIndex (Unit {0}) (Unit {0})
index = record {
  codec = tt;
  compressed_len = some 5;
  unpacked_len = some 5;
  checkpoints = first_checkpoint ∷ [];
  indexed_to = 5;
  complete = true;
}

abbrev create : Unit {0} → Result NoneDecompressor
create codec = ok None.new

index_sorted : validate index ≡ ok tt
unfolding validate validate_checkpoints has_descent
index_sorted = refl

index-Marks : All (Marks (none_decodes tt content) content) index.checkpoints
index-Marks = (
  record {
    restores = none-Restores tt content first_checkpoint refl (omega arith);
    compressed_le = omega arith;
    uncompressed_le = omega arith;
  },
  tt,
)

-- The reader of the two bytes behind the first, and what the calls on it leave.
abbrev reader : StreamReader NoneDecompressor (Unit {0})
reader = fresh None.new first_checkpoint (some 5) 1 2

abbrev restored_reader : StreamReader NoneDecompressor (Unit {0})
restored_reader = record reader { started = true; state = need_input_skipping 1 }

abbrev reading : StreamReader NoneDecompressor (Unit {0})
reading = record restored_reader {
  decompressor = record { total_in = 5; total_out = 5 };
  output = 20 ∷ 30 ∷ 40 ∷ 50 ∷ [];
  input_buf = content;
  input_pos = 5;
  compressed_pos = 5;
  unpacked_pos = 5;
  state = finished;
}

abbrev read_through : StreamReader NoneDecompressor (Unit {0})
read_through = record reading { output_read = 2; range_left = 0 }

reader_made : new create index 1 2 ≡ some (ok reader)
unfolding new with_parts best_checkpoint_for_offset best_index partition_point clamp_len is_some
reader_made = refl

first_step : step (none_decompressor tt) 1 reader ≡ some (seek_and_read 0 buf_size, restored_reader)
unfolding step step_once step_in restored answer check_full serveable restore
first_step = refl

second_step :
    step (none_decompressor tt) 8 (provide_data content restored_reader)
    ≡ some (output_ready, reading)
unfolding step step_once step_in answer check_full serveable provide_data provided_state skip
    skipped keep_end is_stream_end decompress
second_step = refl

read_run : read_output 100 reading ≡ (20 ∷ 30 ∷ [], read_through)
unfolding read_output serveable settle
read_run = refl

last_step : step (none_decompressor tt) 1 read_through ≡ some (done, read_through)
unfolding step step_once step_in answer check_full serveable
last_step = refl

-- What is read.
abbrev wanted : Bytes
wanted = 20 ∷ 30 ∷ []

content_fits : IsU64 (length content)
content_fits = omega arith

reading_run :
    Delivers
      (none_decodes tt content)
      content
      (aimed (none_decodes tt content) content index 1 2)
      content_fits
      content_fits
      reader
      wanted
      read_through
reading_run =
    subst
      (λ o.
        Delivers (none_decodes tt content) content
          (aimed (none_decodes tt content) content index 1 2) content_fits content_fits reader
          ([] ++ o.0) o.1)
      read_run
      (reads 100 (
        steps 8 reading (seeks 1 0 buf_size content [] restored_reader start first_step refl)
          second_step))

reader_reads_the_range_example :
    (wanted ≡ take (length wanted) (drop 1 content)) × (length wanted ≤ clamp_len (some 5) 1 2)
reader_reads_the_range_example =
    reader_reads_the_range (none_decodes tt content) content content_fits content_fits create index
      1 2 reader read_through wanted index_sorted index-Marks reader_made reading_run

reader_reads_fully_example :
    (wanted ≡ take (min 2 (5 - 1)) (drop 1 content)) × (length wanted ≡ min 2 (5 - 1))
reader_reads_fully_example =
    reader_reads_fully (none_decodes tt content) content content_fits content_fits create index 1 2
      5 1 reader read_through read_through wanted index_sorted index-Marks refl reader_made
      reading_run last_step

step-ne-none_example : step (none_decompressor tt) 7 (provide_data content restored_reader) ≢ none
unfolding provide_data provided_state
step-ne-none_example =
    step-ne-none (none_decompressor tt) 7 (provide_data content restored_reader) (omega arith)

-- An archive of one entry, the last four bytes.
abbrev file : IndexEntry
file = record {
  path = 102 ∷ [];
  size = 4;
  entry_type = EntryType.regular;
  mode = 0o644;
  uid = 0;
  gid = 0;
  mtime = 0;
  link_target = none;
  uncompressed_offset = 1;
  checkpoint_index = 0;
}

abbrev archive : ArchiveIndex (Unit {0}) (Unit {0}) (Unit {0})
archive = record {
  metadata = record {
    version = 6;
    compression = tt;
    archive_format = tar;
    archive_size = 5;
    uncompressed_size = 5;
    complete = true;
  };
  stream = index;
  entries = file ∷ [];
  by_path = λ path. if bytes_eq path (102 ∷ []) then some 0 else none;
}

made_for_file : for_entry_range create archive file 0 2 ≡ some (ok reader)
unfolding for_entry_range reaches_past required new with_parts best_checkpoint_for_offset best_index
    partition_point clamp_len is_some
made_for_file = refl

read_engine_reads_the_entry_example :
    (wanted ≡ take (min 2 (4 - min 0 4)) (drop (1 + min 0 4) content))
    × (length wanted ≡ min 2 (4 - min 0 4))
unfolding clamp_len is_some
read_engine_reads_the_entry_example =
    read_engine_reads_the_entry (none_decodes tt content) content content_fits content_fits create
      archive file 0 2 1 reader read_through read_through wanted index_sorted index-Marks
      (omega arith) made_for_file reading_run last_step

entry_past_the_end_example :
    for_entry_range create archive (record file { size = 5 }) 0 2 ≡ some (err Error.truncated_input)
entry_past_the_end_example =
    entry_past_the_end create archive (record file { size = 5 }) 0 2 5 refl (omega arith)
      (omega arith)

-- The reader aimed at the last byte, which it has in its buffer.
abbrev sought_reader : StreamReader NoneDecompressor (Unit {0})
sought_reader = record read_through {
  target_offset = 4;
  target_len = 1;
  range_left = 1;
  output_read = 3;
}

abbrev last_byte : Bytes
last_byte = 50 ∷ []

sought_run : seek_forward 4 1 read_through ≡ (ok tt, sought_reader)
unfolding seek_forward seek_from position settle state_behind serveable clamp_len
sought_run = refl

last_byte_read :
    read_output 100 sought_reader
    ≡ (last_byte, record sought_reader { output = []; output_read = 0; range_left = 0 })
unfolding read_output serveable settle
last_byte_read = refl

last_byte_run :
    Delivers
      (none_decodes tt content)
      content
      (record { offset = 4; len = clamp_len (some 5) 4 1; full = true })
      content_fits
      content_fits
      sought_reader
      last_byte
      (record sought_reader { output = []; output_read = 0; range_left = 0 })
last_byte_run =
    subst
      (λ o.
        Delivers (none_decodes tt content) content
          (record { offset = 4; len = clamp_len (some 5) 4 1; full = true }) content_fits
          content_fits sought_reader ([] ++ o.0) o.1)
      last_byte_read (reads 100 start)

seek_forward-delivers_example :
    (last_byte ≡ take (length last_byte) (drop 4 content))
    × (length last_byte ≤ clamp_len (some 5) 4 1)
unfolding is_some
seek_forward-delivers_example =
    seek_forward-delivers (none_decodes tt content) content content_fits content_fits
      (aimed (none_decodes tt content) content index 1 2) reader read_through sought_reader
      (record sought_reader { output = []; output_read = 0; range_left = 0 }) wanted last_byte 4 1
      (new-IsValid (none_decodes tt content) content create index 1 2 reader index_sorted
        index-Marks reader_made)
      reading_run sought_run last_byte_run
