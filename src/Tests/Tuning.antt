-- ===== src/Tests/Tuning.antt =====
-- A send that sets its chunk size, by a manager that turns checksums off.
use rtcforge.Prelude.{false, none, some}
use rtcforge.Sdk.FileTransfer.Tuning.{TuningOptions}

abbrev nothing : TuningOptions
nothing = record {
  chunk_size = none;
  high_water_mark = none;
  low_water_mark = none;
  parallel_channels = none;
  checksum = none;
  max_file_size = none;
  offer_timeout_ms = none;
  resumable = none;
}

abbrev send : TuningOptions
send = record nothing { chunk_size = some 1000 }

abbrev manager : TuningOptions
manager = record nothing { checksum = some false; max_file_size = some 5000 }
