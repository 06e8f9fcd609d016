-- ===== src/Sdk/FileTransfer/Tuning.antt =====
-- packages/sdk/src/filetransfer/types.ts: the tuning of a transfer, and how options are layered.
use rtcforge.Prelude.{ℕ, Bool, true, false, Option, none, some, ◌≡◌, refl}

-- `TransferTuning` with the three further options of `resolveTuning`, or a partial `ResolvedTuning`.
pub record TuningOptions : Type 0 where
  pub chunk_size : Option ℕ
  pub high_water_mark : Option ℕ
  pub low_water_mark : Option ℕ
  pub parallel_channels : Option ℕ
  pub checksum : Option Bool
  pub max_file_size : Option ℕ
  pub offer_timeout_ms : Option ℕ
  pub resumable : Option Bool

pub record ResolvedTuning : Type 0 where
  pub chunk_size : ℕ
  pub high_water_mark : ℕ
  pub low_water_mark : ℕ
  pub parallel_channels : ℕ
  pub checksum : Bool
  pub max_file_size : Option ℕ
  pub offer_timeout_ms : ℕ
  pub resumable : Bool

abbrev pub default_chunk_size : ℕ
default_chunk_size = 16376

abbrev pub default_high_water_mark : ℕ
default_high_water_mark = 4194304

abbrev pub default_low_water_mark : ℕ
default_low_water_mark = 262144

abbrev pub default_parallel_channels : ℕ
default_parallel_channels = 1

abbrev pub default_offer_timeout_ms : ℕ
default_offer_timeout_ms = 30000

-- `a ?? b`, where `b` may be missing too.
abbrev pub first {ℓ} : {A : Type ℓ} → Option A → Option A → Option A
first none b = b
first (some a) b = some a

-- `a ?? b`
abbrev pub or_default {ℓ} : {A : Type ℓ} → Option A → A → A
or_default none b = b
or_default (some a) b = a

unfoldable pub resolve_tuning : TuningOptions → TuningOptions → ResolvedTuning
resolve_tuning opts base = record {
  chunk_size = or_default (first opts.chunk_size base.chunk_size) default_chunk_size;
  high_water_mark =
      or_default (first opts.high_water_mark base.high_water_mark) default_high_water_mark;
  low_water_mark =
      or_default (first opts.low_water_mark base.low_water_mark) default_low_water_mark;
  parallel_channels =
      or_default (first opts.parallel_channels base.parallel_channels) default_parallel_channels;
  checksum = or_default (first opts.checksum base.checksum) true;
  max_file_size = first opts.max_file_size base.max_file_size;
  offer_timeout_ms =
      or_default (first opts.offer_timeout_ms base.offer_timeout_ms) default_offer_timeout_ms;
  resumable = or_default (first opts.resumable base.resumable) false;
}

-- A resolved tuning as the base of another resolution.
abbrev pub as_base : ResolvedTuning → TuningOptions
as_base t = record {
  chunk_size = some t.chunk_size;
  high_water_mark = some t.high_water_mark;
  low_water_mark = some t.low_water_mark;
  parallel_channels = some t.parallel_channels;
  checksum = some t.checksum;
  max_file_size = t.max_file_size;
  offer_timeout_ms = some t.offer_timeout_ms;
  resumable = some t.resumable;
}

-- One set of options over another.
abbrev pub over : TuningOptions → TuningOptions → TuningOptions
over opts base = record {
  chunk_size = first opts.chunk_size base.chunk_size;
  high_water_mark = first opts.high_water_mark base.high_water_mark;
  low_water_mark = first opts.low_water_mark base.low_water_mark;
  parallel_channels = first opts.parallel_channels base.parallel_channels;
  checksum = first opts.checksum base.checksum;
  max_file_size = first opts.max_file_size base.max_file_size;
  offer_timeout_ms = first opts.offer_timeout_ms base.offer_timeout_ms;
  resumable = first opts.resumable base.resumable;
}

first_assoc {ℓ} : {A : Type ℓ} (a b c : Option A) → first a (first b c) ≡ first (first a b) c
first_assoc none b c = refl
first_assoc (some a) b c = refl

or_default_over {ℓ} :
    {A : Type ℓ} (a b c : Option A) (d : A)
    → or_default (first a (some (or_default (first b c) d))) d ≡ or_default (first (first a b) c) d
or_default_over none b c d = refl
or_default_over (some a) b c d = refl

-- Layering is associative: resolving a transfer's options over the tuning that the manager resolved
-- gives what resolving the transfer's options over the manager's would give at once.
pub resolve_tuning-over :
    (send manager base : TuningOptions)
    → resolve_tuning send (as_base (resolve_tuning manager base))
      ≡ resolve_tuning (over send manager) base
unfolding resolve_tuning
resolve_tuning-over send manager base = λ i. record {
  chunk_size =
      or_default_over send.chunk_size manager.chunk_size base.chunk_size default_chunk_size i;
  high_water_mark =
      or_default_over send.high_water_mark manager.high_water_mark base.high_water_mark
        default_high_water_mark i;
  low_water_mark =
      or_default_over send.low_water_mark manager.low_water_mark base.low_water_mark
        default_low_water_mark i;
  parallel_channels =
      or_default_over send.parallel_channels manager.parallel_channels base.parallel_channels
        default_parallel_channels i;
  checksum = or_default_over send.checksum manager.checksum base.checksum true i;
  max_file_size = first_assoc send.max_file_size manager.max_file_size base.max_file_size i;
  offer_timeout_ms =
      or_default_over send.offer_timeout_ms manager.offer_timeout_ms base.offer_timeout_ms
        default_offer_timeout_ms i;
  resumable = or_default_over send.resumable manager.resumable base.resumable false i;
}
