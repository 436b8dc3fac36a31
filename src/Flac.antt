-- ===== src/Flac.antt =====
-- The part of libFLAC's stream coders that native/src/jflac_jni.c uses. libFLAC is a parameter of
-- the model: a call of a `stream_decoder_process_*` or seek function is a tree of the callbacks that
-- it makes, each of which waits for what the callback returns, and ends in the call's result.
use java_kotlin_flac.Prelude.{ℕ, Bool, List, Option, String}
use java_kotlin_flac.Prelude.Int.{ℤ}
use java_kotlin_flac.Jni.{StreamInfo}

-- A decoded block: `buffer c i` is sample `i` of channel `c`.
pub record Frame : Type 0 where
  pub channels : ℕ
  pub blocksize : ℕ
  pub buffer : ℕ → ℕ → ℤ

pub data Metadata : Type 0 where
  streaminfo : StreamInfo → Metadata
  other : Metadata

pub data ErrorStatus : Type 0 where
  lost_sync bad_header frame_crc_mismatch unparseable_stream bad_metadata : ErrorStatus
  out_of_bounds missing_frame : ErrorStatus

pub data WriteStatus : Type 0 where
  continue abort : WriteStatus

pub data ReadStatus : Type 0 where
  continue end_of_stream abort : ReadStatus

pub data SeekStatus : Type 0 where
  ok error : SeekStatus

-- The answer of the tell and length callbacks: an offset, or their ERROR status.
pub data OffsetStatus : Type 0 where
  offset : ℕ → OffsetStatus
  error : OffsetStatus

pub data DecoderState : Type 0 where
  searching end_of_stream end_of_link aborted other : DecoderState

-- What the read callback hands back: `*bytes`, the buffer's contents and the status.
pub record ReadResult : Type 0 where
  pub count : ℕ
  pub bytes : List ℕ
  pub status : ReadStatus

pub data Process (D : Type 0) : Type 0 where
  finished : Bool → D → Process D
  writes : Frame → (WriteStatus → Process D) → Process D
  describes : Metadata → Process D → Process D
  reports : ErrorStatus → Process D → Process D
  reads : ℕ → (ReadResult → Process D) → Process D
  seeks : ℕ → (SeekStatus → Process D) → Process D
  tells : (OffsetStatus → Process D) → Process D
  measures : (OffsetStatus → Process D) → Process D
  asks_eof : (Bool → Process D) → Process D

pub record Flac (D : Type 0) : Type 0 where
  pub process_single : D → Process D
  pub process_until_end_of_stream : D → Process D
  pub process_until_end_of_link : D → Process D
  pub seek_absolute : ℕ → D → Process D
  pub finish_link : D → Process D
  pub get_state : D → DecoderState
  pub get_resolved_state_string : D → Option String
  -- the flag says whether the call succeeded
  pub set_md5_checking : D → Bool × D
  pub set_decode_chained_stream : D → Bool × D
  -- the `init` functions finish with `true` for INIT_STATUS_OK; a path is a C string's bytes
  pub init_file : List ℕ → D → Process D
  pub init_ogg_file : List ℕ → D → Process D
  -- the flag says whether the seek, tell, length and eof callbacks are set
  pub init_stream : Bool → D → Process D
  pub init_ogg_stream : Bool → D → Process D
  pub process_until_end_of_metadata : D → Process D
  pub finish : D → Process D
