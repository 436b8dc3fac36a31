-- ===== src/Encode/Process.antt =====
-- libFLAC's encoder as native/src/jflac_jni.c uses it, a parameter: a call of it is a tree of the
-- callbacks that it makes. `run_encoder` carries them out.
use java_kotlin_flac.Prelude.{ℕ, Bool, true, Option, none, some, List, ◌++◌, String, suc, length}
use java_kotlin_flac.Prelude.Int.{ℤ}
use java_kotlin_flac.Jni.{Vm, Java}
use java_kotlin_flac.Flac.{ReadResult, SeekStatus, OffsetStatus}
use java_kotlin_flac.Encode.Output.{
  EncodeStatus, ok, fatal_error, Output, encode_write_callback, encode_channel_read_callback,
  encode_channel_seek_callback, encode_channel_tell_callback,
}

pub data EncodeProcess (E : Type 0) : Type 0 where
  finished : Bool → E → EncodeProcess E
  writes : List ℕ → (EncodeStatus → EncodeProcess E) → EncodeProcess E
  reads : ℕ → (ReadResult → EncodeProcess E) → EncodeProcess E
  seeks : ℕ → (SeekStatus → EncodeProcess E) → EncodeProcess E
  tells : (OffsetStatus → EncodeProcess E) → EncodeProcess E

pub record FlacEncoder (E : Type 0) : Type 0 where
  pub process_interleaved : List ℤ → ℕ → E → EncodeProcess E
  pub finish : E → EncodeProcess E
  pub get_resolved_state_string : E → Option String

-- `accepted` lists the bytes for which the write callback answered OK, and `refused` says whether it
-- answered otherwise; the program keeps neither.
pub record EncodeState (W : Type 0) : Type 0 where
  pub vm : Vm W
  pub accepted : List ℕ
  pub refused : Bool

module _ {W : Type 0} where
  -- What a write adds.
  abbrev pub accept : List ℕ → EncodeState W → EncodeStatus × Vm W → EncodeState W
  accept bytes s (ok, vm) = record s { vm = vm; accepted = s.accepted ++ bytes }
  accept bytes s (fatal_error, vm) = record s { vm = vm; refused = true }

  abbrev pub with_machine : {A : Type 0} → EncodeState W → A × Vm W → EncodeState W
  with_machine s (a, vm) = record s { vm = vm }

module _ {W E : Type 0} (java : Java W) (o : Output) where
  -- Carries out the callbacks of one libFLAC call, with one attempt more for the loop of a write than
  -- there are bytes.
  unfoldable pub run_encoder : EncodeProcess E → EncodeState W → Option (Bool × E × EncodeState W)
  run_encoder (finished success e) s = some (success, e, s)
  run_encoder (writes bytes k) s =
      elim (encode_write_callback java (suc (length bytes)) bytes o s.vm) [
        | none ↦ none
        | some r ↦ run_encoder (k r.0) (accept bytes s r)
      ]
  run_encoder (reads n k) s =
      let r = encode_channel_read_callback java (some n) o s.vm in
      run_encoder (k r.0) (with_machine s r)
  run_encoder (seeks n k) s =
      let r = encode_channel_seek_callback java n o s.vm in run_encoder (k r.0) (with_machine s r)
  run_encoder (tells k) s =
      let r = encode_channel_tell_callback java true o s.vm in
      run_encoder (k r.0) (with_machine s r)
