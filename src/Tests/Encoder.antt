-- ===== src/Tests/Encoder.antt =====
-- An encoder that writes two bytes for a block and one at its end, to a file that takes a byte at a time.
use java_kotlin_flac.Prelude.{
  ℕ, Bool, true, false, some, none, List, [], ◌∷◌, ◌++◌, ◌≡◌, refl, arith, take, ◌≤◌, length, subst,
  ap,
}
use java_kotlin_flac.Prelude.Int.{ℤ, pos, negsuc}
use java_kotlin_flac.Jni.{Java, Vm, Outcome, returned, threw}
use java_kotlin_flac.Encode.Output.{
  EncodeStatus, ok, fatal_error, Output, write_loop, encode_write_callback,
  encode_channel_write_callback, encode_context_env,
}
use java_kotlin_flac.Encode.Sinks.{Sink, Appends, write_loop-ends, encode_write_callback-Appends}
use java_kotlin_flac.Encode.Process.{
  EncodeProcess, finished, writes, FlacEncoder, EncodeState, run_encoder,
}
use java_kotlin_flac.Encode.Streams.{IsSequential, IsWritten, run_encoder-IsWritten}
use java_kotlin_flac.Encode.Session.{EncodeContext, encode_frames}
use java_kotlin_flac.Encode.Session.Writes.{IsEncoded, encode_frames-IsEncoded}
use java_kotlin_flac.Encode.Session.Finish.{with_encoder}
use java_kotlin_flac.Sessions.{Registry, Entry}
use java_kotlin_flac.Sessions.Outcomes.{with_new}
use java_kotlin_flac.Sessions.System.{init}
use java_kotlin_flac.Tests.{none_held}

-- The first byte of what is left.
abbrev one_of : List ℕ → ℤ × ℕ
one_of [] = (pos 0, 0)
one_of (b ∷ rest) = (pos 1, 1)

abbrev file_java : Java (List ℕ)
file_java = record {
  stream_read = λ n w. (w, returned (pos 1, 7 ∷ []));
  channel_read = λ n w. (w, returned (pos 1, 7 ∷ []));
  channel_position = λ w. (w, returned (pos 0));
  channel_seek = λ z w. (w, returned tt);
  channel_size = λ w. (w, returned (pos 100));
  channel_write = λ rest w. (w ++ take (one_of rest).1 rest, returned (one_of rest));
  stream_write = λ bytes w. (w ++ bytes, returned tt);
  stream_flush = λ w. (w, returned tt);
  consume = λ e w. (w, returned tt);
  new_array = λ n w. (w, returned true);
  new_stream_info = λ i w. (w, returned true);
  get_bytes_utf8 = λ units w. (w, returned (some units));
  new_string = λ bytes w. (w, returned true);
  new_global_ref = λ w. (w, true);
  malloc = λ n w. (w, true);
}

abbrev value : {A : Type 0} → A → Outcome A → A
value d (returned x) = x
value d (threw n) = d

-- A write of the front of `rest`.
abbrev Front : List ℕ → List ℕ → ℤ × ℕ → Type 0
Front rest w r =
    (r.0 ≡ pos r.1) × (r.1 ≤ length rest) × (w ++ take (one_of rest).1 rest ≡ w ++ take r.1 rest)

one_of-Front : (rest w : List ℕ) → Front rest w (one_of rest)
one_of-Front [] w = (refl, omega arith, refl)
one_of-Front (b ∷ rest) w = (refl, omega arith, refl)

abbrev file_sink : Sink file_java
file_sink = record {
  received = λ w. w;
  channel_front =
      λ rest w n k e. subst (Front rest w) (ap (value (pos 0, 0)) e) (one_of-Front rest w);
  stream_all = λ bytes w e. refl;
  allocation = λ n w. refl;
}

abbrev channel : Output
channel = record {
  jvm = true;
  attached = true;
  output_stream = false;
  output_write = false;
  output_flush = false;
  output_channel = true;
  channel_read = true;
  channel_write = true;
  channel_position = true;
  channel_seek = true;
  channel_base_offset = pos 0;
}

abbrev file_vm : Vm (List ℕ)
file_vm = record { world = 5 ∷ []; pending = none; heard = []; holdings = none_held }

abbrev three : List ℕ
three = 1 ∷ 2 ∷ 3 ∷ []

-- Three writes of a byte each.
partial_writes :
    encode_write_callback file_java 4 three channel file_vm
    ≡ some (ok, record file_vm { world = 5 ∷ 1 ∷ 2 ∷ 3 ∷ [] })
unfolding encode_write_callback encode_channel_write_callback write_loop encode_context_env
partial_writes = refl

encode_write_callback-Appends_example :
    Appends file_java file_sink three file_vm
      (encode_write_callback file_java 4 three channel file_vm)
encode_write_callback-Appends_example =
    encode_write_callback-Appends file_java file_sink 4 three channel file_vm (omega arith)

write_loop-ends_example :
    (r : EncodeStatus × Vm (List ℕ)) × (write_loop file_java 4 0 3 three file_vm ≡ some r)
write_loop-ends_example = write_loop-ends file_java 4 0 3 three file_vm (omega arith)

abbrev answer : Bool → EncodeStatus → EncodeProcess Bool
answer e ok = finished true e
answer e fatal_error = finished false e

abbrev encoder : FlacEncoder Bool
encoder = record {
  process_interleaved = λ elements frames e. writes three (answer e);
  finish = λ e. writes (9 ∷ []) (answer e);
  get_resolved_state_string = λ e. none;
}

answer-IsSequential : (status : EncodeStatus) → IsSequential (answer true status)
answer-IsSequential ok = tt
answer-IsSequential fatal_error = tt

abbrev at_start : EncodeState (List ℕ)
at_start = record { vm = file_vm; accepted = []; refused = false }

run_encoder-IsWritten_example :
    (r : Bool × Bool × EncodeState (List ℕ)) × (run_encoder file_java channel
        (writes three (answer true))
        at_start
      ≡ some r)
    × IsWritten file_java file_sink (5 ∷ []) r.2
run_encoder-IsWritten_example =
    run_encoder-IsWritten file_java file_sink channel (5 ∷ []) (writes three (answer true)) at_start
      answer-IsSequential (λ _. refl)

abbrev encode_context : EncodeContext
encode_context = record { metadata_blocks = none; channels = 2; output = channel }

encode_frames-IsEncoded_example :
    IsEncoded file_java file_sink encoder encode_context file_vm (writes three (answer true)) (
      encode_frames file_java encoder
        (some (pos 1 ∷ negsuc 0 ∷ []))
        (pos 1)
        true
        true
        encode_context
        file_vm)
encode_frames-IsEncoded_example =
    encode_frames-IsEncoded file_java file_sink encoder (pos 1 ∷ negsuc 0 ∷ []) 1 true
      encode_context file_vm (omega arith) refl (tt, refl)

-- The encoder is open under the handle 1, at address 7. It owns one of two blocks.
abbrev open_context : EncodeContext
open_context = record encode_context { metadata_blocks = some (none ∷ some 3 ∷ []) }

abbrev open_encoder : Registry (Bool × EncodeContext)
open_encoder =
    with_new (init (Bool × EncodeContext)).registry 7 (true, open_context) (pos 1) (pos 2)

abbrev entry : Entry
entry = record { handle = pos 1; session = 7 }

abbrev open_vm : Vm (List ℕ)
open_vm = record file_vm { holdings = with_encoder open_context none_held }

abbrev ended_vm : Vm (List ℕ)
ended_vm = record open_vm { world = 5 ∷ 9 ∷ [] }
