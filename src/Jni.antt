-- ===== src/Jni.antt =====
-- native/src/jflac_jni.c: what the bridge sees of the Java virtual machine. `Vm` is the machine
-- behind a `JNIEnv`, with the exception that is pending; `Java` is what Java code does when the
-- bridge calls it. The machine and all Java code are parameters. The exception classes are in the
-- library's own jar, so `FindClass` finds them, and `ThrowNew` leaves the new exception pending.
use java_kotlin_flac.Prelude.{ℕ, String, Bool, Option, some, List, is_some}
use java_kotlin_flac.Prelude.Int.{ℤ}

-- The text of an exception, with the values that `snprintf` puts into it.
pub data Message : Type 0 where
  text : String → Message
  chained_link_ended : (emitted_for_link total_samples : ℕ) → Message
  physical_eof : (emitted_frames first_sample total_samples : ℕ) → Message
  -- the operation, the resolved decoder state and the first error status, where there is one
  decoder_failed : String → Option String → Option String → Message
  encoder_failed : String → String → Message

pub data Throwable : Type 0 where
  decode_exception encode_exception illegal_argument illegal_state : Message → Throwable
  native_load unsupported_feature : Message → Throwable
  -- thrown by the machine or by Java code
  raised : ℕ → Throwable

-- STREAMINFO as it is forwarded to Java.
pub record StreamInfo : Type 0 where
  pub min_blocksize : ℕ
  pub max_blocksize : ℕ
  pub min_framesize : ℕ
  pub max_framesize : ℕ
  pub sample_rate : ℕ
  pub channels : ℕ
  pub bits_per_sample : ℕ
  pub total_samples : ℕ
  pub md5sum : List ℕ

-- A call on the `PcmConsumer`.
pub data Event : Type 0 where
  stream_info : StreamInfo → Event
  pcm_interleaved : List ℤ → ℕ → Event
  complete : Event

pub data Outcome {ℓ} (A : Type ℓ) : Type ℓ where
  returned : A → Outcome A
  threw : ℕ → Outcome A

-- What the bridge has to give back: global references, libFLAC's decoders and encoders, each from
-- its `_new` to its `_delete`, and metadata blocks. The program keeps no such counts.
pub record Holdings : Type 0 where
  pub global_refs : ℕ
  pub decoders : ℕ
  pub encoders : ℕ
  pub metadata_blocks : ℕ

-- `heard` lists the calls that were made on the consumer, the oldest first.
pub record Vm (W : Type 0) : Type 0 where
  pub world : W
  pub pending : Option Throwable
  pub heard : List Event
  pub holdings : Holdings

-- What Java code does. A read is told the size of its buffer; it answers with the number that the
-- method returns and with the contents of the buffer. `new_array` is any allocation by the machine: it
-- answers whether it gave an object, or throws.
pub record Java (W : Type 0) : Type 0 where
  pub stream_read : ℕ → W → W × Outcome (ℤ × List ℕ)
  pub channel_read : ℕ → W → W × Outcome (ℤ × List ℕ)
  pub channel_position : W → W × Outcome ℤ
  pub channel_seek : ℤ → W → W × Outcome (Unit {0})
  pub channel_size : W → W × Outcome ℤ
  -- the method's result, and by how much the position of the buffer has advanced
  pub channel_write : List ℕ → W → W × Outcome (ℤ × ℕ)
  pub stream_write : List ℕ → W → W × Outcome (Unit {0})
  pub stream_flush : W → W × Outcome (Unit {0})
  pub consume : Event → W → W × Outcome (Unit {0})
  -- an allocation by the machine; on failure it may leave an exception pending
  pub new_array : ℕ → W → W × Outcome Bool
  -- the construction of a Java object from STREAMINFO
  pub new_stream_info : StreamInfo → W → W × Outcome Bool
  -- `String.getBytes(UTF_8)`, where `none` is a NULL result, and `new String(bytes, UTF_8)`
  pub get_bytes_utf8 : List ℕ → W → W × Outcome (Option (List ℕ))
  pub new_string : List ℕ → W → W × Outcome Bool
  pub new_global_ref : W → W × Bool
  pub malloc : ℕ → W → W × Bool

module _ {W : Type 0} where
  -- `(*env)->ExceptionCheck(env)`
  abbrev pub exception_check : Vm W → Bool
  exception_check vm = is_some vm.pending

  abbrev pub throw : Throwable → Vm W → Vm W
  throw e vm = record vm { pending = some e }

  abbrev pub settle {ℓ} : {A : Type ℓ} → A → Vm W → W × Outcome A → A × Vm W
  settle d vm (w, returned a) = (a, record vm { world = w })
  settle d vm (w, threw n) = (d, record vm { world = w; pending = some (raised n) })

  -- A call of Java code: the value is `d` where it throws.
  abbrev pub call {ℓ} : {A : Type ℓ} → A → (W → W × Outcome A) → Vm W → A × Vm W
  call d f vm = settle d vm (f vm.world)

  abbrev pub in_world : (W → W × Bool) → Vm W → Bool × Vm W
  in_world f vm = let (w, b) = f vm.world in (b, record vm { world = w })

  unfoldable pub throw_decode_exception : Message → Vm W → Vm W
  throw_decode_exception message vm = throw (decode_exception message) vm

  unfoldable pub throw_encode_exception : Message → Vm W → Vm W
  throw_encode_exception message vm = throw (encode_exception message) vm

  unfoldable pub throw_illegal_argument_exception : String → Vm W → Vm W
  throw_illegal_argument_exception message vm = throw (illegal_argument (text message)) vm

  unfoldable pub throw_unsupported_feature_exception : String → Vm W → Vm W
  throw_unsupported_feature_exception message vm = throw (unsupported_feature (text message)) vm

  unfoldable pub throw_illegal_state_exception : String → Vm W → Vm W
  throw_illegal_state_exception message vm = throw (illegal_state (text message)) vm
