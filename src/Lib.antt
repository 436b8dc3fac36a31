-- ===== src/Lib.antt =====
-- Verification of the native bridge of JFlac, native/src/jflac_jni.c: the part by which Java decodes
-- FLAC streams through libFLAC, and the output and the operations of its encoders.
--
-- The bridge is between three parties. Java calls a native method with an opaque handle; the bridge
-- finds the decoder session of the handle, prepares its `DecodeContext` and calls libFLAC, which calls
-- back into the bridge for input and with decoded blocks; the callbacks call Java again, to read the
-- input and to deliver samples.
--
-- Prelude, with Prelude/Tests, Prelude/Lists and Prelude/Int, has the names that all files share:
-- Boolean tests, lists over the native numbers, integers and machine words.
-- Jni models the Java virtual machine: `Vm` is what is behind a `JNIEnv`, with the pending exception,
-- and `Java` is a parameter that says what Java code does when it is called. Throwing helpers
-- (`throw_decode_exception` and so on) are functions on `Vm`.
-- Flac is libFLAC, a parameter: a call of it is a tree of the callbacks that it makes. `Holdings` in Jni
-- counts what the bridge has to give back, which the program itself does not count.
-- Text has `jstring_to_utf8`, `new_utf8_string` and the fixed-width ASCII fields, and Entry the checks
-- that every entry point makes first.
-- Decode/Context is `struct DecodeContext` in groups of fields, with the functions that prepare and
-- clear it. Decode/Range has the requests' validation and the checks of the number of emitted frames.
-- Decode/Source has the callbacks that read, seek and measure the input, over an `InputStream` or a
-- `SeekableByteChannel`. Decode/Pull is the pull decoder's pending buffer: `drain_decode_pull_pending`
-- and `decode_pull_write_callback`. Decode/Write is `decode_write_callback`, Decode/Callbacks the
-- metadata and error callbacks and `run`, which carries out the callbacks of a libFLAC call.
-- Decode/Process is `process_decode_stream`, Decode/Session has `decodeDecoderFrom` and
-- `decodeDecoderRange`, Decode/Read `readPullDecoderInterleaved`. The files below each of these are
-- about what they are named for.
-- Decode/Coder has a decoder's creation, configuration and deletion, and Decode/OneShot the one-shot
-- decodes: `decode_file_internal`, `decode_stream_internal` and `decode_channel_internal` in
-- Decode/OneShot/Inputs, the native methods on them in Decode/OneShot/Bindings. Decode/OneShot/Guide
-- is the interface by which the proofs about their end are shared by ranges and whole streams.
-- Decode/Open is the opening of a reusable session, `openDecoderFile` and `openDecoderChannel`, with
-- what `destroy_decode_session` gives back, and Decode/Open/Release is `releaseDecoder`.
-- Decode/Open/Restored puts the two together.
-- Decode/Balance and the Balance files beside the code are about what the bridge holds.
-- Encode/Output has the callbacks by which libFLAC writes to an `OutputStream` or a
-- `SeekableByteChannel`, Encode/Sinks the contract of such an output as an append-only file,
-- Encode/Process libFLAC's encoder, a parameter, and `run_encoder`, which carries out a call of it,
-- Encode/Session the `EncodeContext`, `writeEncoderInterleaved`, `finishEncoder` and `releaseEncoder`. The
-- registry of encoders has the code of the decoders' one, so Encode/Session uses Sessions over contexts.
-- Sessions is the registry of decoder sessions: `register_decode_session`, `acquire_decode_session`,
-- `release_decode_session_reference`, `remove_decode_session` and the rest, one function per critical
-- section of the registry's lock. Sessions/System has threads that use it at once, as a step relation,
-- and Sessions/Runs counts the handles that a run of them may try. `acquire_decode_session` leaves the
-- exception of a refusal to the operations that call it.
-- Tests applies the theorems to concrete machines and streams.
--
-- Conventions. A pointer to a C struct is the struct, returned with its changes; a Java reference is a
-- flag that says whether it is non-NULL. `uint32_t` and `uint64_t` arithmetic is `u32` and `u64` of
-- the exact sum. A local reference is not counted. The operations of Decode/Session and Decode/Read
-- stand for what the entry points do between acquiring and releasing a session.
--
-- Fuel. The loops of `process_decode_stream` and `readPullDecoderInterleaved` call libFLAC, whose
-- progress the source relies on, so they take fuel and answer `none` where it runs out. A theorem on
-- them names a measure of what libFLAC has left to decode, which `process_single` lowers unless it
-- fails or ends, and asks for more fuel than the measure. The search for a free handle takes fuel
-- too. The loop over partial writes has one step more than there are bytes.
--
-- Messages are not cut to the size of their C buffers, and the exception that a failed lookup of a class
-- or method leaves is not in the model.
--
-- Not modelled: loading libFLAC (glue), the conversion of metadata blocks to and from Java objects,
-- the entry points that open a pull session or an encoder, native/src/jflac_platform_*
-- (the operating system's mutexes and loader), native/fuzz, and the Kotlin and Java sources.
pub mod Prelude
pub mod Jni
pub mod Flac
pub mod Text
pub mod Entry
pub mod Decode
pub mod Encode
pub mod Sessions
pub mod Tests
