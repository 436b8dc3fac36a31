-- ===== src/Encode.antt =====
-- native/src/jflac_jni.c, the encoder: the context of an open encoder and the callbacks by which
-- libFLAC writes its output.
pub mod Output
pub mod Sinks
pub mod Process
pub mod Streams
pub mod Session
