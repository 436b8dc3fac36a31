-- ===== src/Decode.antt =====
-- native/src/jflac_jni.c, the decoder: the state that libFLAC's callbacks share with one decode
-- call. The children model the callbacks and the loops around them.
pub mod Context
pub mod Range
pub mod Source
pub mod Balance
pub mod Pull
pub mod Write
pub mod Callbacks
pub mod Process
pub mod Coder
pub mod Session
pub mod OneShot
pub mod Open
pub mod Read
