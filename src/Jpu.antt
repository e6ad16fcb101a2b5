-- ===== src/Jpu.antt =====
-- src/shjpeg_jpu.c and src/shjpeg_vio.c: the state machine that drives the JPU and the converters.
pub mod State
pub mod Vio
pub mod Convert
pub mod Interrupts
pub mod Loops
pub mod Run
pub mod Frames
pub mod Cases
pub mod Encoder
pub mod Decoder
pub mod Total
pub mod Ints
pub mod Finishes
pub mod Spin
pub mod Buffers
pub mod Tables
pub mod Huffman
