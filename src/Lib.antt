-- ===== src/Lib.antt =====
-- libshjpeg: JPEG encoding and decoding with the JPU of the SH-Mobile, modelled and proved.
--
-- The program. A client fills a `shjpeg_context_t` and calls the encoder (src/shjpeg_encode.c) or the
-- decoder (src/shjpeg_decode.c). Either programs the JPU's registers (src/shjpeg_regs.h) and then
-- calls the driver's state machine (src/shjpeg_jpu.c) again and again: the JPU works on two line
-- buffers in turn, which the VIO (src/shjpeg_vio.c) or software (src/shjpeg_softhelper.c) converts
-- to or from the client's surface, and on two reload buffers of coded data, which the encoder empties
-- into and the decoder fills from the client's stream. src/shjpeg_common.c owns the devices and the
-- memory. src/libjpeg_wrap puts libjpeg's interface in front of all this.
--
-- The files.
--   Base            shared names; Base/Tests the Boolean tests; Base/Bits masks and field joins.
--   Memory          bytes at addresses, 32-bit loads and stores, memcpy.
--   PixelFormat     the pixel format macros of include/shjpeg/shjpeg_types.h.
--   Context         the context and the stream operations of the same file.
--   Regs            the register addresses and bits of src/shjpeg_regs.h.
--   RegNames        src/shjpeg_config.c: the names of the registers.
--   Soft, SoftTo    soft_fromYCbCr_byword and soft_toYCbCr_byword of src/shjpeg_softhelper.c: a
--                   function per loop body, per loop, and for the whole.
--   Jpu             src/shjpeg_jpu.c and src/shjpeg_vio.c. State: the driver's counters, the request
--                   and the hardware. Vio, Convert: the converters. Interrupts: process_jpu_ints and
--                   wait_and_process_jpu. Loops: jpu_encode and jpu_decode. Run: shjpeg_jpu_run. Tables:
--                   the quantisation and Huffman tables. The other files below Jpu hold proofs.
--   SoftByte,       soft_fromYCbCr_bybyte and soft_toYCbCr_bybyte, the other versions of the same
--   SoftToByte      conversions.
--   FrameMap        the mapping of the client's surface through /dev/mem, also of src/shjpeg_softhelper.c,
--                   with the page macros of src/shjpeg_utils.h.
--   Device          what encoder and decoder share: the answers from outside and the state of a call.
--   Encode          src/shjpeg_encode.c: encode_hw and shjpeg_encode.
--   Decode          src/shjpeg_decode.c: decode_hw and its reload loop; Decode/Run has decode_hw as a
--                   whole and shjpeg_decode_run. SoftDecode: decode_sw and the copies of a line.
--                   Source: the source manager for libjpeg, and shjpeg_decode_init.
--   Lifecycle       src/shjpeg_common.c: uio_init, shjpeg_init, shjpeg_shutdown, and the frame buffer.
--   Wrap            src/libjpeg_wrap. Wrap itself: the list of contexts of override.c, in a store of nodes.
--                   Input, Cache, Output: the streams of jpeg_io.c, and what shjpeg_read_header sets for
--                   them. Support, Calls, Lines: the calls of override.c on one object; they use
--                   Lifecycle, Decode and Encode as the wrapper uses the library.
--                   Messages: shjpeg_std_error and the messages of libmessage.h.
--   Hooks           src/libjpeg_wrap/init.c: the tables of functions behind libjpeg's interface.
--   Tests           the theorems at concrete inputs.
--
-- The model. HAVE_SHVIO and USE_CACHED are defined, and the machine is little-endian. Pointers
-- and register values are natural numbers with the wrap-around of 32 bits written out; a memory
-- is a function from addresses to bytes; a block from malloc has contents that nobody chooses.
-- What comes from outside is an input: the interrupts with their JINTS and JCDERR, a timeout for
-- each wait, the answers of the client's stream operations and of uiomux, libjpeg and libshvio. A
-- missing interrupt, after the listed ones, is the outcome `blocked`; the division by zero of a VIO
-- pitch, where libshvio knows no size for the format, is the outcome `trapped`. Debug output, locking with
-- pthread and the timing code are left out.
--
-- Loops. The loops over pixels and lines are recursions on the number of rounds left. The loops
-- `while (!done)` of the driver run on fuel; two rounds for each interrupt to come and two more are
-- enough wherever a conversion makes progress, and the case in which it does not is a theorem too.
--
-- The loops of jpeg_src_read and jpeg_dest_write run on fuel too: n + 1 rounds are enough to read n
-- bytes and n + 2 to write them, since each round but the first and the last moves a byte.
--
-- The wrapper. libjpeg's own functions behind it are recorded as actions, in their order; the buffers that
-- the client's source manager fills and the answers of its functions are inputs. The tables are lists
-- of names with what they point to.
--
-- Not modelled: the debug output and the timing code, the test programs, and the scripts of gen with what
-- they generate.
pub mod Base
pub mod Memory
pub mod PixelFormat
pub mod Context
pub mod Decode
pub mod Device
pub mod Encode
pub mod FrameMap
pub mod Hooks
pub mod Jpu
pub mod Lifecycle
pub mod RegNames
pub mod Regs
pub mod Soft
pub mod SoftByte
pub mod SoftDecode
pub mod SoftTo
pub mod SoftToByte
pub mod Source
pub mod Tests
pub mod Wrap
