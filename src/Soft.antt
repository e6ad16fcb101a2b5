-- ===== src/Soft.antt =====
-- src/shjpeg_softhelper.c: conversion between packed YCbCr 4:4:4 and the JPU's line buffers, by
-- words (what the build selects) and by bytes. The line buffer memory, the user's surface and the
-- local copies that `malloc` gives are separate memories; `heap` is what a fresh block holds.
-- Addresses wrap at 2 ^ 32, the size of `unsigned long` and of a pointer on the SH-Mobile.
pub mod Words
pub mod From
pub mod FromImage
use libshjpeg.Base.{
  ℕ, zero, suc, ◌+◌, ◌-◌, ◌*◌, ◌/◌, ◌%◌, ◌^◌, bit_and, bit_or, ltb, if◌then◌else◌, Bool,
}
use libshjpeg.Memory.{Mem, load32, store32, memcpy, shl32}
use libshjpeg.Context.{Context}

abbrev pub linebuffer_pitch : ℕ
linebuffer_pitch = 4096

abbrev pub linebuffer_height : ℕ
linebuffer_height = 1024

-- The size of the luma part of a line buffer.
abbrev pub linebuffer_size_y : ℕ
linebuffer_size_y = 4096 * 1024

abbrev pub conv_chunk_size : ℕ
conv_chunk_size = 4

-- The number of four-pixel chunks that cover a line.
abbrev pub chunks : ℕ → ℕ
chunks width = (width + (conv_chunk_size - 1)) / conv_chunk_size

-- A block from `malloc` after a copy of its first `n` bytes.
unfoldable pub local_copy : Mem → Mem → ℕ → ℕ → Mem
local_copy heap src s n = memcpy heap 0 src s n

pub from_yword : ℕ → ℕ → ℕ → ℕ
from_yword inworda inwordb inwordc =
    bit_or
      (bit_or (bit_or (bit_and inworda 0x000000ff) (bit_and inworda 0xff000000 / 2 ^ 16))
        (bit_and inwordb 0x00ff0000))
      (shl32 (bit_and inwordc 0x0000ff00) 16)

-- `accumb` and `accumr` are 16 bits wide.
pub from_cword : ℕ → ℕ → ℕ → ℕ
from_cword inworda inwordb inwordc =
    let accumb = (bit_and inworda 0x0000ff00 / 2 ^ 8 + bit_and inwordb 0x000000ff) % 2 ^ 16 in
    let accumr =
      (bit_and inworda 0x00ff0000 / 2 ^ 16 + bit_and inwordb 0x0000ff00 / 2 ^ 8) % 2 ^ 16 in
    let cword = bit_or (accumb / 2) (accumr / 2 * 2 ^ 8) in
    let accumb' =
      (bit_and inwordb 0xff000000 / 2 ^ 24 + bit_and inwordc 0x00ff0000 / 2 ^ 16) % 2 ^ 16 in
    let accumr' = (bit_and inwordc 0x000000ff + bit_and inwordc 0xff000000 / 2 ^ 24) % 2 ^ 16 in
    bit_or cword (shl32 (bit_or (accumb' / 2) (accumr' / 2 * 2 ^ 8)) 16)

-- The local line under construction and the three moving pointers.
pub record FromRow : Type 0 where
  pub ybuf : Mem
  pub cbuf : Mem
  pub out_ybuffer : ℕ
  pub out_cbuffer : ℕ
  pub in_buffer : ℕ

-- One round of the inner loop: three words in, one word of Y and one of CbCr out.
pub from_chunk : Mem → FromRow → FromRow
from_chunk input r =
    let inworda = load32 input r.in_buffer in
    let inwordb = load32 input (r.in_buffer + 4) in
    let inwordc = load32 input (r.in_buffer + 8) in
    record {
      ybuf = store32 r.ybuf r.out_ybuffer (from_yword inworda inwordb inwordc);
      cbuf = store32 r.cbuf r.out_cbuffer (from_cword inworda inwordb inwordc);
      out_ybuffer = r.out_ybuffer + 4;
      out_cbuffer = r.out_cbuffer + 4;
      in_buffer = r.in_buffer + 12;
    }

-- The inner loop with `n` rounds left.
pub from_chunks : ℕ → Mem → FromRow → FromRow
from_chunks zero input r = r
from_chunks (suc n) input r = from_chunks n input (from_chunk input r)

pub record FromLines : Type 0 where
  pub linebuf : Mem
  pub outydata : ℕ
  pub outcdata : ℕ
  pub row : FromRow

-- One round of the outer loop: a line is built, copied out, and the pointers are moved.
pub from_line : ℕ → ℕ → Mem → FromLines → FromLines
from_line width pitch input s =
    let inpitchskip = (pitch + 2 ^ 32 - width * conv_chunk_size * 3) % 2 ^ 32 in
    let r = from_chunks width input s.row in
    let with_y = memcpy s.linebuf s.outydata r.ybuf 0 (width * conv_chunk_size) in
    record {
      linebuf = memcpy with_y s.outcdata r.cbuf 0 (width * conv_chunk_size);
      outydata = s.outydata + linebuffer_pitch;
      outcdata = s.outcdata + linebuffer_pitch;
      row = record r {
        out_ybuffer = 0;
        out_cbuffer = 0;
        in_buffer = (r.in_buffer + inpitchskip) % 2 ^ 32;
      };
    }

pub from_lines : ℕ → ℕ → ℕ → Mem → FromLines → FromLines
from_lines zero width pitch input s = s
from_lines (suc n) width pitch input s =
    from_lines n width pitch input (from_line width pitch input s)

-- The result is the line buffer memory; the function itself returns 0.
pub soft_from_ycbcr_byword : Context → Mem → Mem → ℕ → ℕ → Mem → ℕ → ℕ → Mem
soft_from_ycbcr_byword context heap linebuf outydata outcdata user inbuf lines =
    (from_lines lines (chunks context.width) context.pitch
      (local_copy heap user inbuf (context.pitch * lines))
      (record {
        linebuf = linebuf;
        outydata = outydata;
        outcdata = outcdata;
        row = record { ybuf = heap; cbuf = heap; out_ybuffer = 0; out_cbuffer = 0; in_buffer = 0 };
      })).linebuf
