-- ===== src/FrameMap.antt =====
-- src/shjpeg_softhelper.c: the mapping of the user's surface through /dev/mem, and the line buffer
-- that software converts. Files and mappings that are open are lists; what open and mmap answer is
-- an input. A page has 4096 bytes, as getpagesize says on the SH-Mobile.
pub mod Covers
use libshjpeg.Base.{
  ℕ, ◌+◌, ◌-◌, ◌*◌, ◌%◌, ◌^◌, bit_and, ◌==◌, ◌&&◌, Bool, true, false, if◌then◌else◌, List, [], ◌∷◌,
  Option, none, some,
}
use libshjpeg.Context.{Context}
use libshjpeg.PixelFormat.{plane_multiply}
use libshjpeg.Soft.{linebuffer_size_y}

abbrev pub page_size : ℕ
page_size = 4096

-- `~(page_size - 1)` of 32 bits.
abbrev pub page_mask : ℕ
page_mask = 0xfffff000

unfoldable pub page_align : ℕ → ℕ
page_align len = bit_and (len + page_size - 1) page_mask

-- MAP_FAILED, as an address.
abbrev pub map_failed : ℕ
map_failed = 0xffffffff

pub record Region : Type 0 where
  pub addr : ℕ
  pub len : ℕ

-- `vmap_data_t`, the address of the user's surface, and what the process has open and mapped.
pub record Mapping : Type 0 where
  pub mapbuflen : ℕ
  pub mapfd : ℕ
  pub mapaddr : ℕ
  pub user_jpeg_virt : ℕ
  pub files : List ℕ
  pub regions : List Region

pub close : ℕ → List ℕ → List ℕ
close fd [] = []
close fd (f ∷ files) = if f == fd then files else f ∷ close fd files

pub munmap : ℕ → ℕ → List Region → List Region
munmap addr len [] = []
munmap addr len (r ∷ regions) =
    if r.addr == addr && r.len == len then regions else r ∷ munmap addr len regions

unfoldable pub free_frame_buffer_virtual : Mapping → Mapping
free_frame_buffer_virtual m = if m.mapaddr == 0 then m else record m {
  mapbuflen = 0;
  mapfd = 0;
  mapaddr = 0;
  files = close m.mapfd m.files;
  regions = munmap m.mapaddr m.mapbuflen m.regions;
}

-- The offset into /dev/mem.
unfoldable pub map_offset : ℕ → ℕ
map_offset phys = bit_and phys page_mask

-- After open: `answer` is what mmap answers.
abbrev pub map_file : ℕ → ℕ → ℕ → Mapping → Mapping × Bool
map_file answer phys fd m =
    let m1 = record m { mapfd = fd; files = fd ∷ m.files } in
    if answer == map_failed
    then (record m1 { mapaddr = answer; files = close fd (fd ∷ m.files) }, false)
    else (
      record m1 {
        mapaddr = answer;
        regions = record { addr = answer; len = m.mapbuflen } ∷ m.regions;
        user_jpeg_virt = (answer + bit_and phys (page_size - 1)) % 2 ^ 32;
      },
      true,
    )

-- `opened` is the file that open gives, or none; the flag of the result is whether the return is 0.
abbrev pub map_opened : Option ℕ → ℕ → ℕ → Mapping → Mapping × Bool
map_opened none answer phys m = (record m { mapfd = 0xffffffff }, false)
map_opened (some fd) answer phys m = map_file answer phys fd m

unfoldable pub get_frame_buffer_virtual : Option ℕ → ℕ → Context → ℕ → ℕ → Mapping → Mapping × Bool
get_frame_buffer_virtual opened answer context format phys m =
    map_opened opened answer phys (record m {
      mapbuflen =
          (page_align (plane_multiply format context.height * context.pitch) + page_size) % 2 ^ 32;
    })

-- The addresses of the luma and of the chroma of the line buffer that is converted next.
unfoldable pub soft_get_src_jpu : ℕ → ℕ → ℕ → ℕ × ℕ
soft_get_src_jpu vio_linebuf jpeg_lb1_virt jpeg_lb2_virt =
    if vio_linebuf == 0
    then (jpeg_lb1_virt, jpeg_lb1_virt + linebuffer_size_y)
    else (jpeg_lb2_virt, jpeg_lb2_virt + linebuffer_size_y)
