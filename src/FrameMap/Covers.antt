-- ===== src/FrameMap/Covers.antt =====
-- The mapping covers the user's surface, and is undone.
use libshjpeg.Base.{
  subst, sym, ℕ, ◌+◌, ◌-◌, ◌*◌, ◌/◌, ◌%◌, ◌^◌, ◌≤◌, ◌<◌, ◌≡◌, ◌⊎◌, refl, ◌∙◌, arith, bit_and,
  bit_and_field, bit_and_ones, ◌==◌, Bool, true, false, Bool-cases, inl, inr, List, ◌∷◌, Option,
  none, some,
}
use libshjpeg.Context.{Context}
use libshjpeg.PixelFormat.{plane_multiply}
use libshjpeg.FrameMap.{
  page_align, map_failed, Region, Mapping, close, munmap, free_frame_buffer_virtual, map_offset,
  map_file, get_frame_buffer_virtual,
}

mask-pages : (a : ℕ) → a < 2 ^ 32 → bit_and a 0xfffff000 ≡ a / 2 ^ 12 * 2 ^ 12
mask-pages a h = omega (arith, bit_and_field 20 12 a)

mask-rest : (a : ℕ) → bit_and a 4095 ≡ a % 2 ^ 12
mask-rest a = omega (arith, bit_and_ones 12 a)

-- The size of the surface.
abbrev pub surface_size : Context → ℕ → ℕ
surface_size context format = plane_multiply format context.height * context.pitch

-- The bytes of the surface, `size` from `phys` on, stand at `user_jpeg_virt` in the mapping of the
-- pages from the offset on; and giving the mapping back leaves the files and mappings that were
-- there.
pub record Covers (phys size : ℕ) (before after : Mapping) : Type 0 where
  pub aligned : map_offset phys % 4096 ≡ 0
  pub whole_pages : after.mapbuflen % 4096 ≡ 0
  pub in_place : after.user_jpeg_virt + map_offset phys ≡ after.mapaddr + phys
  pub from_start : after.mapaddr ≤ after.user_jpeg_virt
  pub to_end : after.user_jpeg_virt + size ≤ after.mapaddr + after.mapbuflen
  pub files_undone : (free_frame_buffer_virtual after).files ≡ before.files
  pub regions_undone : (free_frame_buffer_virtual after).regions ≡ before.regions

-- Nothing is open or mapped that was not before.
pub record Unmapped (before after : Mapping) : Type 0 where
  pub same_files : after.files ≡ before.files
  pub same_regions : after.regions ≡ before.regions
  pub same_virt : after.user_jpeg_virt ≡ before.user_jpeg_virt

-- The result by the flag that is returned.
abbrev pub MapResult : ℕ → ℕ → Mapping → Mapping × Bool → Type 0
MapResult phys size before (after, true) = Covers phys size before after
MapResult phys size before (after, false) = Unmapped before after

-- The pages and one more hold `len` bytes, and their length is one of whole pages and does not wrap.
page_align-room :
    (len : ℕ)
    → len + 8191 < 2 ^ 32
    → ((page_align len + 4096) % 2 ^ 32 ≡ page_align len + 4096)
      × (len + 4096 ≤ page_align len + 4096)
      × ((page_align len + 4096) % 4096 ≡ 0)
unfolding page_align
page_align-room len h =
    let pages = mask-pages (len + 4096 - 1) (omega arith) in
    (omega (arith, pages), omega (arith, pages), omega (arith, pages))

close_first : (fd : ℕ) (files : List ℕ) → close fd (fd ∷ files) ≡ files
unfolding close
close_first fd files = ground arith

munmap_first :
    (addr len : ℕ) (regions : List Region)
    → munmap addr len (record { addr = addr; len = len } ∷ regions) ≡ regions
unfolding munmap
munmap_first addr len regions = ground arith

-- mmap gives MAP_FAILED, or a place for `len` bytes that is not at NULL.
abbrev pub Placed : ℕ → ℕ → Type 0
Placed answer len = (answer ≡ map_failed) ⊎ ((1 ≤ answer) × (answer + len < 2 ^ 32))

module _ (answer phys fd size : ℕ) (before m : Mapping) (files : m.files ≡ before.files)
    (regions : m.regions ≡ before.regions) (virt : m.user_jpeg_virt ≡ before.user_jpeg_virt)
    (small : phys < 2 ^ 32) (room : size + 4096 ≤ m.mapbuflen)
    (pages : m.mapbuflen % 4096 ≡ 0) where
  map_fails :
      Unmapped before (record m { mapfd = fd; mapaddr = answer; files = close fd (fd ∷ m.files) })
  map_fails = record {
    same_files = close_first fd m.files ∙ files;
    same_regions = regions;
    same_virt = virt;
  }

  map-Covers :
      1 ≤ answer
      → answer + m.mapbuflen < 2 ^ 32
      → Covers phys size before (record m {
        mapfd = fd;
        files = fd ∷ m.files;
        mapaddr = answer;
        regions = record { addr = answer; len = m.mapbuflen } ∷ m.regions;
        user_jpeg_virt = (answer + bit_and phys 4095) % 2 ^ 32;
      })
  unfolding map_offset free_frame_buffer_virtual
  map-Covers there fits =
      let offset = mask-pages phys small in
      let rest = mask-rest phys in
      let not_null : (answer == 0) ≡ false = ground arith in
      record {
        aligned = omega (arith, offset);
        whole_pages = pages;
        in_place = omega (arith, offset, rest);
        from_start = omega (arith, rest);
        to_end = omega (arith, rest);
        files_undone = rw not_null (close_first fd m.files ∙ files);
        regions_undone = rw not_null (munmap_first answer m.mapbuflen m.regions ∙ regions);
      }

  map_file-MapResult :
      Placed answer m.mapbuflen → MapResult phys size before (map_file answer phys fd m)
  map_file-MapResult place = elim (Bool-cases (answer == map_failed)) [
    | inl e ↦ rw e map_fails
    | inr e ↦ elim place [
      | inl f ↦ absurd (ground (arith, e, f))
      | inr f ↦ rw e (map-Covers (f.0) (f.1))
    ]
  ]

-- For a surface whose pages fit into 32 bits, whatever open answers, and where mmap fails or gives
-- a place: after a return of 0 the mapping, of whole pages, covers the user's surface at the
-- address that is kept, and free_frame_buffer_virtual closes and unmaps exactly what was opened and
-- mapped; after a return of -1 nothing is open or mapped that was not before.
pub get_frame_buffer_virtual-MapResult :
    (opened : Option ℕ) (answer : ℕ) (context : Context) (format phys : ℕ) (m : Mapping)
    → phys < 2 ^ 32
    → surface_size context format + 8191 < 2 ^ 32
    → Placed answer (page_align (surface_size context format) + 4096)
    → MapResult phys
        (surface_size context format)
        m
        (get_frame_buffer_virtual opened answer context format phys m)
unfolding get_frame_buffer_virtual
get_frame_buffer_virtual-MapResult none answer context format phys m small fits place = record {
  same_files = refl;
  same_regions = refl;
  same_virt = refl;
}
get_frame_buffer_virtual-MapResult (some fd) answer context format phys m small fits place =
    let size = surface_size context format in
    let room = page_align-room size fits in
    let m1 = record m { mapbuflen = (page_align size + 4096) % 2 ^ 32 } in
    map_file-MapResult answer phys fd size m m1 refl refl refl small (omega (arith, room))
      (omega (arith, room)) (subst (Placed answer) (sym (room.0)) place)
