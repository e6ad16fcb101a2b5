-- ===== src/Jpu/Frames.antt =====
-- What a conversion leaves alone, and how it moves the count of converted line buffers.
use libshjpeg.Base.{◌+◌, ◌%◌, ◌≤◌, ◌≡◌, ◌⊎◌, arith, true, false}
use libshjpeg.Context.{Context}
use libshjpeg.Jpu.State.{Machine, has, flag_convert, flag_softconvert}
use libshjpeg.Jpu.Convert.{start_vio, shjpeg_convert}

pub start_vio-internal :
    (context : Context) (m : Machine)
    → ((start_vio context m).internal ≡ m.internal)
      × ((start_vio context m).jpeg.flags ≡ m.jpeg.flags)
      × ((start_vio context m).events ≡ m.events)
      × ((start_vio context m).jpeg.buffers ≡ m.jpeg.buffers)
unfolding start_vio
start_vio-internal context m = (ground arith, ground arith, ground arith, ground arith)

-- The JPU's side of the state.
pub record SameJpu (m m' : Machine) : Type 0 where
  pub buffers : m'.internal.jpeg_buffers ≡ m.internal.jpeg_buffers
  pub buffer : m'.internal.jpeg_buffer ≡ m.internal.jpeg_buffer
  pub error : m'.internal.jpeg_error ≡ m.internal.jpeg_error
  pub ended : m'.internal.jpeg_end ≡ m.internal.jpeg_end
  pub linebuf : m'.internal.jpeg_linebuf ≡ m.internal.jpeg_linebuf
  pub pending : m'.internal.jpu_line_bufs_pending ≡ m.internal.jpu_line_bufs_pending
  pub finished : m'.internal.jpu_line_bufs_done ≡ m.internal.jpu_line_bufs_done
  pub flags : m'.jpeg.flags ≡ m.jpeg.flags
  pub events : m'.events ≡ m.events
  pub callers : m'.jpeg.buffers ≡ m.jpeg.buffers

pub shjpeg_convert-SameJpu :
    (context : Context) (m : Machine) → SameJpu m (shjpeg_convert context m)
unfolding shjpeg_convert
shjpeg_convert-SameJpu context m = ground (arith, start_vio-internal context m)

-- A conversion counts at most one line buffer, and exactly one unless it is a software conversion
-- of a surface that has no line left.
pub shjpeg_convert-counts :
    (context : Context) (m : Machine)
    → let n = m.internal.vio_line_bufs_done in
      let n' = (shjpeg_convert context m).internal.vio_line_bufs_done in
      ((n' ≡ n + 1)
        ⊎ ((n' ≡ n)
            × (has m.jpeg.flags flag_convert ≡ false)
            × (has m.jpeg.flags flag_softconvert ≡ true)
            × (context.height ≤ m.jpeg.soft_line)))
unfolding shjpeg_convert
shjpeg_convert-counts context m = ground (arith, start_vio-internal context m)

-- A converter in use moves on to the other line buffer with each line buffer that it counts.
pub shjpeg_convert-linebuf :
    (context : Context) (m : Machine)
    → (has m.jpeg.flags flag_convert ≡ true) ⊎ (has m.jpeg.flags flag_softconvert ≡ true)
    → m.internal.vio_linebuf ≡ m.internal.vio_line_bufs_done % 2
    → (shjpeg_convert context m).internal.vio_linebuf
      ≡ (shjpeg_convert context m).internal.vio_line_bufs_done % 2
unfolding shjpeg_convert
shjpeg_convert-linebuf context m used h = ground (arith, start_vio-internal context m)
