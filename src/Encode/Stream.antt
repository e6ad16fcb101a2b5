-- ===== src/Encode/Stream.antt =====
-- The coded data that an encoder writes to the stream.
use libshjpeg.Base.{
  ℕ, zero, suc, ◌+◌, ◌-◌, ◌≤◌, ◌≡◌, ◌⊎◌, inl, inr, refl, arith, ◌==◌, Bool, true, false, not, ◌||◌,
  if◌then◌else◌, Bool-cases, List, [], ◌∷◌,
}
use libshjpeg.PixelFormat.{pf_nv12, pf_nv16, pf_ycbcr}
use libshjpeg.Jpu.State.{has}
use libshjpeg.Jpu.Loops.{Outcome, returned, failed, blocked, out_of_fuel}
use libshjpeg.Jpu.Run.{shjpeg_jpu_run}
use libshjpeg.Device.{
  reload_size, Layout, World, Session, Coded, finished, waits, exhausted, trapped, Call, init_call,
  read_call, write_call,
}
use libshjpeg.Decode.{Target, is_end}
use libshjpeg.Decode.Run.{free_frame, unlock_jpu, sops_init, is_supported}
use libshjpeg.Decode.Outcomes.{Returns, if-Returns}
use libshjpeg.Encode.{
  Writing, amount_to_write, write_buffer, write_buffers, encode_loop, encode_run, encode_hw,
  shjpeg_encode,
}

-- A stream that takes all bytes, and a data count that never goes back.
pub record TakesAll (world : World) : Type 0 where
  pub takes : (n len : ℕ) → world.write n len ≡ len
  pub grows : (n : ℕ) → world.coded n ≤ world.coded (suc n)

-- The bytes of all writes.
abbrev pub total : List Call → ℕ
total [] = 0
total (init_call ∷ calls) = total calls
total (read_call offset len ∷ calls) = total calls
total (write_call offset len ∷ calls) = len + total calls

-- Each write is of one reload buffer and of no more than it holds.
abbrev pub AllWithin : List Call → Type 0
AllWithin [] = Unit
AllWithin (init_call ∷ calls) = AllWithin calls
AllWithin (read_call offset len ∷ calls) = AllWithin calls
AllWithin (write_call offset len ∷ calls) =
    ((offset ≡ 0) ⊎ (offset ≡ reload_size)) × (len ≤ reload_size) × AllWithin calls

record InStep (world : World) (w : Writing) : Type 0 where
  counted : total w.session.calls ≡ w.written
  not_ahead : w.written ≤ world.coded w.session.count
  within : AllWithin w.session.calls

write_buffer-InStep :
    (world : World) (i : ℕ) (w : Writing)
    → TakesAll world
    → (i ≡ 1) ⊎ (i ≡ 2)
    → InStep world w
    → InStep world (write_buffer world i w)
unfolding write_buffer
write_buffer-InStep world i w all one v = elim (Bool-cases (has w.session.machine.jpeg.buffers i)) [
  | inl e ↦ rw e (
      let len = amount_to_write (world.coded w.session.count) w.written in
      let bound : len ≤ world.coded w.session.count - w.written = ground (arith, v.not_ahead) in
      let short : len ≤ reload_size = ground (arith, v.not_ahead) in
      let same : world.write w.session.count len ≡ len = all.takes w.session.count len in
      let later : world.coded w.session.count ≤ world.coded (suc w.session.count) =
        all.grows w.session.count in
      let next : w.session.count + 1 ≡ suc w.session.count = omega arith in
      record {
        counted = omega (arith, same, v.counted);
        not_ahead = rw next (omega (arith, same, bound, later, v.not_ahead));
        within = (ground arith, short, v.within);
      })
  | inr e ↦ rw e v
]

write_buffers-InStep :
    (world : World) (w : Writing)
    → TakesAll world
    → InStep world w
    → InStep world (write_buffers world w)
unfolding write_buffers
write_buffers-InStep world w all v =
    write_buffer-InStep world 2 _ all (inr refl) (write_buffer-InStep world 1 w all (inl refl) v)

-- What has been written when a call of the encoder returns.
pub record Streamed (world : World) (s : Session) : Type 0 where
  pub not_ahead : total s.calls ≤ world.coded s.count
  pub within : AllWithin s.calls

InStep-Streamed : {world : World} {w : Writing} → InStep world w → Streamed world w.session
InStep-Streamed v = record { not_ahead = omega (arith, v.counted, v.not_ahead); within = v.within }

abbrev Streams : World → Session → Bool → Type 0
Streams world s ret = Streamed world s

after_run :
    (fuel rounds : ℕ) (world : World) (w : Writing) (o : Outcome)
    → TakesAll world
    → InStep world w
    → ((w' : Writing)
        → InStep world w'
        → Returns (Streams world) (encode_loop fuel rounds world w'))
    → Returns (Streams world) (elim o [
      | returned m ↦
          let w' =
            write_buffers world
              (record { session = record w.session { machine = m }; written = w.written }) in
          if is_end m.jpeg.state
          then finished w'.session (not (m.jpeg.error == 0))
          else encode_loop fuel rounds world w'
      | failed m ↦ finished (record w.session { machine = m }) true
      | blocked m ↦ waits (record w.session { machine = m })
      | out_of_fuel m ↦ exhausted (record w.session { machine = m })
    ])
after_run fuel rounds world w (returned m) all v later =
    let next : Writing = record {
      session = record w.session { machine = m };
      written = w.written;
    } in
    let v' =
      write_buffers-InStep world next all
        (record { counted = v.counted; not_ahead = v.not_ahead; within = v.within }) in
    if-Returns (Streams world) (is_end m.jpeg.state) (finished _ _) _ (InStep-Streamed v')
      (later _ v')
after_run fuel rounds world w (failed m) all v later = record {
  not_ahead = omega (arith, v.counted, v.not_ahead);
  within = v.within;
}
after_run fuel rounds world w (blocked m) all v later = tt
after_run fuel rounds world w (out_of_fuel m) all v later = tt

encode_loop-Streamed :
    (fuel rounds : ℕ) (world : World) (w : Writing)
    → TakesAll world
    → InStep world w
    → Returns (Streams world) (encode_loop fuel rounds world w)
unfolding encode_loop
encode_loop-Streamed zero rounds world w all v = tt
encode_loop-Streamed (suc fuel) rounds world w all v =
    after_run fuel rounds world w (shjpeg_jpu_run rounds w.session.context w.session.machine) all v
      (λ w' v'. encode_loop-Streamed fuel rounds world w' all v')

free_frame-Streamed :
    (world : World) (c : Coded) → Returns (Streams world) c → Returns (Streams world) (free_frame c)
free_frame-Streamed world (finished s ret) h = record { not_ahead = h.not_ahead; within = h.within }
free_frame-Streamed world (waits s) h = tt
free_frame-Streamed world (exhausted s) h = tt
free_frame-Streamed world (trapped s) h = tt

unlock_jpu-Streamed :
    (world : World) (c : Coded)
    → Returns (Streams world) c
    → Returns (Streams world) (unlock_jpu world c)
unlock_jpu-Streamed world (finished s ret) h = record { not_ahead = h.not_ahead; within = h.within }
unlock_jpu-Streamed world (waits s) h = tt
unlock_jpu-Streamed world (exhausted s) h = tt
unlock_jpu-Streamed world (trapped s) h = tt

-- Nothing is written yet.
record Fresh (s : Session) : Type 0 where
  none_written : total s.calls ≡ 0
  no_call : AllWithin s.calls

encode_run-Streamed :
    (fuel rounds : ℕ) (world : World) (s : Session)
    → TakesAll world
    → Fresh s
    → Returns (Streams world) (encode_run fuel rounds world s)
unfolding encode_run
encode_run-Streamed fuel rounds world s all f = unlock_jpu-Streamed world _ (
    free_frame-Streamed world _ (
      encode_loop-Streamed fuel rounds world _ all
        (record { counted = f.none_written; not_ahead = omega arith; within = f.no_call })))

Fresh-either : (b : Bool) (s s' : Session) → Fresh s → Fresh s' → Fresh (if b then s else s')
Fresh-either true s s' f f' = f
Fresh-either false s s' f f' = f'

Fresh-init : (s : Session) → Fresh s → Fresh (sops_init (record s { locked = true }))
Fresh-init s f =
    Fresh-either s.context.sops.init _ _
      (record { none_written = f.none_written; no_call = f.no_call })
      (record { none_written = f.none_written; no_call = f.no_call })

Fresh-Streamed : {world : World} {s : Session} → Fresh s → Streamed world s
Fresh-Streamed f = record { not_ahead = omega (arith, f.none_written); within = f.no_call }

encode_hw-Streamed :
    (fuel rounds : ℕ) (world : World) (layout : Layout) (source : Target) (s : Session)
    → TakesAll world
    → Fresh s
    → Returns (Streams world) (encode_hw fuel rounds world layout source s)
unfolding encode_hw
encode_hw-Streamed fuel rounds world layout source s all f =
    let f' = Fresh-init s f in
    if-Returns (Streams world) (not world.lock) (finished s true) _ (Fresh-Streamed f) (
      if-Returns (Streams world) (source.format == pf_nv12 || source.format == pf_nv16) _ _
        (encode_run-Streamed fuel rounds world _ all
          (record { none_written = f'.none_written; no_call = f'.no_call }))
        (if-Returns (Streams world) (source.format == pf_ycbcr) _ _
          (if-Returns (Streams world) world.map_frame _ (finished _ true)
            (encode_run-Streamed fuel rounds world _ all
              (record { none_written = f'.none_written; no_call = f'.no_call }))
            (record { not_ahead = omega (arith, f'.none_written); within = f'.no_call }))
          (encode_run-Streamed fuel rounds world _ all
            (record { none_written = f'.none_written; no_call = f'.no_call }))))

-- With a stream that takes all bytes that it is given and a data count that never goes back, when
-- shjpeg_encode returns, on any path, each write was of one of the two reload buffers and of at most
-- its size, and all writes together are not more than the JPU has coded.
pub shjpeg_encode-Streamed :
    (fuel rounds : ℕ) (world : World) (layout : Layout) (valid initialized virt : Bool)
    (source : Target) (s : Session)
    → TakesAll world
    → s.calls ≡ []
    → Returns
        (λ t ret. Streamed world t)
        (shjpeg_encode fuel rounds world layout valid initialized virt source s)
unfolding shjpeg_encode
shjpeg_encode-Streamed fuel rounds world layout valid initialized virt source s all e =
    let f : Fresh s = record { none_written = rw e refl; no_call = rw e tt } in
    if-Returns (Streams world) (not valid) (finished s true) _ (Fresh-Streamed f) (
      if-Returns (Streams world) (not initialized) (finished s true) _ (Fresh-Streamed f) (
        if-Returns (Streams world) (not virt) (finished s true) _ (Fresh-Streamed f) (
          if-Returns (Streams world) (not (is_supported source.format)) (finished s true) _
            (Fresh-Streamed f) (encode_hw-Streamed fuel rounds world layout source s all f))))

-- With a stream that takes all bytes and a coded data count that never goes back: where the JPU has
-- stopped, a buffer is loaded, and the rest of the coded data fits in one reload buffer, the loop over
-- the buffers writes all that is left, whichever buffers are loaded.
pub write_buffers-drains :
    (world : World) (w : Writing)
    → TakesAll world
    → (has w.session.machine.jpeg.buffers 1 ≡ true) ⊎ (has w.session.machine.jpeg.buffers 2 ≡ true)
    → world.coded (w.session.count + 1) ≡ world.coded w.session.count
    → w.written ≤ world.coded w.session.count
    → world.coded w.session.count ≤ w.written + reload_size
    → (write_buffers world w).written ≡ world.coded w.session.count
unfolding write_buffers write_buffer
write_buffers-drains world w all loaded stopped behind rest = ground (
  arith,
  all.takes w.session.count (amount_to_write (world.coded w.session.count) w.written),
  all.takes w.session.count (world.coded w.session.count - w.written),
  all.takes (w.session.count + 1) 0,
)
