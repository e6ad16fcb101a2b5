-- ===== src/Decode/Reload.antt =====
-- The reload buffers of a decoder: what is handed back to the driver as loaded.
use libshjpeg.Base.{
  ℕ, ◌+◌, ◌-◌, ◌*◌, ◌^◌, ◌<◌, ◌≡◌, refl, arith, bit_and, bit_and_halves, bit_and_ones, ltb, Bool,
  true, false, not, ◌&&◌, if◌then◌else◌,
}
use libshjpeg.Jpu.State.{has, flag_reload}
use libshjpeg.Jpu.Ints.{count}
use libshjpeg.Jpu.Buffers.{by_four}
use libshjpeg.Device.{reload_size, World, Transfer}
use libshjpeg.Decode.{Reloading, reload_buffer, reload_buffers}

-- A transfer that is not the stream's last one.
abbrev pub is_full : Transfer → Bool
is_full answer = not answer.failed && not (ltb answer.len reload_size)

-- What one buffer with the bit `i` comes to: it is read if it is requested and the stream goes on.
pub record Step (world : World) (i : ℕ) (wanted : Bool) (r r' : Reloading) : Type 0 where
  pub is_wanted :
      wanted
      ≡ (has r.session.machine.jpeg.buffers i && has r.session.machine.jpeg.flags flag_reload)
  pub calls : r'.session.count ≡ r.session.count + count wanted
  pub goes_on : has r'.session.machine.jpeg.flags flag_reload ≡ (
      if wanted
      then is_full (world.read r.session.count)
      else has r.session.machine.jpeg.flags flag_reload)
  pub loaded : r'.session.machine.jpeg.buffers ≡ (
      if wanted && not (world.read r.session.count).failed
      then r.session.machine.jpeg.buffers
      else bit_and r.session.machine.jpeg.buffers (2 ^ 32 - 1 - i))
  pub error : r'.ret ≡ (if wanted then (world.read r.session.count).failed else r.ret)

without_reload : (flags : ℕ) → has (bit_and flags (2 ^ 32 - 1 - flag_reload)) flag_reload ≡ false
unfolding has
without_reload flags = ground (
  arith,
  bit_and_halves flags (2 ^ 32 - 1 - flag_reload),
  bit_and_ones 1 (bit_and flags (2 ^ 32 - 1 - flag_reload)),
)

reload_buffer-Step :
    (world : World) (i : ℕ) (r : Reloading)
    → Step world i
        (has r.session.machine.jpeg.buffers i && has r.session.machine.jpeg.flags flag_reload)
        r
        (reload_buffer world i r)
unfolding reload_buffer
reload_buffer-Step world i r = record {
  is_wanted = refl;
  calls = ground arith;
  goes_on = ground (arith, without_reload r.session.machine.jpeg.flags);
  loaded = ground arith;
  error = ground arith;
}

-- The two bits of a set of reload buffers.
record Bits (b : ℕ) : Type 0 where
  sum : b ≡ 2 * count (has b 2) + count (has b 1)
  drop2 : bit_and b (2 ^ 32 - 1 - 2) ≡ count (has b 1)
  drop1 : bit_and b (2 ^ 32 - 1 - 1) ≡ 2 * count (has b 2)
  low : has (bit_and b (2 ^ 32 - 1 - 2)) 1 ≡ has b 1
  high : has (bit_and b (2 ^ 32 - 1 - 2)) 2 ≡ false

buffer-Bits : (b : ℕ) → b < 4 → Bits b
unfolding has
buffer-Bits =
    by_four Bits (record { sum = refl; drop2 = refl; drop1 = refl; low = refl; high = refl })
      (record { sum = refl; drop2 = refl; drop1 = refl; low = refl; high = refl })
      (record { sum = refl; drop2 = refl; drop1 = refl; low = refl; high = refl })
      (record { sum = refl; drop2 = refl; drop1 = refl; low = refl; high = refl })

-- What the loop over both buffers comes to: buffer 2 is served first, then buffer 1.
pub record Reloaded (world : World) (want2 want1 : Bool) (r r' : Reloading) : Type 0 where
  pub second :
      want2 ≡ (has r.session.machine.jpeg.buffers 2 && has r.session.machine.jpeg.flags flag_reload)
  pub first : want1 ≡ (
      has r.session.machine.jpeg.buffers 1
      && (if want2
          then is_full (world.read r.session.count)
          else has r.session.machine.jpeg.flags flag_reload))
  pub reads : r'.session.count ≡ r.session.count + count want2 + count want1
  pub loaded :
      r'.session.machine.jpeg.buffers
      ≡ 2 * count (want2 && not (world.read r.session.count).failed)
        + count (want1 && not (world.read (r.session.count + count want2)).failed)
  pub error : r'.ret ≡ (
      if want1
      then (world.read (r.session.count + count want2)).failed
      else if want2
      then (world.read r.session.count).failed
      else r.ret)

-- A buffer stays loaded where its read succeeds.
loaded-Bits :
    (b mid b' : ℕ) (ok2 ok1 : Bool)
    → Bits b
    → Bits mid
    → mid ≡ (if ok2 then b else bit_and b (2 ^ 32 - 1 - 2))
    → b' ≡ (if ok1 then mid else bit_and mid (2 ^ 32 - 1 - 1))
    → (ok2 ≡ true → has b 2 ≡ true)
    → (ok1 ≡ true → has b 1 ≡ true)
    → b' ≡ 2 * count ok2 + count ok1
loaded-Bits b mid b' true true v v' e e' w2 w1 = ground (arith, v, w2 refl, w1 refl)
loaded-Bits b mid b' true false v v' e e' w2 w1 = ground (arith, v, v', w2 refl)
loaded-Bits b mid b' false true v v' e e' w2 w1 = ground (arith, v, v', w1 refl)
loaded-Bits b mid b' false false v v' e e' w2 w1 = ground (arith, v, v')

middle-lt : (b : ℕ) (ok : Bool) → b < 4 → (if ok then b else bit_and b (2 ^ 32 - 1 - 2)) < 4
middle-lt b ok h = ground (arith, buffer-Bits b h)

Step-Reloaded :
    (world : World) (want2 want1 : Bool) (r m r' : Reloading)
    → r.session.machine.jpeg.buffers < 4
    → Step world 2 want2 r m
    → Step world 1 want1 m r'
    → Reloaded world want2 want1 r r'
Step-Reloaded world want2 want1 r m r' h s s' =
    let b = buffer-Bits r.session.machine.jpeg.buffers h in
    let n : m.session.count ≡ r.session.count + count want2 = s.calls in
    let mid =
      middle-lt r.session.machine.jpeg.buffers (want2 && not (world.read r.session.count).failed)
        h in
    record {
      second = s.is_wanted;
      first = ground (arith, s, s', b);
      reads = omega (arith, s.calls, s'.calls);
      loaded = rw (← n) (
          loaded-Bits r.session.machine.jpeg.buffers m.session.machine.jpeg.buffers
            r'.session.machine.jpeg.buffers (want2 && not (world.read r.session.count).failed)
            (want1 && not (world.read m.session.count).failed) b
            (buffer-Bits m.session.machine.jpeg.buffers (ground (arith, s.loaded, mid))) s.loaded
            s'.loaded (λ e. ground (arith, s.is_wanted)) (λ e. ground (arith, s, s', b)));
      error = rw (← n) (ground (arith, s.error, s'.error));
    }

-- A buffer that the driver asks for, while the stream goes on.
abbrev pub wants : ℕ → Reloading → Bool
wants i r = has r.session.machine.jpeg.buffers i && has r.session.machine.jpeg.flags flag_reload

-- For a set of at most two requested buffers and any stream: buffer 2 is read first, and buffer 1
-- only if that read was a full one; exactly the buffers whose read succeeds are handed back as
-- loaded; and the last read decides about the error.
pub reload_buffers-Reloaded :
    (world : World) (r : Reloading)
    → r.session.machine.jpeg.buffers < 4
    → Reloaded world (wants 2 r) (wants 1 (reload_buffer world 2 r)) r (reload_buffers world r)
unfolding reload_buffers
reload_buffers-Reloaded world r h =
    Step-Reloaded world (wants 2 r) (wants 1 (reload_buffer world 2 r)) r (reload_buffer world 2 r)
      _ h (reload_buffer-Step world 2 r) (reload_buffer-Step world 1 (reload_buffer world 2 r))
