-- ===== src/Wrap/Input/Marker.antt =====
-- The ends of a read, one by one, and a read that goes on with the next buffer.
use libshjpeg.Base.{
  ℕ, ◌+◌, ◌-◌, ◌≤◌, ◌<◌, ◌≡◌, inl, inr, refl, sym, ◌∙◌, arith, ap, subst, ◌==◌, Bool, if◌then◌else◌,
  Bool-cases,
}
use libshjpeg.Memory.{store8, store8-outside, store8-at}
use libshjpeg.Wrap.Input.{
  jpeg_eoi, Feed, Reading, take_buffer, take_part, at_marker, at_marker_end, last_byte, byte_before,
}
use libshjpeg.Wrap.Input.Stream.{Feeds, StandsAt, part, Ends, ended, Delivered-after}

module _ {feed : Feed} {input start : ℕ → ℕ} (feeds : Feeds feed input start) where
  pub whole_read :
      {pos : ℕ} (r : Reading)
      → StandsAt input start pos r.src
      → r.datacnt ≤ r.src.bytes_in_buffer
      → Ends feeds pos r (take_part r)
  whole_read {pos} r s h =
      ended feeds r r s refl refl refl (omega arith) h refl (λ h'. absurd (omega (arith, h')))

  pub nothing_left :
      {pos : ℕ} (r : Reading)
      → StandsAt input start pos r.src
      → ((k : ℕ) × (feed.len k ≡ 0))
      → r.datacnt ≤ r.n_bytes
      → Ends feeds pos r (record r { n_bytes = r.n_bytes - r.datacnt })
  nothing_left {pos} r s none_left le = (
    0,
    pos,
    omega arith,
    s,
    record {
      within = omega arith;
      onward = omega arith;
      outside = λ b hb. refl;
      content = λ i hi. absurd (omega (arith, hi));
      moved = inl (omega arith);
      short = λ h. inl none_left;
    },
  )

  pub marker_end :
      {pos : ℕ} (r : Reading)
      → StandsAt input start pos r.src
      → r.src.bytes_in_buffer ≡ 1
      → r.src.memory r.src.next_input_byte ≡ jpeg_eoi
      → 1 ≤ r.datacnt
      → r.datacnt ≤ r.n_bytes
      → Ends feeds pos r (take_part (at_marker_end r))
  unfolding at_marker_end
  marker_end {pos} r s one e h le =
      ended feeds r (at_marker_end r) s refl refl refl (omega arith) (omega arith) (omega arith)
        (λ h'. inr (
          omega arith,
          ap input (omega arith) ∙ sym (s.rest 0 (omega arith)) ∙ ap r.src.memory (omega arith) ∙ e,
        ))

  -- The two bytes of the marker in the stream.
  marker_bytes :
      {pos : ℕ} (r : Reading)
      → StandsAt input start pos r.src
      → 2 ≤ r.src.bytes_in_buffer
      → byte_before r.src ≡ 0xff
      → last_byte r.src ≡ jpeg_eoi
      → (input (pos + (r.src.bytes_in_buffer - 2)) ≡ 0xff)
        × (input (pos + (r.src.bytes_in_buffer - 1)) ≡ jpeg_eoi)
  marker_bytes {pos} r s h e0 e1 = (
    sym (s.rest (r.src.bytes_in_buffer - 2) (omega arith)) ∙ ap r.src.memory (omega arith) ∙ e0,
    sym (s.rest (r.src.bytes_in_buffer - 1) (omega arith)) ∙ ap r.src.memory (omega arith) ∙ e1,
  )

  -- The marker ends the bytes that are wanted: it is kept apart.
  marker_apart :
      {pos : ℕ} (r r1 : Reading)
      → StandsAt input start pos r.src
      → 2 ≤ r.src.bytes_in_buffer
      → r.src.bytes_in_buffer ≡ r.datacnt
      → byte_before r.src ≡ 0xff
      → last_byte r.src ≡ jpeg_eoi
      → r1 ≡ record r {
        out = store8 r.out (r.dataptr + r.datacnt - 1) 0xff;
        datacnt = r.datacnt - 1;
        n_bytes = r.n_bytes - (r.datacnt - r.src.bytes_in_buffer);
      }
      → Ends feeds pos r (take_part r1)
  unfolding take_part
  marker_apart {pos} r r1 s h same e0 e1 e =
      subst (λ (x : Reading). Ends feeds pos r (take_part x)) (sym e)
        (let out = store8 r.out (r.dataptr + r.datacnt - 1) 0xff in
          let r2 = record r {
            out = out;
            datacnt = r.datacnt - 1;
            n_bytes = r.n_bytes - (r.datacnt - r.src.bytes_in_buffer);
          } in
          let p = part feeds r2 s (omega arith) in
          let b = marker_bytes r s h e0 e1 in
          (
            r.datacnt,
            pos + (r.datacnt - 1),
            omega arith,
            p.0,
            record {
              within = omega arith;
              onward = omega arith;
              outside = λ a ha.
                  p.2 a (omega (arith, ha))
                  ∙ store8-outside r.out (r.dataptr + r.datacnt - 1) 0xff a (omega (arith, ha));
              content = λ i hi. p.1 i (omega (arith, hi));
              moved = inr (
                omega arith,
                refl,
                omega arith,
                p.2 (r.dataptr + r.datacnt - 1) (omega arith)
                    ∙ store8-at r.out (r.dataptr + r.datacnt - 1) 0xff (omega arith),
                ap input (omega arith) ∙ b.0,
                ap input (omega arith) ∙ b.1,
              );
              short = λ h'. absurd (omega (arith, h'));
            },
          ))

  pub marker :
      {pos : ℕ} (r : Reading)
      → StandsAt input start pos r.src
      → 2 ≤ r.src.bytes_in_buffer
      → r.src.bytes_in_buffer ≤ r.datacnt
      → byte_before r.src ≡ 0xff
      → last_byte r.src ≡ jpeg_eoi
      → r.datacnt ≤ r.n_bytes
      → Ends feeds pos r (take_part (at_marker r))
  unfolding at_marker
  marker {pos} r s h h' e0 e1 le = elim (Bool-cases (r.datacnt == r.src.bytes_in_buffer)) [
    | inl e ↦ marker_apart r (at_marker r) s h (ground (arith, e)) e0 e1 (rw e refl)
    | inr e ↦
        let fewer : r.src.bytes_in_buffer < r.datacnt = ground (arith, e) in
        let b = marker_bytes r s h e0 e1 in
        subst
          (λ (t : Bool). Ends feeds pos r (
            take_part (
              if t
              then record r {
                out = store8 r.out (r.dataptr + r.datacnt - 1) 0xff;
                datacnt = r.datacnt - 1;
                n_bytes = r.n_bytes - (r.datacnt - r.src.bytes_in_buffer);
              }
              else record r {
                datacnt = r.src.bytes_in_buffer;
                n_bytes = r.n_bytes - (r.datacnt - r.src.bytes_in_buffer);
              })))
          (sym e)
          (ended feeds r
            (record r {
              datacnt = r.src.bytes_in_buffer;
              n_bytes = r.n_bytes - (r.datacnt - r.src.bytes_in_buffer);
            })
            s refl refl refl (omega arith) (omega arith) (omega arith)
            (λ h''. inr (omega arith, ap input (omega arith) ∙ b.1)))
  ]

  pub after_buffer :
      {pos : ℕ} (r r' : Reading)
      → StandsAt input start pos r.src
      → 1 ≤ r.src.bytes_in_buffer
      → r.src.bytes_in_buffer ≤ r.datacnt
      → Ends feeds (pos + r.src.bytes_in_buffer) (take_buffer feed r) r'
      → Ends feeds pos r r'
  unfolding take_buffer
  after_buffer {pos} r r' s h h' (count, pos', n, at, d) = (
    r.src.bytes_in_buffer + count,
    pos',
    omega arith,
    at,
    Delivered-after feeds r.src.bytes_in_buffer r.datacnt r.dataptr pos r.out r.src.memory
        r.src.next_input_byte r'.out count pos' h' s.rest d,
  )
