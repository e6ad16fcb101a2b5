-- ===== src/Wrap/Input/Deliver.antt =====
-- jpeg_src_read as a reader of one stream of bytes.
use libshjpeg.Base.{
  ℕ, zero, suc, ◌+◌, ◌-◌, ◌≤◌, ◌<◌, ◌≡◌, ◌⊎◌, inl, inr, refl, sym, arith, subst, ltb, ◌==◌, Bool,
  ◌&&◌, if◌then◌else◌, Bool-cases, Option, some,
}
use libshjpeg.Memory.{Mem}
use libshjpeg.Wrap.Input.{
  jpeg_eoi, Feed, Input, fill_buffer, Reading, take_buffer, take_part, at_marker, at_marker_end,
  last_byte, byte_before, src_loop, jpeg_src_read,
}
use libshjpeg.Wrap.Input.Stream.{Feeds, StandsAt, Delivered, fill_buffer-StandsAt, Ends}
use libshjpeg.Wrap.Input.Marker.{whole_read, nothing_left, marker_end, marker, after_buffer}

module _ {feed : Feed} {input start : ℕ → ℕ} (feeds : Feeds feed input start) where
  -- The buffer is empty only where a fill brought nothing.
  abbrev HasMore : Input → Type 0
  HasMore src = (1 ≤ src.bytes_in_buffer) ⊎ ((k : ℕ) × (feed.len k ≡ 0))

  fill_buffer-HasMore : (src : Input) → HasMore (fill_buffer feed src)
  unfolding fill_buffer
  fill_buffer-HasMore src = elim (Bool-cases (feed.len src.fills == 0)) [
    | inl e ↦ inr (src.fills, ground (arith, e))
    | inr e ↦ inl (ground (arith, e))
  ]

  HasMore-none : (src : Input) → HasMore src → src.bytes_in_buffer ≡ 0 → (k : ℕ) × (feed.len k ≡ 0)
  HasMore-none src (inl h) e = absurd (omega (arith, h, e))
  HasMore-none src (inr h) e = h

  abbrev Returns : ℕ → ℕ → Reading → Type 0
  Returns fuel pos r = (r' : Reading) × (src_loop fuel feed r ≡ some r') × Ends feeds pos r r'

  src_loop-step :
      {pos : ℕ} (fuel : ℕ) (r : Reading)
      → StandsAt input start pos r.src
      → HasMore r.src
      → r.datacnt ≤ r.n_bytes
      → (1 ≤ r.src.bytes_in_buffer
          → r.src.bytes_in_buffer ≤ r.datacnt
          → Returns fuel (pos + r.src.bytes_in_buffer) (take_buffer feed r))
      → Returns (suc fuel) pos r
  unfolding src_loop
  src_loop-step {pos} fuel r s more le later =
      let go_on : 1 ≤ r.src.bytes_in_buffer
          → r.src.bytes_in_buffer ≤ r.datacnt
          → (r' : Reading) × (src_loop fuel feed (take_buffer feed r) ≡ some r')
            × Ends feeds pos r r' =
        λ h h'. let t = later h h' in (t.0, t.1, after_buffer feeds r (t.0) s h h' (t.2)) in
      elim (Bool-cases (ltb r.datacnt r.src.bytes_in_buffer)) [
        | inl e ↦ (take_part r, rw e refl, whole_read feeds r s (ground (arith, e)))
        | inr e ↦
            let fits : r.src.bytes_in_buffer ≤ r.datacnt = ground (arith, e) in
            elim (Bool-cases (r.src.bytes_in_buffer == 0)) [
              | inl e0 ↦ (
                record r { n_bytes = r.n_bytes - r.datacnt },
                rw (e, e0) refl,
                nothing_left feeds r s (HasMore-none r.src more (ground (arith, e0))) le,
              )
              | inr e0 ↦
                  let some_left : 1 ≤ r.src.bytes_in_buffer = ground (arith, e0) in
                  elim (Bool-cases (r.src.bytes_in_buffer == 1)) [
                    | inl e1 ↦ elim (Bool-cases (r.src.memory r.src.next_input_byte == jpeg_eoi)) [
                      | inl e2 ↦ (
                        take_part (at_marker_end r),
                        rw (e, e0, e1, e2) refl,
                        marker_end feeds r s (ground (arith, e1)) (ground (arith, e2)) (omega arith)
                            le,
                      )
                      | inr e2 ↦
                          let t = go_on some_left fits in (t.0, rw (e, e0, e1, e2) (t.1), t.2)
                    ]
                    | inr e1 ↦
                        elim (Bool-cases
                          (byte_before r.src == 0xff && last_byte r.src == jpeg_eoi)) [
                            | inl e2 ↦ (
                              take_part (at_marker r),
                              rw (e, e0, e1, e2) refl,
                              marker feeds r s (ground (arith, e1)) fits (ground (arith, e2))
                                  (ground (arith, e2)) le,
                            )
                            | inr e2 ↦
                                let t = go_on some_left fits in (t.0, rw (e, e0, e1, e2) (t.1), t.2)
                          ]
                  ]
            ]
      ]

  src_loop-ends :
      {pos : ℕ} (fuel : ℕ) (r : Reading)
      → StandsAt input start pos r.src
      → HasMore r.src
      → r.datacnt ≤ r.n_bytes
      → r.datacnt < fuel
      → Returns fuel pos r
  unfolding take_buffer
  src_loop-ends {pos} zero r s more le enough = absurd (omega arith)
  src_loop-ends {pos} (suc fuel) r s more le enough = src_loop-step fuel r s more le (λ h h'.
      src_loop-ends {pos = pos + r.src.bytes_in_buffer} fuel (take_buffer feed r)
        (fill_buffer-StandsAt feeds s) (fill_buffer-HasMore r.src) (omega arith) (omega arith))

  abbrev ReadsTo : Option Reading → ℕ → Mem → ℕ → ℕ → Type 0
  ReadsTo result n out dataptr pos =
      (r : Reading) × (result ≡ some r)
      × ((pos' : ℕ) × StandsAt input start pos' r.src
          × Delivered feed input n dataptr out pos r.out r.n_bytes pos')

  abbrev begin : ℕ → Mem → ℕ → Input → Reading
  begin n out dataptr src = record {
    src = src;
    out = out;
    dataptr = dataptr;
    datacnt = n;
    n_bytes = n;
  }

  begin-ends :
      (fuel n : ℕ) (out : Mem) (dataptr pos : ℕ) (src : Input)
      → StandsAt input start pos src
      → HasMore src
      → n < fuel
      → ReadsTo (src_loop fuel feed (begin n out dataptr src)) n out dataptr pos
  begin-ends fuel n out dataptr pos src s more enough =
      let t = src_loop-ends fuel (begin n out dataptr src) s more (omega arith) enough in
      let e : t.2.0 ≡ (t.0).n_bytes = omega (arith, t.2.2) in
      (
        t.0,
        t.1,
        (
          t.2.1,
          t.2.3,
          subst (λ (count : ℕ). Delivered feed input n dataptr out pos (t.0).out count (t.2.1)) e
              (t.2.4),
        ),
      )

  -- A read of `n` bytes ends within `n + 1` rounds. It puts the next bytes of the stream at
  -- `dataptr`, in order, writes nothing outside the `n` bytes, and stands after them; only where
  -- the end marker would end a full read does a byte 0xff take the place of the marker's second
  -- byte, which stays in the stream. Fewer bytes come only where the stream is at its end or after
  -- a byte 0xd9.
  pub jpeg_src_read-Delivered :
      (fuel n : ℕ) (out : Mem) (dataptr pos : ℕ) (src : Input)
      → StandsAt input start pos src
      → n < fuel
      → (r : Reading) × (jpeg_src_read fuel feed n out dataptr src ≡ some r)
        × ((pos' : ℕ) × StandsAt input start pos' r.src
            × Delivered feed input n dataptr out pos r.out r.n_bytes pos')
  unfolding jpeg_src_read
  jpeg_src_read-Delivered fuel n out dataptr pos src s enough =
      elim (Bool-cases (src.bytes_in_buffer == 0)) [
        | inl e ↦
            let empty : src.bytes_in_buffer ≡ 0 = ground (arith, e) in
            let filled =
              subst (λ (p : ℕ). StandsAt input start p (fill_buffer feed src)) (omega arith)
                (fill_buffer-StandsAt feeds s) in
            subst
              (λ (t : Bool).
                ReadsTo
                  (src_loop fuel feed
                    (begin n out dataptr (if t then fill_buffer feed src else src)))
                  n out dataptr pos)
              (sym e)
              (begin-ends fuel n out dataptr pos (fill_buffer feed src) filled
                (fill_buffer-HasMore src) enough)
        | inr e ↦
            subst
              (λ (t : Bool).
                ReadsTo
                  (src_loop fuel feed
                    (begin n out dataptr (if t then fill_buffer feed src else src)))
                  n out dataptr pos)
              (sym e) (begin-ends fuel n out dataptr pos src s (inl (ground (arith, e))) enough)
      ]
