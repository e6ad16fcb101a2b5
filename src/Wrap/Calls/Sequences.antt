-- ===== src/Wrap/Calls/Sequences.antt =====
-- Sequences of calls on one object, in the order of libjpeg's manual.
use libshjpeg.Base.{ℕ, ◌≡◌, ◌≢◌, Bool, true, false, Option, none, some}
use libshjpeg.Wrap.Support.{Decompress, Compress}
use libshjpeg.Wrap.Calls.{
  live, Wrapper, State, Outside, Outcome, returned, error_exit, unfinished, shjpeg_start_decompress,
  shjpeg_create_decompress, shjpeg_create_compress, shjpeg_read_header, shjpeg_finish_decompress,
  shjpeg_start_compress, shjpeg_finish_compress, shjpeg_abort, shjpeg_destroy,
}

abbrev pub OnCtx : (Wrapper → Type 0) → Option Wrapper → Type 0
OnCtx P none = Unit
OnCtx P (some w) = P w

-- The object, if it is known, is not in JPU mode.
abbrev pub Idle : State → Type 0
Idle s = OnCtx (λ w. w.jpumode ≡ false) s.ctx

abbrev pub InJpu : Wrapper → Type 0
InJpu w = w.jpumode ≡ true → (w.handle ≡ live) × (w.virt_addr ≢ 0)

abbrev pub Ready : State → Type 0
Ready s = OnCtx InJpu s.ctx

-- A call leaves the state of its return or of its error exit.
abbrev pub Leaves : Outcome → State → Type 0
Leaves (returned b s) t = s ≡ t
Leaves (error_exit m s) t = s ≡ t
Leaves (unfinished s) t = ⊥

-- Any sequence of calls, but a start and an abort only outside JPU mode.
pub data Reach : State → Type 0 where
  unknown : (s : State) → s.ctx ≡ none → Reach s
  decompressor :
      {s t : State} (o : Outside) (version : ℕ)
      → Reach s
      → Leaves (shjpeg_create_decompress o version s) t
      → Reach t
  compressor :
      {s t : State} (o : Outside) (version : ℕ)
      → Reach s
      → Leaves (shjpeg_create_compress o version s) t
      → Reach t
  header_read : {s t : State} (o : Outside) → Reach s → Leaves (shjpeg_read_header o s) t → Reach t
  decoding :
      {s t : State} (o : Outside) (cinfo : Decompress)
      → Reach s
      → Idle s
      → Leaves (shjpeg_start_decompress o cinfo s) t
      → Reach t
  decoded :
      {s t : State} (o : Outside) → Reach s → Leaves (shjpeg_finish_decompress o s) t → Reach t
  encoding :
      {s t : State} (o : Outside) (cinfo : Compress) (write_all_tables : Bool)
      → Reach s
      → Idle s
      → Leaves (shjpeg_start_compress o cinfo write_all_tables s) t
      → Reach t
  encoded :
      {s t : State} (o : Outside) (cinfo : Compress)
      → Reach s
      → Leaves (shjpeg_finish_compress o cinfo s) t
      → Reach t
  aborted :
      {s : State} (is_decompressor : Bool)
      → Reach s
      → Idle s
      → Reach (shjpeg_abort is_decompressor s)
  destroyed :
      {s : State} (is_decompressor : Bool) → Reach s → Reach (shjpeg_destroy is_decompressor s)
