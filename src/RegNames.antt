-- ===== src/RegNames.antt =====
-- src/shjpeg_config.c: the names of the registers for the debug output of src/shjpeg_jpu.h.
pub mod Named
use libshjpeg.Base.{ℕ, ◌/◌, Option, none, some, leb, if◌then◌else◌, List, [], ◌∷◌}
use libshjpeg.Base.Lists.{get_elem?}
use libshjpeg.Regs.{jifddca2}
use Prim.Native.String.{String}

abbrev pub jpu_reg_str : List String
jpu_reg_str =
    "JCMOD" ∷ "JCCMD" ∷ "JCSTS" ∷ "JCQTN" ∷ "JCHTN" ∷ "JCDRIU" ∷ "JCDRID" ∷ "JCVSZU" ∷ "JCVSZD"
    ∷ "JCHSZU" ∷ "JCHSZD" ∷ "JCDTCU" ∷ "JCDTCM" ∷ "JCDTCD" ∷ "JINTE" ∷ "JINTS" ∷ "JCDERR" ∷ "JCRST"
    ∷ "-" ∷ "-" ∷ "-" ∷ "-" ∷ "-" ∷ "-" ∷ "JIFCNT" ∷ "-" ∷ "-" ∷ "-" ∷ "JIFECNT" ∷ "JIFESYA1"
    ∷ "JIFESCA1" ∷ "JIFESYA2" ∷ "JIFESCA2" ∷ "JIFESMW" ∷ "JIFESVSZ" ∷ "JIFESHSZ" ∷ "JIFEDA1"
    ∷ "JIFEDA2" ∷ "JIFEDRSZ" ∷ "-" ∷ "JIFDCNT" ∷ "JIFDSA1" ∷ "JIFDSA2" ∷ "JIFDDRSZ" ∷ "JIFDDMW"
    ∷ "JIFDDVSZ" ∷ "JIFDDHSZ" ∷ "JIFDDYA1" ∷ "JIFDDCA1" ∷ "JIFDDYA2" ∷ "JIFDDCA2" ∷ "-" ∷ []

-- The name that a write to a register is reported with; a write behind the last named register is
-- not reported. None is also a read out of the table.
abbrev pub reg_name : ℕ → Option String
reg_name address = if leb address jifddca2 then get_elem? jpu_reg_str (address / 4) else none
