-- ===== src/RegNames/Named.antt =====
-- The table of names goes with the registers of src/shjpeg_regs.h.
use libshjpeg.Base.{ℕ, ◌/◌, ◌≤◌, ◌≡◌, refl, arith, some, true, leb, List, [], ◌∷◌, map}
use libshjpeg.Base.Lists.{get_elem?-within}
use libshjpeg.Regs.{
  jcmod, jccmd, jcsts, jcqtn, jchtn, jcdriu, jcdrid, jcvszu, jcvszd, jchszu, jchszd, jcdtcu, jcdtcm,
  jcdtcd, jinte, jints, jcderr, jcrst, jifcnt, jifecnt, jifesya1, jifesca1, jifesya2, jifesca2,
  jifesmw, jifesvsz, jifeshsz, jifeda1, jifeda2, jifedrsz, jifdcnt, jifdsa1, jifdsa2, jifddrsz,
  jifddmw, jifddvsz, jifddhsz, jifddya1, jifddca1, jifddya2, jifddca2,
}
use libshjpeg.RegNames.{jpu_reg_str, reg_name}
use Prim.Native.String.{String}

-- A write that is reported is reported with a name: the table is not read behind its end.
pub reg_name-within :
    (address : ℕ) → address ≤ jifddca2 → (name : String) × (reg_name address ≡ some name)
reg_name-within address h =
    let t = get_elem?-within jpu_reg_str (address / 4) (omega arith) in
    let e : leb address jifddca2 ≡ true = ground arith in (t.0, rw e (t.1))

-- The registers with their names, in the order of their addresses.
abbrev registers : List (ℕ × String)
registers =
    (jcmod, "JCMOD")
    ∷ (jccmd, "JCCMD")
    ∷ (jcsts, "JCSTS")
    ∷ (jcqtn, "JCQTN")
    ∷ (jchtn, "JCHTN")
    ∷ (jcdriu, "JCDRIU")
    ∷ (jcdrid, "JCDRID")
    ∷ (jcvszu, "JCVSZU")
    ∷ (jcvszd, "JCVSZD")
    ∷ (jchszu, "JCHSZU")
    ∷ (jchszd, "JCHSZD")
    ∷ (jcdtcu, "JCDTCU")
    ∷ (jcdtcm, "JCDTCM")
    ∷ (jcdtcd, "JCDTCD")
    ∷ (jinte, "JINTE")
    ∷ (jints, "JINTS")
    ∷ (jcderr, "JCDERR")
    ∷ (jcrst, "JCRST")
    ∷ (jifcnt, "JIFCNT")
    ∷ (jifecnt, "JIFECNT")
    ∷ (jifesya1, "JIFESYA1")
    ∷ (jifesca1, "JIFESCA1")
    ∷ (jifesya2, "JIFESYA2")
    ∷ (jifesca2, "JIFESCA2")
    ∷ (jifesmw, "JIFESMW")
    ∷ (jifesvsz, "JIFESVSZ")
    ∷ (jifeshsz, "JIFESHSZ")
    ∷ (jifeda1, "JIFEDA1")
    ∷ (jifeda2, "JIFEDA2")
    ∷ (jifedrsz, "JIFEDRSZ")
    ∷ (jifdcnt, "JIFDCNT")
    ∷ (jifdsa1, "JIFDSA1")
    ∷ (jifdsa2, "JIFDSA2")
    ∷ (jifddrsz, "JIFDDRSZ")
    ∷ (jifddmw, "JIFDDMW")
    ∷ (jifddvsz, "JIFDDVSZ")
    ∷ (jifddhsz, "JIFDDHSZ")
    ∷ (jifddya1, "JIFDDYA1")
    ∷ (jifddca1, "JIFDDCA1")
    ∷ (jifddya2, "JIFDDYA2")
    ∷ (jifddca2, "JIFDDCA2")
    ∷ []

-- Each register is reported with its own name.
pub reg_name-registers :
    map (λ (r : ℕ × String). reg_name (r.0)) registers
    ≡ map (λ (r : ℕ × String). some (r.1)) registers
reg_name-registers = refl
