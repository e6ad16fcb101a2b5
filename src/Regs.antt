-- ===== src/Regs.antt =====
-- src/shjpeg_regs.h: register addresses, command values and interrupt bits of the JPU.
use libshjpeg.Base.{ℕ, ◌+◌, ◌*◌, bit_and}

abbrev pub jcmod : ℕ
jcmod = 0x0000

abbrev pub jccmd : ℕ
jccmd = 0x0004

abbrev pub jcsts : ℕ
jcsts = 0x0008

abbrev pub jcqtn : ℕ
jcqtn = 0x000C

abbrev pub jchtn : ℕ
jchtn = 0x0010

abbrev pub jcdriu : ℕ
jcdriu = 0x0014

abbrev pub jcdrid : ℕ
jcdrid = 0x0018

abbrev pub jcvszu : ℕ
jcvszu = 0x001C

abbrev pub jcvszd : ℕ
jcvszd = 0x0020

abbrev pub jchszu : ℕ
jchszu = 0x0024

abbrev pub jchszd : ℕ
jchszd = 0x0028

abbrev pub jcdtcu : ℕ
jcdtcu = 0x002C

abbrev pub jcdtcm : ℕ
jcdtcm = 0x0030

abbrev pub jcdtcd : ℕ
jcdtcd = 0x0034

abbrev pub jinte : ℕ
jinte = 0x0038

abbrev pub jints : ℕ
jints = 0x003C

abbrev pub jcderr : ℕ
jcderr = 0x0040

abbrev pub jcrst : ℕ
jcrst = 0x0044

abbrev pub jifcnt : ℕ
jifcnt = 0x0060

abbrev pub jifecnt : ℕ
jifecnt = 0x0070

abbrev pub jifesya1 : ℕ
jifesya1 = 0x0074

abbrev pub jifesca1 : ℕ
jifesca1 = 0x0078

abbrev pub jifesya2 : ℕ
jifesya2 = 0x007C

abbrev pub jifesca2 : ℕ
jifesca2 = 0x0080

abbrev pub jifesmw : ℕ
jifesmw = 0x0084

abbrev pub jifesvsz : ℕ
jifesvsz = 0x0088

abbrev pub jifeshsz : ℕ
jifeshsz = 0x008C

abbrev pub jifeda1 : ℕ
jifeda1 = 0x0090

abbrev pub jifeda2 : ℕ
jifeda2 = 0x0094

abbrev pub jifedrsz : ℕ
jifedrsz = 0x0098

abbrev pub jifdcnt : ℕ
jifdcnt = 0x00A0

abbrev pub jifdsa1 : ℕ
jifdsa1 = 0x00A4

abbrev pub jifdsa2 : ℕ
jifdsa2 = 0x00A8

abbrev pub jifddrsz : ℕ
jifddrsz = 0x00AC

abbrev pub jifddmw : ℕ
jifddmw = 0x00B0

abbrev pub jifddvsz : ℕ
jifddvsz = 0x00B4

abbrev pub jifddhsz : ℕ
jifddhsz = 0x00B8

abbrev pub jifddya1 : ℕ
jifddya1 = 0x00BC

abbrev pub jifddca1 : ℕ
jifddca1 = 0x00C0

abbrev pub jifddya2 : ℕ
jifddya2 = 0x00C4

abbrev pub jifddca2 : ℕ
jifddca2 = 0x00C8

abbrev pub jcqtbl0 : ℕ → ℕ
jcqtbl0 n = 0x10000 + bit_and (n * 4) 0x3C

abbrev pub jcqtbl1 : ℕ → ℕ
jcqtbl1 n = 0x10040 + bit_and (n * 4) 0x3C

abbrev pub jcqtbl2 : ℕ → ℕ
jcqtbl2 n = 0x10080 + bit_and (n * 4) 0x3C

abbrev pub jcqtbl3 : ℕ → ℕ
jcqtbl3 n = 0x100C0 + bit_and (n * 4) 0x3C

abbrev pub jchtbd0 : ℕ → ℕ
jchtbd0 n = 0x10100 + bit_and (n * 4) 0x1C

abbrev pub jchtba0 : ℕ → ℕ
jchtba0 n = 0x10120 + bit_and (n * 4) 0xFC

abbrev pub jchtbd1 : ℕ → ℕ
jchtbd1 n = 0x10200 + bit_and (n * 4) 0x1C

abbrev pub jchtba1 : ℕ → ℕ
jchtba1 n = 0x10220 + bit_and (n * 4) 0xFC

abbrev pub jccmd_start : ℕ
jccmd_start = 0x00000001

abbrev pub jccmd_restart : ℕ
jccmd_restart = 0x00000002

abbrev pub jccmd_end : ℕ
jccmd_end = 0x00000004

abbrev pub jccmd_lcmd2 : ℕ
jccmd_lcmd2 = 0x00000100

abbrev pub jccmd_lcmd1 : ℕ
jccmd_lcmd1 = 0x00000200

abbrev pub jccmd_reset : ℕ
jccmd_reset = 0x00000080

abbrev pub jccmd_read_restart : ℕ
jccmd_read_restart = 0x00000400

abbrev pub jccmd_write_restart : ℕ
jccmd_write_restart = 0x00000800

abbrev pub jcmod_dsp_encode : ℕ
jcmod_dsp_encode = 0x00000000

abbrev pub jcmod_dsp_decode : ℕ
jcmod_dsp_decode = 0x00000008

abbrev pub jcmod_input_ctrl : ℕ
jcmod_input_ctrl = 0x00000080

abbrev pub jifcnt_vjsel_jpu : ℕ
jifcnt_vjsel_jpu = 0x00000000

abbrev pub jifcnt_vjsel_vpu : ℕ
jifcnt_vjsel_vpu = 0x00000002

abbrev pub jifecnt_linebuf_mode : ℕ
jifecnt_linebuf_mode = 0x00000002

abbrev pub jifecnt_reload_enable : ℕ
jifecnt_reload_enable = 0x00000040

abbrev pub jifecnt_swap_1234 : ℕ
jifecnt_swap_1234 = 0x00000000

abbrev pub jifecnt_swap_2143 : ℕ
jifecnt_swap_2143 = 0x00000010

abbrev pub jifecnt_swap_3412 : ℕ
jifecnt_swap_3412 = 0x00000020

abbrev pub jifecnt_swap_4321 : ℕ
jifecnt_swap_4321 = 0x00000030

abbrev pub jifdcnt_linebuf_mode : ℕ
jifdcnt_linebuf_mode = 0x00000001

abbrev pub jifdcnt_swap_1234 : ℕ
jifdcnt_swap_1234 = 0x00000000

abbrev pub jifdcnt_swap_2143 : ℕ
jifdcnt_swap_2143 = 0x00000002

abbrev pub jifdcnt_swap_3412 : ℕ
jifdcnt_swap_3412 = 0x00000004

abbrev pub jifdcnt_swap_4321 : ℕ
jifdcnt_swap_4321 = 0x00000006

abbrev pub jifdcnt_reload_enable : ℕ
jifdcnt_reload_enable = 0x00000008

abbrev pub jints_mask : ℕ
jints_mask = 0x00007CE8

abbrev pub jints_ins3_header : ℕ
jints_ins3_header = 0x00000008

abbrev pub jints_ins5_error : ℕ
jints_ins5_error = 0x00000020

abbrev pub jints_ins6_done : ℕ
jints_ins6_done = 0x00000040

abbrev pub jints_ins10_xfer_done : ℕ
jints_ins10_xfer_done = 0x00000400

abbrev pub jints_ins11_linebuf0 : ℕ
jints_ins11_linebuf0 = 0x00000800

abbrev pub jints_ins12_linebuf1 : ℕ
jints_ins12_linebuf1 = 0x00001000

abbrev pub jints_ins13_loaded : ℕ
jints_ins13_loaded = 0x00002000

abbrev pub jints_ins14_reload : ℕ
jints_ins14_reload = 0x00004000
