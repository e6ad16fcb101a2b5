-- ===== src/Wrap/Messages/Table.antt =====
-- Which message the table of the wrapper has for a code.
use libshjpeg.Base.{ℕ, ◌+◌, ◌≤◌, ◌<◌, ◌≡◌, ◌≢◌, sym, ◌∙◌, arith, Option, none, some}
use libshjpeg.Base.Lists.{
  length, get_elem?, get_or, get_elem?-within, get_elem?-append_left, get_elem?-append_right,
  get_elem?-set_self, get_elem?-set_ne, length-append, length-set,
}
use Prim.Native.String.{String}
use libshjpeg.Wrap.Messages.{
  own_messages, Jerror, jmsg_lastmsgcode, shjpeg_message_table, ErrorMgr, shjpeg_std_error,
}

-- libjpeg's messages keep their codes, with its own version and copyright; the wrapper's follow; and
-- each code up to the last one is in the table.
pub record Joined (j : Jerror) (err after : ErrorMgr) : Type 0 where
  pub version :
      get_elem? after.jpeg_message_table j.jmsg_version
      ≡ some (get_or err.jpeg_message_table j.jmsg_version none)
  pub copyright :
      get_elem? after.jpeg_message_table j.jmsg_copyright
      ≡ some (get_or err.jpeg_message_table j.jmsg_copyright none)
  pub standard :
      (code : ℕ)
      → code < jmsg_lastmsgcode j
      → code ≢ j.jmsg_version
      → code ≢ j.jmsg_copyright
      → get_elem? after.jpeg_message_table code ≡ get_elem? j.messages code
  pub own :
      (i : ℕ)
      → get_elem? after.jpeg_message_table (jmsg_lastmsgcode j + i) ≡ get_elem? own_messages i
  pub in_table :
      (code : ℕ)
      → code ≤ after.last_jpeg_message
      → (m : Option String) × (get_elem? after.jpeg_message_table code ≡ some m)

module _ (j : Jerror) (err : ErrorMgr) (version_in : j.jmsg_version < jmsg_lastmsgcode j)
    (copyright_in : j.jmsg_copyright < jmsg_lastmsgcode j)
    (two : j.jmsg_version ≢ j.jmsg_copyright) where
  table_length :
      length (shjpeg_std_error j err).jpeg_message_table ≡ jmsg_lastmsgcode j + length own_messages
  unfolding shjpeg_std_error
  table_length = rw (length-set, length-set) (length-append j.messages own_messages)

  -- The other entries are as in the table that is compiled.
  untouched :
      (code : ℕ)
      → code ≢ j.jmsg_version
      → code ≢ j.jmsg_copyright
      → get_elem? (shjpeg_std_error j err).jpeg_message_table code
        ≡ get_elem? (shjpeg_message_table j) code
  unfolding shjpeg_std_error
  untouched code v c =
      get_elem?-set_ne _ j.jmsg_copyright code _ (λ e. c (sym e))
      ∙ get_elem?-set_ne _ j.jmsg_version code _ (λ e. v (sym e))

  -- Where libjpeg's two codes are among its own: the two tables of messages are joined.
  pub shjpeg_std_error-Joined : Joined j err (shjpeg_std_error j err)
  unfolding shjpeg_std_error
  shjpeg_std_error-Joined =
      let all = length-append j.messages own_messages in
      record {
        version =
            get_elem?-set_ne _ j.jmsg_copyright j.jmsg_version _ (λ e. two (sym e))
            ∙ get_elem?-set_self (shjpeg_message_table j) j.jmsg_version _ (omega (arith, all));
        copyright = get_elem?-set_self _ j.jmsg_copyright _ (rw (length-set) (omega (arith, all)));
        standard =
            λ code h v c. untouched code v c ∙ get_elem?-append_left j.messages own_messages code h;
        own = λ i.
            untouched (jmsg_lastmsgcode j + i) (omega arith) (omega arith)
            ∙ get_elem?-append_right j.messages own_messages i;
        in_table = λ code h.
            get_elem?-within (shjpeg_std_error j err).jpeg_message_table code
              (omega (arith, table_length));
      }
