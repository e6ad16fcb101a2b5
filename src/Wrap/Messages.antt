-- ===== src/Wrap/Messages.antt =====
-- src/libjpeg_wrap/override.c and libmessage.h: the table of error messages. The messages of
-- jerror.h and their codes are those of the libjpeg that the wrapper is built with, so they are
-- parameters.
pub mod Table
use libshjpeg.Base.{ℕ, ◌+◌, ◌-◌, Option, none, some, List, [], ◌∷◌, ◌++◌}
use libshjpeg.Base.Lists.{length, get_or, set}
use Prim.Native.String.{String}

-- A table of messages, with none for NULL.
abbrev pub Messages : Type 0
Messages = List (Option String)

-- The messages of libmessage.h, and the NULL at the end.
abbrev pub own_messages : Messages
own_messages =
    some "SHJPEG: Bogus message code %d"
    ∷ some
        "SHJPEG: Wrong JPEG wrapper version: wrapper compiled using %d,\nbut caller expects %d.\nApplication, wrapper, and library versions must all match."
    ∷ some "SHJPEG: Invalid context object."
    ∷ some "SHJPEG: JPEG compression error in JPU"
    ∷ some "SHJPEG: Processing in JPU mode"
    ∷ some "SHJPEG: Processing in libjpeg mode"
    ∷ some "SHJPEG: Out of UIO memory, switching to S/W mode."
    ∷ none
    ∷ []

-- What jerror.h declares: its messages, with NULL for the version and the copyright, and the codes
-- of these two.
pub record Jerror : Type 0 where
  pub messages : Messages
  pub jmsg_version : ℕ
  pub jmsg_copyright : ℕ

-- JMSG_LASTMSGCODE, which is also the wrapper's first code.
abbrev pub jmsg_lastmsgcode : Jerror → ℕ
jmsg_lastmsgcode j = length j.messages

abbrev pub shjmsg_lastmsgcode : Jerror → ℕ
shjmsg_lastmsgcode j = jmsg_lastmsgcode j + 7

abbrev pub shjpeg_message_table : Jerror → Messages
shjpeg_message_table j = j.messages ++ own_messages

-- The fields of libjpeg's error manager that the wrapper sets.
pub record ErrorMgr : Type 0 where
  pub jpeg_message_table : Messages
  pub last_jpeg_message : ℕ

-- `err` is as jpeg_std_error of libjpeg leaves it. JMSG_NOMESSAGE is 0.
unfoldable pub shjpeg_std_error : Jerror → ErrorMgr → ErrorMgr
shjpeg_std_error j err =
    let table = err.jpeg_message_table in
    let versioned =
      set (shjpeg_message_table j) j.jmsg_version (get_or table j.jmsg_version none) in
    record {
      jpeg_message_table = set versioned j.jmsg_copyright (get_or table j.jmsg_copyright none);
      last_jpeg_message = shjmsg_lastmsgcode j - 1;
    }
