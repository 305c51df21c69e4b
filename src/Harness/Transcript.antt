-- ===== src/Harness/Transcript.antt =====
-- harness/harness.go: `Transcript`. The times of its entries are left out: nothing reads them.
use icesmtp.Prelude.{List, [], ◌∷◌, ◌++◌, Bytes, codes}
use icesmtp.Text.Search.{trim_suffix}

pub data TranscriptDirection : Type 0 where
  direction_client direction_server : TranscriptDirection

pub record TranscriptEntry : Type 0 where
  pub direction : TranscriptDirection
  pub content : Bytes

abbrev pub Transcript : Type 0
Transcript = List TranscriptEntry

unfoldable pub record_client : Bytes → Transcript → Transcript
record_client bytes t = t ++ record { direction = direction_client; content = bytes } ∷ []

unfoldable pub record_server : Bytes → Transcript → Transcript
record_server bytes t = t ++ record { direction = direction_server; content = bytes } ∷ []

abbrev pub mark : TranscriptDirection → Bytes
mark direction_client = codes "C: "
mark direction_server = codes "S: "

-- `Transcript.String`.
unfoldable pub spell : Transcript → Bytes
unfolding trim_suffix
spell [] = []
spell (e ∷ t) = mark e.direction ++ (trim_suffix e.content (codes "\r\n") ++ (b'\n' ∷ spell t))
