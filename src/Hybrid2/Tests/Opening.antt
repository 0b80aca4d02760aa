-- ===== src/Hybrid2/Tests/Opening.antt =====
-- The theorems on opening a session of hybrid2, and on the round of its ACK cleanup, at concrete values.
use onramp.Prelude.{Option, none, some, String, string_eq, nat_eq}
use onramp.Samples.{floats, keys}
use onramp.Hybrid2.Opening.{
  Resource, primary_session, datagram2_sub, datagram3_sub, new_hybrid_session_from_sam,
}
use onramp.Hybrid2.Opening.Laws.{Opens, new_hybrid_session_from_sam-Opens}

-- A library that refuses the second subsession.
abbrev refusing_second : Resource → Option String
refusing_second primary_session = none
refusing_second datagram2_sub = none
refusing_second datagram3_sub = some "duplicate"

new_hybrid_session_from_sam-Opens_example :
    Opens keys refusing_second (new_hybrid_session_from_sam floats refusing_second "hybrid" "alice")
new_hybrid_session_from_sam-Opens_example =
    new_hybrid_session_from_sam-Opens floats keys refusing_second "hybrid" "alice"
