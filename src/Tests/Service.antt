-- ===== src/Tests/Service.antt =====
-- A query to a server built from one zone file.
use mathlib.Core.List.Perm
use rr_dns.Prelude.{Option, Error, ◌++◌, List, ◌∷◌, [], none}
use rr_dns.Prelude.Bytes.{Bytes, codes}
use rr_dns.Domain.Record
use rr_dns.Domain.Question
use rr_dns.Domain.Question.{Question}
use rr_dns.Rdata
use rr_dns.Wire.Octets.{put_u16}
use rr_dns.Wire.Header.{message_header}
use rr_dns.Transport.{Handler, answering}
use rr_dns.App.{resolver_of}
use rr_dns.Tests.App.{example_env, example_app}
use rr_dns.Tests.Sample.{ask, no_suffix, unbounded}

-- The server at the time 5.
abbrev example_server : Handler unbounded.State
example_server = answering no_suffix (resolver_of example_env example_app 5) 5

abbrev dotted : Question
dotted = ask (codes "a.io.")

abbrev writes : Bytes → Option Error
writes msg = none

abbrev dotted_bytes : Bytes
dotted_bytes =
    message_header 7 0x0100 1 0 0 0 ++ (1 ∷ b'a' ∷ 2 ∷ b'i' ∷ b'o' ∷ 0 ∷ (put_u16 1 ++ put_u16 1))

-- A datagram that is too short comes first.
abbrev earlier : List Bytes
earlier = (9 ∷ []) ∷ []
