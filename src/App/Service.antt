-- ===== src/App/Service.antt =====
-- A query to the server that `buildApplication` makes, from the datagram to what its sender reads.
use rr_dns.Prelude.{ℕ, List, []}
use rr_dns.Prelude.Bytes.{Bytes}
use rr_dns.Prelude.Assoc.{Assoc}
use rr_dns.Domain.Codes.{noerror}
use rr_dns.Domain.Question.{Question}
use rr_dns.Domain.Record.{ResourceRecord}
use rr_dns.Domain.Response.{DnsResponse, no_question}
use rr_dns.Rdata

-- The message that the client reads: the answers, without an error.
abbrev pub read_answers : ℕ → List ResourceRecord → DnsResponse
read_answers id answers = record {
  id = id;
  rcode = noerror;
  question = no_question;
  answers = answers;
  authorities = [];
  additionals = [];
}
