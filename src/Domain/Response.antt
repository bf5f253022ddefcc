-- ===== src/Domain/Response.antt =====
-- response.go
use rr_dns.Prelude.{
  ℕ, ◌+◌, List, [], ◌∷◌, Bool, not, ltb, ◌==◌, if◌then◌else◌, length, Result, ok, err, ◌>>◌,
  wrap_err, Section, answer, authority, additional, invalid_rcode, invalid_record,
}
use rr_dns.Domain.Codes.{RCode, rcode_is_valid}
use rr_dns.Domain.Question.{Question}
use rr_dns.Domain.Record
use rr_dns.Domain.Record.{ResourceRecord}

pub record DnsResponse : Type 0 where
  pub id : ℕ
  pub rcode : RCode
  pub question : Question
  pub answers : List ResourceRecord
  pub authorities : List ResourceRecord
  pub additionals : List ResourceRecord

-- Go's zero value of `Question`.
abbrev pub no_question : Question
no_question = record { id = 0; name = []; rrtype = 0; rrclass = 0 }

-- The loop over one section; `i` is the index of the `range`.
unfoldable pub validate_section : Section → ℕ → List ResourceRecord → Result (Unit {0})
validate_section section i [] = ok tt
validate_section section i (rr ∷ rrs) =
    wrap_err (invalid_record section i) (Record.validate rr) >> validate_section section (i + 1) rrs

unfoldable pub validate : DnsResponse → Result (Unit {0})
validate resp =
    if not (rcode_is_valid resp.rcode)
    then err (invalid_rcode resp.rcode)
    else validate_section answer 0 resp.answers
      >> (validate_section authority 0 resp.authorities
          >> validate_section additional 0 resp.additionals)

unfoldable pub new_dns_response :
    ℕ → RCode → List ResourceRecord → List ResourceRecord → List ResourceRecord → Result DnsResponse
unfolding validate
new_dns_response id rcode answers authorities additionals =
    let resp : DnsResponse = record {
      id = id;
      rcode = rcode;
      question = no_question;
      answers = answers;
      authorities = authorities;
      additionals = additionals;
    } in
    validate resp >> ok resp

unfoldable pub new_dns_error_response : ℕ → RCode → DnsResponse
new_dns_error_response id rcode = record {
  id = id;
  rcode = rcode;
  question = no_question;
  answers = [];
  authorities = [];
  additionals = [];
}

unfoldable pub is_error : DnsResponse → Bool
is_error resp = not (resp.rcode == 0)

unfoldable pub has_answers : DnsResponse → Bool
has_answers resp = ltb 0 (length resp.answers)

unfoldable pub answer_count : DnsResponse → ℕ
answer_count resp = length resp.answers

unfoldable pub authority_count : DnsResponse → ℕ
authority_count resp = length resp.authorities

unfoldable pub additional_count : DnsResponse → ℕ
additional_count resp = length resp.additionals
