-- ===== src/Domain/Question.antt =====
-- question.go
use rr_dns.Prelude.{
  ℕ, is_empty, not, if◌then◌else◌, Result, ok, err, name_empty, unsupported_type, unsupported_class,
  ◌>>◌, is_empty,
}
use rr_dns.Prelude.Bytes.{Bytes}
use rr_dns.Names.{PublicSuffix}
use rr_dns.Domain.Codes.{RrType, RrClass, rrtype_is_valid, rrclass_is_valid}
use rr_dns.Domain.CacheKey.{generate_cache_key}

pub record Question : Type 0 where
  pub id : ℕ
  pub name : Bytes
  pub rrtype : RrType
  pub rrclass : RrClass

unfoldable pub validate : Question → Result (Unit {0})
validate q =
    if is_empty q.name
    then err name_empty
    else if not (rrtype_is_valid q.rrtype)
    then err (unsupported_type q.rrtype)
    else if not (rrclass_is_valid q.rrclass)
    then err (unsupported_class q.rrclass)
    else ok tt

unfoldable pub new_question : ℕ → Bytes → RrType → RrClass → Result Question
unfolding validate
new_question id name rrtype rrclass =
    let q : Question = record { id = id; name = name; rrtype = rrtype; rrclass = rrclass } in
    validate q >> ok q

unfoldable pub cache_key : PublicSuffix → Question → Bytes
unfolding generate_cache_key
cache_key psl q = generate_cache_key psl q.name q.rrtype q.rrclass
