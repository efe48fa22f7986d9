-- ===== src/CSeq.antt =====
-- The CSeq header, cseq.go.
use sipproxy.Prelude.{
  ◌≡◌, ◌≢◌, true, List, [], ◌∷◌, ◌++◌, malformed_cseq, Result, ok, err, ◌>>=◌, ℤ,
}
use sipproxy.Text.{Bytes, solid, fields}
use sipproxy.Text.Number.{atoi, itoa}
use sipproxy.Text.Number.RoundTrip.{IsInt, atoi-itoa, itoa-solid, itoa-ne-nil}
use sipproxy.Text.Split.{fields-solid, fields-append}

pub record CSeq : Type 0 where
  pub seq : ℤ
  pub method : Bytes

unfoldable pub parse_cseq_fields : List Bytes → Result CSeq
unfolding atoi
parse_cseq_fields (seq_text ∷ method ∷ []) = do
  n ← atoi seq_text
  ok (record { seq = n; method = method })
parse_cseq_fields _ = err malformed_cseq

unfoldable pub parse_cseq : Bytes → Result CSeq
unfolding parse_cseq_fields fields
parse_cseq s = parse_cseq_fields (fields s)

unfoldable pub print_cseq : CSeq → Bytes
unfolding itoa
print_cseq c = itoa c.seq ++ (b' ' ∷ c.method)

-- A CSeq header with an int and a method of one word is read back.
pub parse-print_cseq :
    (c : CSeq)
    → IsInt c.seq
    → c.method ≢ []
    → solid c.method ≡ true
    → parse_cseq (print_cseq c) ≡ ok c
unfolding parse_cseq print_cseq parse_cseq_fields
parse-print_cseq c i n s = rw (
  fields-append (itoa c.seq) c.method (itoa-ne-nil c.seq) (itoa-solid c.seq),
  fields-solid c.method n s,
  atoi-itoa c.seq i,
)
