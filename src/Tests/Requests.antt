-- ===== src/Tests/Requests.antt =====
-- Concrete requests for src/ob_web_server.c.
use onboarding.Base.{
  ℕ, ◌≡◌, refl, true, false, none, some, [], ◌∷◌, ◌++◌, map, replicate, ℤ, arith, Bytes, codes,
  Subseq, nil, keep, skip, c_str, not-Subseq-nil, Subseq-ne,
}
use onboarding.Web.Net.{byte}
use onboarding.Web.Send.{sendall, Delivered, sendall-Delivered}
use onboarding.Web.Request.Name
use onboarding.Web.Request.Name.{Name, name_byte, name_bytes, get, post}
use onboarding.Web.Request.FileName.{
  get_method, post_method, request, request_line, request_line_overflow,
}
use onboarding.Web.Request.Head.{Head}
use onboarding.Web.Request.HeadSearch.{answer, behind_mark, read_head-behind_mark}
use onboarding.Web.Request.Length
use onboarding.Web.Request.Length.{Length, length_byte, length_bytes, int_mod}
use onboarding.Web.Request.ContentLength.{
  with_length, content_length_value, content_length_scattered,
}
use onboarding.Web.Request.Search.{header}
use onboarding.Web.Request.Head.{initial, read_head}
use onboarding.Tests.Fixtures.{test_net, test_net-Sends, path_bytes}

sendall_example :
    (r : ℤ × Bytes) × (sendall test_net 3 (codes "hello") (codes "x") ≡ some r)
    × Delivered (λ w. w) (codes "hello") (codes "x") r
sendall_example = sendall-Delivered test_net 3 (λ w. w) test_net-Sends (codes "hello") (codes "x")

request_line_example :
    (t : Name) × (name_bytes Name.initial (request get_method (codes "/a.html") (codes "HTTP/1.1"))
      ≡ some t)
    × (t.page_type ≡ get)
    × (c_str t.filename ≡ codes "/a.html")
request_line_example =
    request_line get_method 47 (codes "a.html") (codes "HTTP/1.1")
      (path_bytes (codes "/a.html") refl) (omega arith)

request_line_overflow_example :
    name_bytes Name.initial (request post_method (47 ∷ replicate 31 97) []) ≡ none
request_line_overflow_example =
    request_line_overflow post_method 47 (replicate 31 97) []
      (path_bytes (47 ∷ replicate 31 97) refl) (omega arith)

no_header : ¬ Subseq header (codes "ab")
no_header q = not-Subseq-nil (Subseq-ne (Subseq-ne q (omega arith)) (omega arith))

content_length_value_example :
    (k : ℕ) × (length_bytes Length.initial (with_length (codes "ab") (codes "42") (codes "ab"))
      ≡ some (record { do_get_length = false; length = 42; ct_index = k }))
content_length_value_example =
    content_length_value (codes "ab") (codes "42") (codes "ab") no_header no_header
      ((omega arith, omega arith), ((omega arith, omega arith), tt)) (omega arith)

scattered_header : Subseq header (codes "xC-ontent-Length: ")
scattered_header = skip (
    keep (
      skip (
        keep (
          keep (
            keep (
              keep (
                keep
                  (keep (keep (keep (keep (keep (keep (keep (keep (keep (keep nil)))))))))))))))))

content_length_scattered_example :
    (pre behind : Bytes) × (codes "xC-ontent-Length: " ≡ pre ++ behind)
    × (length_bytes Length.initial pre
        ≡ some (record { do_get_length = true; length = 0; ct_index = 0 }))
content_length_scattered_example =
    content_length_scattered (codes "xC-ontent-Length: ") scattered_header

behind_mark_example :
    (h : Head) × (read_head initial (map byte (codes "a\r\n\r\nb"))
      ≡ answer h (behind_mark (codes "a\r\n\r\nb")))
unfolding name_bytes name_byte length_bytes length_byte
behind_mark_example =
    read_head-behind_mark (codes "a\r\n\r\nb") (refl, (refl, (refl, (refl, (refl, tt))))) refl refl
