-- ===== src/Tests/Names.antt =====
-- Names of a few labels, one that points to itself, and one that is too long.
use nucleo_tests.Base.{ℕ, ◌+◌, ◌≡◌, arith, refl, List, [], ◌∷◌, ◌++◌, length, replicate, some, none}
use nucleo_tests.Base.Run.{done, fault}
use nucleo_tests.Base.Int.{pos}
use nucleo_tests.Timespec.{timespec_zero}
use nucleo_tests.Dns.Name.{
  new_name, skip_labels, get_name_size, parse_name, parse_from, dns_response_get16, label_ispointer,
  get_label_offset, get_label_len,
}
use nucleo_tests.Dns.Name.Labels.{encode_labels, dotted, new_name-encode}
use nucleo_tests.Dns.Query.{dns_query, send_dns_query, qname, qname_from}
use nucleo_tests.Dns.Query.Encoding.{dns_query-new_name, send_dns_query-overrun}
use nucleo_tests.Inet.{htons, ntohs}
use nucleo_tests.Socket.{Net}
use nucleo_tests.Dns.Response.{
  AddrInfo, getaddrinfo, create_socket, recv_dns_response, read_response, skip_questions,
  skip_questions_from, answers_from, read_entry,
}
use nucleo_tests.Dns.Response.Answers.{
  Record, address, all_read, next, all_results, read_response-Lie,
}
use nucleo_tests.Tests.Network.{answering}

abbrev st : List ℕ
st = b's' ∷ b't' ∷ []

abbrev org : List ℕ
org = b'o' ∷ b'r' ∷ b'g' ∷ []

new_name-encode_example :
    (new_name 3 (255 ∷ encode_labels (st ∷ org ∷ []) ++ 7 ∷ []) 1
      ≡ done (some (dotted (st ∷ org ∷ []) ++ 0 ∷ [])))
    × (skip_labels 3 (255 ∷ encode_labels (st ∷ org ∷ []) ++ 7 ∷ []) 1
        ≡ done (some (1 + length (encode_labels (st ∷ org ∷ [])))))
new_name-encode_example =
    new_name-encode (st ∷ org ∷ []) 3 1 (255 ∷ encode_labels (st ∷ org ∷ []) ++ 7 ∷ []) (7 ∷ [])
      ((omega arith, omega arith), ((omega arith, omega arith), tt)) (omega arith) (omega arith)
      refl

dns_query-new_name_example :
    new_name 3 (dns_query 7 (dotted (st ∷ org ∷ []))) 12
    ≡ done (some (dotted (st ∷ org ∷ []) ++ 0 ∷ []))
dns_query-new_name_example =
    dns_query-new_name st (org ∷ []) 7 3
      ((omega arith, omega arith), (omega arith, (omega arith, tt)))
      (((omega arith, omega arith), (omega arith, (omega arith, (omega arith, tt)))), tt)
      (omega arith) (omega arith)

send_dns_query-overrun_example :
    send_dns_query (answering [] timespec_zero) (pos 0) (replicate 496 b'a') 0 ≡ fault
send_dns_query-overrun_example =
    send_dns_query-overrun (answering [] timespec_zero) (pos 0) (replicate 496 b'a') 0 (omega arith)

-- The response for the name, with one address, 10.0.0.1, whose name is a pointer to the question's.
abbrev response : List ℕ
response =
    0 ∷ 0 ∷ 0x81 ∷ 0x80 ∷ 0 ∷ 1 ∷ 0 ∷ 1 ∷ 0 ∷ 0 ∷ 0 ∷ 0 ∷ encode_labels (st ∷ [])
    ++ 0 ∷ 1 ∷ 0 ∷ 1 ∷ 0xc0 ∷ 12 ∷ 0 ∷ 1 ∷ 0 ∷ 1 ∷ 0 ∷ 0 ∷ 0 ∷ 60 ∷ 0 ∷ 4 ∷ 10 ∷ 0 ∷ 0 ∷ 1 ∷ []

abbrev net : Net ℕ
net = answering response timespec_zero

abbrev found : AddrInfo
found = record { ai_addr = 0x0100000a; ai_canonname = st ++ 0 ∷ [] }

resolved :
    getaddrinfo net 3 1 0x08080808 (some st) none none 1 ≡ done ((pos 0, some (found ∷ [])), 0)
unfolding getaddrinfo create_socket send_dns_query dns_query qname qname_from recv_dns_response
    read_response dns_response_get16 skip_questions skip_questions_from skip_labels answers_from
    new_name get_name_size parse_name parse_from read_entry label_ispointer get_label_offset
    get_label_len ntohs htons
resolved = refl

abbrev answers : List (List ℕ × Record)
answers = (st ++ 0 ∷ [], address (0, 0, 0, 60) 10 0 0 1) ∷ []

response_name : new_name 3 response 20 ≡ done (some (st ++ 0 ∷ []))
unfolding new_name get_name_size parse_name parse_from dns_response_get16 label_ispointer
    get_label_offset get_label_len ntohs
response_name = refl

response_skip : skip_labels 3 response 20 ≡ done (some 22)
unfolding skip_labels label_ispointer get_label_len
response_skip = refl

response_question : skip_questions 3 response ≡ done (some 20)
unfolding skip_questions skip_questions_from skip_labels dns_response_get16 label_ispointer
    get_label_len ntohs
response_question = refl

response_count : dns_response_get16 response 6 ≡ done (length answers)
unfolding dns_response_get16 ntohs
response_count = refl

read_response-Lie_example : read_response 3 response ≡ done (pos 0, some (all_results answers))
read_response-Lie_example =
    read_response-Lie 3 response 0x80 20 answers refl refl response_question response_count (
      next 22 (st ++ 0 ∷ []) (address (0, 0, 0, 60) 10 0 0 1) [] response_name response_skip refl tt
        all_read)
