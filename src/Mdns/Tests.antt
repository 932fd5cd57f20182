-- ===== src/Mdns/Tests.antt =====
-- Runs of the relay's rewriting, and its theorems at concrete messages.
use lando.Prelude.{
  ℕ, List, replicate, ◌≡◌, ◌≢◌, refl, true, false, none, some, [], ◌∷◌, length, drop, ok, err,
  arith,
}
use lando.Prelude.Bytes.{Bytes, slice, codes}
use lando.Mdns.Wire.{Asked}
use lando.Mdns.Requests.{message, request-restore}
use lando.Mdns.{
  malformed, header_len, skip_name_loop, skip_name, rewrite_from, rewrite_question_class,
  request_unicast_replies, restore_multicast_questions, is_response, transaction_id,
  set_transaction_id,
}
use lando.Mdns.Relay.{
  rewrite_question_class_total, restore-request, transaction_id-set_transaction_id,
}

-- Two questions: a PTR for `abc`, and an A for `x` with the QU bit set already.
abbrev query : Bytes
query =
    0x12 ∷ 0x34 ∷ 0 ∷ 0 ∷ 0 ∷ 2 ∷ 0 ∷ 0 ∷ 0 ∷ 0 ∷ 0 ∷ 0 ∷ 3 ∷ 97 ∷ 98 ∷ 99 ∷ 0 ∷ 0 ∷ 12 ∷ 0 ∷ 1 ∷ 1
    ∷ 120 ∷ 0 ∷ 0 ∷ 1 ∷ 0x80 ∷ 1 ∷ []

abbrev query_requested : Bytes
query_requested =
    0x12 ∷ 0x34 ∷ 0 ∷ 0 ∷ 0 ∷ 2 ∷ 0 ∷ 0 ∷ 0 ∷ 0 ∷ 0 ∷ 0 ∷ 3 ∷ 97 ∷ 98 ∷ 99 ∷ 0 ∷ 0 ∷ 12 ∷ 0x80 ∷ 1
    ∷ 1 ∷ 120 ∷ 0 ∷ 0 ∷ 1 ∷ 0x80 ∷ 1 ∷ []

-- A compression pointer where the second question starts.
abbrev pointed : Bytes
pointed =
    0x12 ∷ 0x34 ∷ 0 ∷ 0 ∷ 0 ∷ 2 ∷ 0 ∷ 0 ∷ 0 ∷ 0 ∷ 0 ∷ 0 ∷ 3 ∷ 97 ∷ 98 ∷ 99 ∷ 0 ∷ 0 ∷ 12 ∷ 0 ∷ 1
    ∷ 0xc0 ∷ 12 ∷ 0 ∷ 1 ∷ 0 ∷ 1 ∷ []

query_run : request_unicast_replies query ≡ (query_requested, some (ok 2))
unfolding request_unicast_replies rewrite_question_class rewrite_from skip_name skip_name_loop
query_run = refl

pointed_run : (request_unicast_replies pointed).1 ≡ some (err malformed)
unfolding request_unicast_replies rewrite_question_class rewrite_from skip_name skip_name_loop
pointed_run = refl

query_asks : is_response query ≡ false
unfolding is_response
query_asks = refl

restore-request_run :
    restore_multicast_questions (request_unicast_replies pointed).0
    ≡ restore_multicast_questions pointed
restore-request_run = restore-request pointed

-- The questions of `query`.
abbrev asked : List Asked
asked =
    record { labels = codes "abc" ∷ []; kind = 0 ∷ 12 ∷ []; high = 0; low = 1 }
    ∷ record { labels = codes "x" ∷ []; kind = 0 ∷ 1 ∷ []; high = 0x80; low = 1 }
    ∷ []

abbrev asked_as : ℕ → ℕ → Bytes
asked_as a b =
    message (0x12 ∷ 0x34 ∷ 0 ∷ 0 ∷ []) (replicate 6 0)
      (record { labels = codes "abc" ∷ []; kind = 0 ∷ 12 ∷ []; high = a; low = 1 }
        ∷ record { labels = codes "x" ∷ []; kind = 0 ∷ 1 ∷ []; high = b; low = 1 }
        ∷ [])
      []

asked_as-query : asked_as 0 0x80 ≡ query
asked_as-query = refl

request-restore_example :
    (request_unicast_replies (asked_as 0 0x80) ≡ (asked_as 0x80 0x80, some (ok 2)))
    × (restore_multicast_questions (asked_as 0 0x80) ≡ (asked_as 0 0, some (ok 2)))
    × (restore_multicast_questions (request_unicast_replies (asked_as 0 0x80)).0
        ≡ (asked_as 0 0, some (ok 2)))
request-restore_example =
    request-restore (0x12 ∷ 0x34 ∷ 0 ∷ 0 ∷ []) (replicate 6 0) [] asked refl refl
      (
        (((omega arith, omega arith), tt), refl, omega arith),
        ((((omega arith, omega arith), tt), refl, omega arith), tt),
      )
      (omega arith) (omega arith)

rewrite_question_class_total_run :
    ((rewrite_question_class query true).1 ≢ none)
    × (length (rewrite_question_class query true).0 ≡ length query)
    × (slice (rewrite_question_class query true).0 0 header_len ≡ slice query 0 header_len)
rewrite_question_class_total_run = rewrite_question_class_total query true

transaction_id-set_transaction_id_run :
    (transaction_id (set_transaction_id query 0xabcd) ≡ some 0xabcd)
    × (length (set_transaction_id query 0xabcd) ≡ length query)
    × (drop 2 (set_transaction_id query 0xabcd) ≡ drop 2 query)
transaction_id-set_transaction_id_run =
    transaction_id-set_transaction_id query 0xabcd (omega arith) (omega arith)
