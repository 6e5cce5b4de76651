-- ===== src/Tests/Faucets.antt =====
-- The witness of the limit of the faucet.
use bitcoin_svm_bridge.Prelude.{ℕ, ◌+◌, ◌*◌, ◌^◌, ◌≤◌, ◌≡◌, refl, [], ◌∷◌, some, true, bytes_eq}
use bitcoin_svm_bridge.Faucet.{
  Request, funds_sent, too_many_requests, check_last_request, record_request, send_funds,
  request_funds, serve,
}
use bitcoin_svm_bridge.Faucet.Rate.{request_funds_limit}

-- a request of the address `address` in the second `time`
abbrev request_at : ℕ → ℕ → Request
request_at address time = record {
  address = address ∷ [];
  reads = true;
  writes = true;
  now = time * 10 ^ 9;
  recorded_at = time;
  parsed = some (address ∷ []);
  send_to_address = λ to amount. some (5 ∷ []);
}

first_sent : (request_funds (request_at 1 100) []).response ≡ funds_sent (5 ∷ [])
unfolding request_funds check_last_request record_request send_funds
first_sent = refl

-- A second request of the same address within a day is refused.
soon_refused :
    (request_funds (request_at 1 200) (request_funds (request_at 1 100) []).db).response
    ≡ too_many_requests
unfolding request_funds check_last_request record_request send_funds bytes_eq
soon_refused = refl

sent_again :
    (request_funds (request_at 1 90000) (
      serve
        (request_at 2 150 ∷ request_at 1 200 ∷ [])
        (request_funds (request_at 1 100) []).db)).outgoing
    ≡ some (5 ∷ [])
unfolding request_funds check_last_request record_request send_funds bytes_eq serve
sent_again = refl

request_funds_limit_example :
    ((request_at 1 100).recorded_at + 24 * 3600) * 10 ^ 9 ≤ (request_at 1 90000).now
request_funds_limit_example =
    request_funds_limit (request_at 1 100) [] (5 ∷ []) (request_at 2 150 ∷ request_at 1 200 ∷ [])
      (request_at 1 90000) (5 ∷ []) first_sent refl sent_again
