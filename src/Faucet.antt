-- ===== src/Faucet.antt =====
-- btc_faucet/src/main.rs: the faucet that sends coins to an address at most once a day. SQLite, the
-- Bitcoin node, the clock and the parsing of addresses are arguments of a request.
pub mod Rate
use bitcoin_svm_bridge.Prelude.{
  ℕ, ◌+◌, ◌*◌, ◌^◌, List, [], ◌∷◌, ◌++◌, Option, none, some, Bool, true, false, bytes_eq, ltb, leb,
  if◌then◌else◌,
}
use bitcoin_svm_bridge.ArrayUtils.{Bytes}

-- a row of the table `requests`; the timestamp is in seconds
pub record Row : Type 0 where
  pub address : Bytes
  pub timestamp : ℕ

pub data SendFundsError : Type 0 where
  parse : SendFundsError
  rpc : SendFundsError

pub data Sending : Type 0 where
  sent : (txid : Bytes) → Sending
  failed : SendFundsError → Sending

-- What stands behind a request for funds: whether SQLite can read and write at that time, the times of
-- the check in nanoseconds and of the record in seconds, the parsed address on the right network if
-- the text is one, and the node's answer.
pub record Request : Type 0 where
  pub address : Bytes
  pub reads : Bool
  pub writes : Bool
  pub now : ℕ
  pub recorded_at : ℕ
  pub parsed : Option Bytes
  pub send_to_address : Bytes → ℕ → Option Bytes

pub data Response : Type 0 where
  too_many_requests : Response
  database_error : Response
  failed_to_record : Response
  funds_sent : (txid : Bytes) → Response
  failed_to_send : SendFundsError → Response

abbrev pub newer : ℕ → Option ℕ → ℕ
newer t none = t
newer t (some u) = if leb t u then u else t

-- The query: the greatest timestamp of the address.
abbrev pub latest : Bytes → List Row → Option ℕ
latest address [] = none
latest address (row ∷ rows) =
    let rest = latest address rows in
    if bytes_eq row.address address then some (newer row.timestamp rest) else rest

-- `now` minus the last request is less than 24 hours; the difference may be negative.
abbrev pub is_recent : ℕ → Option ℕ → Bool
is_recent now none = false
is_recent now (some timestamp) = ltb now ((timestamp + 24 * 3600) * 10 ^ 9)

unfoldable pub check_last_request : Request → List Row → Option Bool
check_last_request r db = if r.reads then some (is_recent r.now (latest r.address db)) else none

unfoldable pub record_request : Request → List Row → Option (List Row)
record_request r db =
    if r.writes then some (record { address = r.address; timestamp = r.recorded_at } ∷ db) else none

-- `FAUCET_AMOUNT`, in satoshi
abbrev pub faucet_amount : ℕ
faucet_amount = 10000000

abbrev pub answer_of : Option Bytes → Sending
answer_of none = failed rpc
answer_of (some txid) = sent txid

abbrev pub send_parsed : (Bytes → ℕ → Option Bytes) → Option Bytes → Sending
send_parsed send_to_address none = failed parse
send_parsed send_to_address (some address) = answer_of (send_to_address address faucet_amount)

unfoldable pub send_funds : Request → Sending
send_funds r = send_parsed r.send_to_address r.parsed

-- The table behind a request, the transaction that was sent, if any, and the response.
pub record Reply : Type 0 where
  pub db : List Row
  pub outgoing : Option Bytes
  pub response : Response

abbrev pub after_record : List Row → Bytes → Option (List Row) → Reply
after_record db txid none = record { db = db; outgoing = some txid; response = failed_to_record }
after_record db txid (some db') = record {
  db = db';
  outgoing = some txid;
  response = funds_sent txid;
}

abbrev pub after_send : Request → List Row → Sending → Reply
after_send r db (sent txid) = after_record db txid (record_request r db)
after_send r db (failed e) = record { db = db; outgoing = none; response = failed_to_send e }

abbrev pub after_check : Request → List Row → Option Bool → Reply
after_check r db none = record { db = db; outgoing = none; response = database_error }
after_check r db (some true) = record { db = db; outgoing = none; response = too_many_requests }
after_check r db (some false) = after_send r db (send_funds r)

unfoldable pub request_funds : Request → List Row → Reply
unfolding check_last_request record_request send_funds
request_funds r db = after_check r db (check_last_request r db)

-- The requests are served one after the other, since each holds the lock on the database.
unfoldable pub serve : List Request → List Row → List Row
unfolding request_funds
serve [] db = db
serve (r ∷ requests) db = serve requests (request_funds r db).db
