-- ===== src/Faucet/Rate.antt =====
-- The limit of the faucet over any number of requests.
use bitcoin_svm_bridge.Prelude.{
  ℕ, ◌+◌, ◌*◌, ◌^◌, ◌≤◌, ◌≡◌, inl, inr, refl, List, [], ◌∷◌, Option, none, some, Bool, true, false,
  bytes_eq, bytes_eq_refl, ltb, arith, Bool-cases,
}
use bitcoin_svm_bridge.ArrayUtils.{Bytes}
use bitcoin_svm_bridge.Faucet.{
  Row, Request, Sending, sent, failed, funds_sent, newer, latest, check_last_request,
  record_request, send_funds, after_record, after_check, request_funds, serve,
}

-- The query answers with a time from `t` on.
pub record IsLimited (address : Bytes) (t : ℕ) (db : List Row) : Type 0 where
  pub last : ℕ
  pub found : latest address db ≡ some last
  pub late : t ≤ last

newer-le : (t : ℕ) (u : Option ℕ) → t ≤ newer t u
newer-le t none = omega arith
newer-le t (some u) = ground arith

newer-some : (t u : ℕ) → u ≤ newer t (some u)
newer-some t u = ground arith

IsLimited-cons :
    {address : Bytes} {t : ℕ} {db : List Row} (row : Row)
    → IsLimited address t db
    → IsLimited address t (row ∷ db)
IsLimited-cons {address} row h = elim (Bool-cases (bytes_eq row.address address)) [
  | inl e ↦ record {
    last = newer row.timestamp (some h.last);
    found = rw (e, h.found) refl;
    late = omega (arith, h.late, newer-some row.timestamp h.last);
  }
  | inr e ↦ record { last = h.last; found = rw e h.found; late = h.late }
]

-- A request leaves the table as it is or adds a row.
after_record-IsLimited :
    {address : Bytes} {t : ℕ} (r : Request) (db : List Row) (txid : Bytes)
    → IsLimited address t db
    → IsLimited address t (after_record db txid (record_request r db)).db
unfolding record_request
after_record-IsLimited r db txid h = elim (Bool-cases r.writes) [
  | inl e ↦ rw e (IsLimited-cons _ h)
  | inr e ↦ rw e h
]

after_check-IsLimited :
    {address : Bytes} {t : ℕ} (r : Request) (db : List Row) (recent : Option Bool)
    (answer : Sending)
    → send_funds r ≡ answer
    → IsLimited address t db
    → IsLimited address t (after_check r db recent).db
after_check-IsLimited r db none answer e h = h
after_check-IsLimited r db (some true) answer e h = h
after_check-IsLimited r db (some false) (sent txid) e h = rw e (after_record-IsLimited r db txid h)
after_check-IsLimited r db (some false) (failed why) e h = rw e h

request_funds-IsLimited :
    {address : Bytes} {t : ℕ} (r : Request) (db : List Row)
    → IsLimited address t db
    → IsLimited address t (request_funds r db).db
unfolding request_funds
request_funds-IsLimited r db h =
    after_check-IsLimited r db (check_last_request r db) (send_funds r) refl h

module _ {address : Bytes} {t : ℕ} where
  serve-IsLimited :
      (requests : List Request) (db : List Row)
      → IsLimited address t db
      → IsLimited address t (serve requests db)
  unfolding serve
  serve-IsLimited [] db h = h
  serve-IsLimited (r ∷ requests) db h =
      serve-IsLimited requests (request_funds r db).db (request_funds-IsLimited r db h)

newest-IsLimited : (row : Row) (db : List Row) → IsLimited row.address row.timestamp (row ∷ db)
newest-IsLimited row db = record {
  last = newer row.timestamp (latest row.address db);
  found = rw (bytes_eq_refl row.address) refl;
  late = newer-le row.timestamp (latest row.address db);
}

-- A request that was answered with success left a record of its time.
recorded-IsLimited :
    (r : Request) (db : List Row) (txid txid' : Bytes)
    → (after_record db txid' (record_request r db)).response ≡ funds_sent txid
    → IsLimited r.address r.recorded_at (after_record db txid' (record_request r db)).db
unfolding record_request
recorded-IsLimited r db txid txid' h = elim (Bool-cases r.writes) [
  | inl e ↦ rw e (newest-IsLimited (record { address = r.address; timestamp = r.recorded_at }) db)
  | inr e ↦ cc (rw e at h)
]

checked-IsLimited :
    (r : Request) (db : List Row) (txid : Bytes) (recent : Option Bool) (answer : Sending)
    → send_funds r ≡ answer
    → (after_check r db recent).response ≡ funds_sent txid
    → IsLimited r.address r.recorded_at (after_check r db recent).db
checked-IsLimited r db txid none answer e h = cc
checked-IsLimited r db txid (some true) answer e h = cc
checked-IsLimited r db txid (some false) (sent txid') e h =
    rw e (recorded-IsLimited r db txid txid' (rw e at h))
checked-IsLimited r db txid (some false) (failed why) e h = cc (rw e at h)

-- Coins go out only behind a check that found no recent request.
check-outgoing :
    (r : Request) (db : List Row) (recent : Option Bool) {txid : Bytes}
    → (after_check r db recent).outgoing ≡ some txid
    → recent ≡ some false
check-outgoing r db none h = cc
check-outgoing r db (some true) h = cc
check-outgoing r db (some false) h = refl

check_last_request-eq-some :
    (r : Request) (db : List Row) (t : ℕ)
    → check_last_request r db ≡ some false
    → IsLimited r.address t db
    → (t + 24 * 3600) * 10 ^ 9 ≤ r.now
unfolding check_last_request
check_last_request-eq-some r db t h limited = elim (Bool-cases r.reads) [
  | inl e ↦
      let test = some-injective (rw (e, limited.found) at h) in
      omega (arith, limited.late, ltb_false r.now _ test)
  | inr e ↦ cc (rw e at h)
]
  where
    some-injective : {x y : Bool} → some x ≡ some y → x ≡ y
    some-injective e = cc

    ltb_false : (m n : ℕ) → ltb m n ≡ false → n ≤ m
    ltb_false m n e = ground (arith, e)

-- After a request that was answered with success, and any number of requests of anyone, a request for
-- the same address sends coins again only if the clock then shows at least 24 hours more than the
-- time recorded for the first one.
pub request_funds_limit :
    (r : Request) (db : List Row) (txid : Bytes) (others : List Request) (again : Request)
    (txid' : Bytes)
    → (request_funds r db).response ≡ funds_sent txid
    → again.address ≡ r.address
    → (request_funds again (serve others (request_funds r db).db)).outgoing ≡ some txid'
    → (r.recorded_at + 24 * 3600) * 10 ^ 9 ≤ again.now
unfolding request_funds
request_funds_limit r db txid others again txid' first same out =
    let limited = checked-IsLimited r db txid (check_last_request r db) (send_funds r) refl first in
    let later = serve-IsLimited others (request_funds r db).db limited in
    check_last_request-eq-some again (serve others (request_funds r db).db) r.recorded_at
      (check-outgoing again _ (check_last_request again _) out) (rw same later)
