-- ===== src/Utils/Header/Rules.antt =====
-- `verify_header` (utils.rs) against the consensus rules.
use bitcoin_svm_bridge.Prelude.{
  ℕ, ◌+◌, ◌≤◌, ◌≡◌, sym, ap, ◌∙◌, Bool, true, false, ok, >>=-eq-ok, require-eq-ok_tt, ok-injective,
  checked_add-eq-ok, checked_add, err_diff_target, invalid_header_topic, err_pow_toolow,
  err_timestamp_toolow, err_timestamp_too_high, bind_ok, require_ok, bytes_eq, bytes_eq→eq, ltb,
  ltb→lt, reverse, ℤ,
}
use bitcoin_svm_bridge.ArrayUtils.{Bytes, lte_arr}
use bitcoin_svm_bridge.ArrayUtils.Value.{value}
use bitcoin_svm_bridge.Structs.{Platform, Pubkey, BlockHeader, CommittedBlockHeader, get_block_hash}
use bitcoin_svm_bridge.Utils.Target.{nbits_to_target, get_difficulty}
use bitcoin_svm_bridge.Utils.Retarget.{has_correct_difficulty_target}
use bitcoin_svm_bridge.Utils.Median.{is_larger_than_median}
use bitcoin_svm_bridge.Utils.Header.Accepted.{
  hash_value, IsAccepted, now_ts-eq-ok, has_correct_difficulty_target-IsExpected,
}
use bitcoin_svm_bridge.Utils.Header.{
  max_future_blocktime, now_ts, advance, check_target, verify_header,
}

module _ (p : Platform) (clock : ℤ) where
  check_target-eq-ok :
      (header : BlockHeader) (last : CommittedBlockHeader)
      → check_target p clock header last ≡ ok tt
      → p.bitcoin_testnet ≡ false
      → has_correct_difficulty_target last header.nbits ≡ ok true
  unfolding check_target
  check_target-eq-ok header last h main =
      let (fits, e, r) =
        >>=-eq-ok (has_correct_difficulty_target last header.nbits) _ (rw main at h) in
      e ∙ ap (λ (b : Bool). ok b) (require-eq-ok_tt fits err_diff_target r)

module _ (p : Platform) (clock : ℤ) (header : BlockHeader) (last : CommittedBlockHeader)
    (key : Pubkey) where
  verify_header_inv :
      {hash : Bytes} {next : CommittedBlockHeader}
      → verify_header p clock header last key ≡ ok (hash, next)
      → (target difficulty : Bytes) × (now : ℕ) × (nbits_to_target header.nbits ≡ ok target)
        × (lte_arr (reverse (get_block_hash p header)) target ≡ true)
        × (hash_value p header ≤ value target
            → IsAccepted p clock header last key target difficulty now)
        × (hash ≡ get_block_hash p header)
        × (next ≡ advance last header (last.blockheight + 1) difficulty)
  unfolding verify_header
  verify_header_inv h = bind_ok (check_target p clock header last) _ h λ _ e0 h0.
      bind_ok (checked_add 32 last.blockheight 1) _ h0 λ height e1 h1.
        require_ok (bytes_eq (p.find_header_topic (get_block_hash p header)) key)
          invalid_header_topic _ h1
          λ e2 h2. bind_ok (nbits_to_target header.nbits) _ h2 λ target e3 h3.
            require_ok (lte_arr (reverse (get_block_hash p header)) target) err_pow_toolow _ h3
              λ e4 h4.
                require_ok
                  (is_larger_than_median last.prev_block_timestamps last.header.timestamp
                    header.timestamp)
                  err_timestamp_toolow _ h4
                  λ e5 h5. bind_ok (now_ts clock) _ h5 λ now e6 h6.
                    bind_ok (checked_add 32 now max_future_blocktime) _ h6 λ limit e7 h7.
                      require_ok (ltb header.timestamp limit) err_timestamp_too_high _ h7 λ e8 h8.
                        bind_ok (get_difficulty target) _ h8 λ difficulty e9 h9.
                          let (room, fits) = checked_add-eq-ok 32 last.blockheight 1 e1 in
                          let (seconds, now_fits) = now_ts-eq-ok clock e6 in
                          let (sum, clock_fits) =
                            checked_add-eq-ok 32 now max_future_blocktime e7 in
                          (
                            target,
                            difficulty,
                            now,
                            e3,
                            e4,
                            λ work. record {
                              expected = λ main.
                                  has_correct_difficulty_target-IsExpected last header.nbits
                                    (rw room at fits)
                                    (check_target-eq-ok p clock header last e0 main);
                              room = rw room at fits;
                              topic = bytes_eq→eq _ _ e2;
                              decodes = e3;
                              work = work;
                              later = e5;
                              time = seconds;
                              clock_room = rw sum at clock_fits;
                              not_future = rw sum at (ltb→lt _ _ e8);
                              measured = e9;
                            },
                            sym (ap (λ (r : Bytes × CommittedBlockHeader). r.0) (ok-injective h9)),
                            sym (ap (λ (r : Bytes × CommittedBlockHeader). r.1) (ok-injective h9))
                                ∙ ap (λ (n : ℕ). advance last header n difficulty) room,
                          )

  -- The hash and the header that a success returns.
  pub verify_header_result :
      {hash : Bytes} {next : CommittedBlockHeader}
      → verify_header p clock header last key ≡ ok (hash, next)
      → (hash ≡ get_block_hash p header)
        × (next.header ≡ header)
        × (next.blockheight ≡ last.blockheight + 1)
  verify_header_result h =
      let (_, _, _, _, _, _, e, f) = verify_header_inv h in
      (
        e,
        ap (λ (c : CommittedBlockHeader). c.header) f,
        ap (λ (c : CommittedBlockHeader). c.blockheight) f,
      )
