-- ===== src/Tests/Relays.antt =====
-- Witnesses of the theorems on the relayer, with a node whose blocks are a second apart.
use bitcoin_svm_bridge.Prelude.{
  zero, suc, Result, fail, ℕ, ◌<◌, ◌-◌, ◌≡◌, ◌≢◌, ◌↔◌, refl, List, [], ◌∷◌, some, ok, pos,
  replicate, length, length-replicate, bytes_eq, arith,
}
use bitcoin_svm_bridge.ArrayUtils.{Bytes, lte_arr, div_in_place, add_in_place}
use bitcoin_svm_bridge.Structs.{
  Platform, CommittedBlockHeader, Event, get_commit_hash, get_block_hash, zero_hash,
}
use bitcoin_svm_bridge.State.{MainState}
use bitcoin_svm_bridge.Utils.Target.{nbits_to_target, get_difficulty}
use bitcoin_svm_bridge.Utils.Retarget.{has_correct_difficulty_target}
use bitcoin_svm_bridge.Utils.Median.{is_larger_than_median}
use bitcoin_svm_bridge.Utils.Header.{now_ts, shift_timestamps, verify_header}
use bitcoin_svm_bridge.Program.Submit.{initialize, submit_block_headers}
use bitcoin_svm_bridge.Program.Submit.Initialize.{first_commited, initialize-IsValid}
use bitcoin_svm_bridge.Relayer.Merkle.Levels.{leaf, node}
use bitcoin_svm_bridge.Relayer.Node.{Call, done, Block, BitcoinRpc, Solana}
use bitcoin_svm_bridge.Relayer.Interaction.{
  position, fill_timestamps, reconstruct_commited_header, init_program, load_main_state,
  SubmitBlockArgs,
}
use bitcoin_svm_bridge.Relayer.Interaction.Rebuilt.{
  initialized_by, reconstruct-init_program, reconstruct-submit_block_headers,
}
use bitcoin_svm_bridge.Relayer.Interaction.Timestamps.{HasBlock}
use bitcoin_svm_bridge.Relayer.Interaction.Sent.{IsMined}
use bitcoin_svm_bridge.Relayer.Blocks.{send, relay_blocks_round}
use bitcoin_svm_bridge.Relayer.Blocks.Round.{IsAhead, relay_blocks_round-submit_block_headers}
use bitcoin_svm_bridge.Tests.{
  constant_hash, low_hash, header_at, ten_timestamps, first, first_state, first-IsValid,
}

abbrev pub block_at : ℕ → Block
block_at time = record {
  header = record {
    version = 1;
    prev_blockhash = low_hash;
    merkle_root = low_hash;
    time = time;
    bits = 0x1d00ffff;
    nonce = 0;
  };
}

-- the block of a height has that height as its hash
abbrev block_named : (ℕ → ℕ) → Bytes → Call ℕ Block
block_named time [] = done (block_at 0)
block_named time (height ∷ hash) = done (block_at (time height))

-- a node with 255 blocks, whose tips all have the time 110 and three transactions
abbrev node_with : (ℕ → ℕ) → BitcoinRpc ℕ
node_with time = record {
  get_block_header = λ hash. done (block_at 110).header;
  get_block_hash = λ height. done (height ∷ []);
  get_block = block_named time;
  get_best_block_hash = done low_hash;
  get_block_info = λ hash. done (record { height = 255; tx = (1 ∷ []) ∷ (2 ∷ []) ∷ (3 ∷ []) ∷ [] });
  get_raw_transaction_info = λ tx_id. done (record { hex = 7 ∷ []; blockhash = some low_hash });
}

abbrev pub ticking : BitcoinRpc ℕ
ticking = node_with (λ height. height - 140)

abbrev pub account : Bytes
account = replicate 8128 0

abbrev pub solana : Solana ℕ
solana = record {
  get_account = done account;
  try_deserialize_unchecked = λ bytes. done first_state;
}

long_read :
    (bytes : Bytes)
    → length bytes ≡ 8128
    → load_main_state solana.try_deserialize_unchecked bytes ≡ done first_state
unfolding load_main_state
long_read bytes size = rw size refl

pub account_read : load_main_state solana.try_deserialize_unchecked account ≡ done first_state
account_read = long_read account (length-replicate 8128 zero)

third : position (3 ∷ []) ((1 ∷ []) ∷ (2 ∷ []) ∷ (3 ∷ []) ∷ []) 0 ≡ some 2
unfolding bytes_eq
third = refl

before_tick : {top : ℕ} (h : ℕ) → h < top → HasBlock ticking h (h - 140)
before_tick h below = record {
  hash = h ∷ [];
  block = block_at (h - 140);
  named = refl;
  found = refl;
  at = refl;
}

pub mined : IsMined constant_hash ticking (3 ∷ []) (7 ∷ []) 2
mined = record {
  block_hash = low_hash;
  info = record { height = 255; tx = (1 ∷ []) ∷ (2 ∷ []) ∷ (3 ∷ []) ∷ [] };
  header = (block_at 110).header;
  raw = refl;
  block_info = refl;
  block_header = refl;
  listed = third;
  root =
      node (1 ∷ []) (2 ∷ []) ((3 ∷ []) ∷ []) low_hash
        (node low_hash low_hash [] low_hash (leaf low_hash));
  few = omega arith;
  tall = omega arith;
  height = omega arith;
  before = before_tick;
  times = λ h. h - 140;
}

-- a node whose blocks all have the time 110
abbrev still_time : ℕ → ℕ
still_time height = 110

abbrev still : BitcoinRpc ℕ
still = node_with still_time

abbrev still_header : CommittedBlockHeader
still_header = first_commited (header_at 110) 250 zero_hash 110 (replicate 10 110)

still_rebuilt : reconstruct_commited_header still low_hash 250 110 ≡ done still_header
unfolding reconstruct_commited_header fill_timestamps
still_rebuilt = refl

reconstruct-init_program_example :
    (c : CommittedBlockHeader) × (reconstruct_commited_header still low_hash 250
        (initialized_by constant_hash (init_program (block_at 110) 250)).last_diff_adjustment
      ≡ done c)
    × ((get_commit_hash constant_hash c
          ≡ (initialized_by constant_hash (init_program (block_at 110) 250)).tip_commit_hash)
        ↔ ((k : ℕ) → k < 10 → still_time (250 - suc k) ≡ 110))
reconstruct-init_program_example =
    reconstruct-init_program constant_hash still low_hash (block_at 110) 250 still_time
      (omega arith)
      (λ h below. record {
        hash = h ∷ [];
        block = block_at 110;
        named = refl;
        found = refl;
        at = refl;
      })
      refl (λ same. refl)

-- a platform whose commitment is the work
abbrev work_hash : Platform
work_hash = record constant_hash { hash = λ bytes. bytes; commited_to_vec = λ c. c.chain_work }

abbrev worked : CommittedBlockHeader
worked = first_commited (header_at 110) 250 low_hash 110 ten_timestamps

abbrev worked_state : MainState
worked_state = (initialize work_hash (header_at 110) 250 low_hash 110 ten_timestamps).0

some_work : low_hash ≢ zero_hash
some_work e = cc

other_commit : get_commit_hash work_hash still_header ≢ get_commit_hash work_hash worked
unfolding get_commit_hash
other_commit e = cc

reconstruct-submit_block_headers_example :
    submit_block_headers work_hash
      (pos 1000)
      (low_hash ∷ [])
      (header_at 120 ∷ [])
      still_header
      worked_state
    ≢ ok (worked_state, [])
unfolding initialize
reconstruct-submit_block_headers_example =
    reconstruct-submit_block_headers work_hash still (pos 1000) (low_hash ∷ []) (header_at 120 ∷ [])
      low_hash worked_state worked (worked_state, [])
      (initialize-IsValid work_hash (header_at 110) 250 low_hash 110 ten_timestamps) refl some_work
      still_rebuilt (λ same. absurd (other_commit same))

abbrev accepted_or : Result (Bytes × CommittedBlockHeader) → CommittedBlockHeader
accepted_or (ok (hash, next)) = next
accepted_or (fail e) = first

-- what the program commits for the node's block of height 251
abbrev next : CommittedBlockHeader
next = accepted_or (verify_header constant_hash (pos 1000) (header_at 111) first low_hash)

next_accepted :
    verify_header constant_hash
      (pos 1000)
      (header_at 111)
      first
      (constant_hash.find_header_topic (get_block_hash constant_hash (header_at 111)))
    ≡ ok (get_block_hash constant_hash (header_at 111), next)
unfolding get_block_hash verify_header has_correct_difficulty_target nbits_to_target lte_arr
    is_larger_than_median now_ts get_difficulty div_in_place bytes_eq shift_timestamps add_in_place
next_accepted = refl

linked : get_block_hash constant_hash first.header ≡ low_hash
unfolding get_block_hash
linked = refl

ahead : IsAhead constant_hash ticking (pos 1000) first_state first next
unfolding initialize
ahead = record {
  best_hash = low_hash;
  best = record { height = 255; tx = (1 ∷ []) ∷ (2 ∷ []) ∷ (3 ∷ []) ∷ [] };
  hash = 251 ∷ [];
  block = block_at 111;
  header = (block_at 110).header;
  times = λ h. h - 140;
  tip_named = refl;
  same_header = refl;
  before = before_tick;
  timestamps = refl;
  best_named = refl;
  best_found = refl;
  higher = omega arith;
  height = omega arith;
  named = refl;
  found = refl;
  link = linked;
  accepted = next_accepted;
}

first_tip : first_state.tip_commit_hash ≡ get_commit_hash constant_hash first
unfolding initialize get_commit_hash
first_tip = refl

relay_blocks_round-submit_block_headers_example :
    (args : SubmitBlockArgs) × (relay_blocks_round constant_hash solana ticking ≡ send args)
    × (t : MainState) × (events : List Event) × (submit_block_headers constant_hash
          (pos 1000)
          args.remaining_accounts
          args.headers
          args.commited_header
          first_state
        ≡ ok (t, events))
    × (t.block_height ≡ 251)
unfolding initialize
relay_blocks_round-submit_block_headers_example =
    relay_blocks_round-submit_block_headers constant_hash solana ticking (pos 1000) account
      first_state first next refl account_read first-IsValid (omega arith) (omega arith) first_tip
      refl refl refl ahead
