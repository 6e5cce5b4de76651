-- ===== src/Program/Loop/Chain.antt =====
-- Chains of accepted headers, and what the loop has done with one when it succeeds.
use bitcoin_svm_bridge.Prelude.{
  ℕ, suc, ◌+◌, ◌<◌, ◌≡◌, refl, sym, ap, ap₂, ◌∙◌, List, [], ◌∷◌, ◌++◌, map, Result, ok, ◌>>=◌,
  prev_block, checked_add, checked_add-eq-ok, bind_ok, require_ok, ok-injective, bytes_eq,
  bytes_eq→eq, ℤ, length, arith,
}
use mathlib.Core.List.{append_assoc, append-nil}
use bitcoin_svm_bridge.ArrayUtils.{Bytes}
use bitcoin_svm_bridge.Structs.{
  Platform, Pubkey, BlockHeader, CommittedBlockHeader, Event, get_block_hash, get_commit_hash,
}
use bitcoin_svm_bridge.Utils.Header.{verify_header}
use bitcoin_svm_bridge.Utils.Header.Rules.{verify_header_result}
use bitcoin_svm_bridge.Program.Loop.{Cursor, header_step, header_loop}

-- the last of `commits`, or `last` if there is none
abbrev pub tip_of : CommittedBlockHeader → List CommittedBlockHeader → CommittedBlockHeader
tip_of last [] = last
tip_of last (next ∷ commits) = tip_of next commits

pub tip_of-append :
    (last : CommittedBlockHeader) (commits more : List CommittedBlockHeader)
    → tip_of last (commits ++ more) ≡ tip_of (tip_of last commits) more
tip_of-append last [] more = refl
tip_of-append last (next ∷ commits) more = tip_of-append next commits more

module _ (p : Platform) (clock : ℤ) where
  -- Each header names the block before it and is accepted on top of it; `commits` are the committed
  -- headers in order.
  abbrev pub Chain :
      CommittedBlockHeader → List BlockHeader → List Pubkey → List CommittedBlockHeader → Type 0
  Chain last [] keys [] = Unit
  Chain last [] keys (next ∷ commits) = ⊥
  Chain last (header ∷ headers) [] commits = ⊥
  Chain last (header ∷ headers) (key ∷ keys) [] = ⊥
  Chain last (header ∷ headers) (key ∷ keys) (next ∷ commits) =
      (get_block_hash p last.header ≡ header.reversed_prev_blockhash)
      × (verify_header p clock header last key ≡ ok (get_block_hash p header, next))
      × (next.header ≡ header)
      × Chain next headers keys commits

-- the commitments stored one height after the other
abbrev pub store_all :
    {S : Type 0}
    → Platform
    → (ℕ → Bytes → S → Result S)
    → ℕ
    → List CommittedBlockHeader
    → S
    → Result S
store_all p store height [] s = ok s
store_all p store height (next ∷ commits) s =
    store (height + 1) (get_commit_hash p next) s >>= store_all p store (height + 1) commits

-- the commitment of the last of `commits`, or `hash` if there is none
abbrev pub commit_of : Platform → Bytes → List CommittedBlockHeader → Bytes
commit_of p hash [] = hash
commit_of p hash (next ∷ commits) = commit_of p (get_commit_hash p next) commits

pub commit_of-tip_of :
    (p : Platform) (hash : Bytes) (last : CommittedBlockHeader)
    (commits : List CommittedBlockHeader)
    → hash ≡ get_commit_hash p last
    → commit_of p hash commits ≡ get_commit_hash p (tip_of last commits)
commit_of-tip_of p hash last [] h = h
commit_of-tip_of p hash last (next ∷ commits) h =
    commit_of-tip_of p (get_commit_hash p next) next commits refl

-- Behind at least one header, the commitment does not depend on the one in front.
pub commit_of_pos :
    (p : Platform) (hash : Bytes) (last : CommittedBlockHeader)
    (commits : List CommittedBlockHeader)
    → 0 < length commits
    → commit_of p hash commits ≡ get_commit_hash p (tip_of last commits)
commit_of_pos p hash last [] h = elim h [ ]
commit_of_pos p hash last (next ∷ commits) h =
    commit_of-tip_of p (get_commit_hash p next) next commits refl

-- the event of each commitment
abbrev pub events_of :
    Platform
    → (Bytes → Bytes → CommittedBlockHeader → Event)
    → List CommittedBlockHeader
    → List Event
events_of p event commits =
    map (λ next. event (get_block_hash p next.header) (get_commit_hash p next) next) commits

pub length-Chain :
    (p : Platform) (clock : ℤ) (last : CommittedBlockHeader) (headers : List BlockHeader)
    (keys : List Pubkey) (commits : List CommittedBlockHeader)
    → Chain p clock last headers keys commits
    → length commits ≡ length headers
length-Chain p clock last [] keys [] c = refl
length-Chain p clock last [] keys (next ∷ commits) c = elim c [ ]
length-Chain p clock last (header ∷ headers) [] commits c = elim c [ ]
length-Chain p clock last (header ∷ headers) (key ∷ keys) [] c = elim c [ ]
length-Chain p clock last (header ∷ headers) (key ∷ keys) (next ∷ commits) c =
    ap suc (length-Chain p clock next headers keys commits c.3)

-- The loop from the cursor `c` to the cursor `d`, over the committed headers `commits`.
pub record Ran (p : Platform) (clock : ℤ) {S : Type 0} (store : ℕ → Bytes → S → Result S)
    (event : Bytes → Bytes → CommittedBlockHeader → Event) (headers : List BlockHeader)
    (keys : List Pubkey) (c d : Cursor S) (commits : List CommittedBlockHeader) : Type 0 where
  pub chain : Chain p clock c.last_commited_header headers keys commits
  pub stores : store_all p store c.block_height commits c.account ≡ ok d.account
  pub tip : d.last_commited_header ≡ tip_of c.last_commited_header commits
  pub tip_hash : d.last_block_hash ≡ get_block_hash p d.last_commited_header.header
  pub commit : d.block_commit_hash ≡ commit_of p c.block_commit_hash commits
  pub height : d.block_height ≡ c.block_height + length headers
  pub emitted : d.events ≡ c.events ++ events_of p event commits

module _ (p : Platform) (clock : ℤ) {S : Type 0} (store : ℕ → Bytes → S → Result S)
    (event : Bytes → Bytes → CommittedBlockHeader → Event) where
  -- the cursor behind a round
  abbrev pub moved : Cursor S → S → Bytes → ℕ → CommittedBlockHeader → Cursor S
  moved c account hash height next = record {
    account = account;
    last_commited_header = next;
    last_block_hash = hash;
    block_height = height;
    block_commit_hash = get_commit_hash p next;
    events = c.events ++ event hash (get_commit_hash p next) next ∷ [];
  }

  -- One round: the link, the accepted header, the store and the new cursor.
  header_step-eq-ok :
      (header : BlockHeader) (key : Pubkey) (c : Cursor S) {d : Cursor S}
      → header_step p clock store event header key c ≡ ok d
      → (next : CommittedBlockHeader) × (account : S) × (c.last_block_hash
          ≡ header.reversed_prev_blockhash)
        × (verify_header p clock header c.last_commited_header key
            ≡ ok (get_block_hash p header, next))
        × (next.header ≡ header)
        × (store (c.block_height + 1) (get_commit_hash p next) c.account ≡ ok account)
        × (d ≡ moved c account (get_block_hash p header) (c.block_height + 1) next)
  unfolding header_step
  header_step-eq-ok header key c h =
      require_ok (bytes_eq c.last_block_hash header.reversed_prev_blockhash) prev_block _ h λ e0 h0.
        bind_ok (checked_add 32 c.block_height 1) _ h0 λ height e1 h1.
          bind_ok (verify_header p clock header c.last_commited_header key) _ h1
            λ (hash, next) e2 h2.
              bind_ok (store height (get_commit_hash p next) c.account) _ h2 λ account e3 h3.
                let (named, same, _) =
                  verify_header_result p clock header c.last_commited_header key e2 in
                let (sum, _) = checked_add-eq-ok 32 c.block_height 1 e1 in
                (
                  next,
                  account,
                  bytes_eq→eq _ _ e0,
                  e2 ∙ ap (λ (x : Bytes). ok (x, next)) named,
                  same,
                  ap (λ (n : ℕ). store n (get_commit_hash p next) c.account) (sym sum) ∙ e3,
                  sym (ok-injective h3)
                      ∙ ap₂ (λ (x : Bytes) (n : ℕ). moved c account x n next) named sum,
                )

  -- A loop that succeeds, started behind the header that its first hash belongs to.
  pub header_loop-Ran :
      (headers : List BlockHeader) (keys : List Pubkey) (c : Cursor S) {d : Cursor S}
      → c.last_block_hash ≡ get_block_hash p c.last_commited_header.header
      → header_loop p clock store event headers keys c ≡ ok d
      → (commits : List CommittedBlockHeader) × Ran p clock store event headers keys c d commits
  unfolding header_loop
  header_loop-Ran [] keys c start h =
      let same = ok-injective h in
      (
        [],
        rw (← same) (record {
          chain = tt;
          stores = refl;
          tip = refl;
          tip_hash = start;
          commit = refl;
          height = omega arith;
          emitted = sym (append-nil c.events);
        }),
      )
  header_loop-Ran (header ∷ headers) [] c start h = cc
  header_loop-Ran (header ∷ headers) (key ∷ keys) c start h =
      bind_ok (header_step p clock store event header key c) _ h λ e e0 rest.
        let (next, account, link, accepted, same, stored, m) = header_step-eq-ok header key c e0 in
        let c' = moved c account (get_block_hash p header) (c.block_height + 1) next in
        let (commits, ran) =
          header_loop-Ran headers keys c' (ap (get_block_hash p) (sym same)) (rw m at rest) in
        (
          next ∷ commits,
          record {
            chain = (sym start ∙ link, accepted, same, ran.chain);
            stores = rw stored ran.stores;
            tip = ran.tip;
            tip_hash = ran.tip_hash;
            commit = ran.commit;
            height = omega (arith, ran.height);
            emitted =
                ran.emitted
                ∙ append_assoc c.events _ (events_of p event commits)
                ∙ ap
                    (λ (h : BlockHeader).
                      c.events
                      ++ event (get_block_hash p h) (get_commit_hash p next) next
                        ∷ events_of p event commits)
                    (sym same);
          },
        )
