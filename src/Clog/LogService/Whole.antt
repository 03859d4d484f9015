-- ===== src/Clog/LogService/Whole.antt =====
-- The replay of a whole log stream by the handle that wrote it.
use lsm_storage.Prelude.{
  ℕ, suc, ◌+◌, ◌*◌, ◌/◌, ◌^◌, ◌≤◌, ◌<◌, ◌≡◌, ◌≢◌, refl, sym, ap, ◌∙◌, ◌⊎◌, inl, inr, true, false,
  some, List, [], ◌∷◌, length, ◌==◌, Ret, success, arith, subst, Bool-cases, ltb,
}
use native.Mathlib.Nat.{div-add-mod}
use lsm_storage.Prelude.Assoc
use lsm_storage.Clog.Header.{group_header_size, base_header_size}
use lsm_storage.Clog.LogStorage.{Os, lsn_2_offset, lsn_2_block, get_begin_lsn}
use lsm_storage.Clog.LogStorage.Append.{IsReadable, Holds, append-Holds}
use lsm_storage.Clog.LogStorage.Kept.{Holds-append}
use lsm_storage.Clog.PalfHandle.{PalfHandle, do_append, frame}
use lsm_storage.Clog.PalfHandle.Append.{HasRoom, frame_parts, do_append_success}
use lsm_storage.Clog.LogHandler.{LogHandler, envelope}
use lsm_storage.Clog.LogService.{returned, replay_loop, replay_ls, buffer_size}
use lsm_storage.Clog.LogService.Step.{replay_loop-Holds, do_append_kept}

-- What a component sends, with what the two buffers from malloc held before.
pub record Message : Type 0 where
  pub bytes : List ℕ
  pub log_type : ℕ
  pub handler : ℕ
  pub garbage : List ℕ
  pub garbage' : List ℕ

abbrev pub sent : Message → List ℕ
sent m = envelope m.garbage m.bytes m.log_type

abbrev pub size_of : Message → ℕ
size_of m = group_header_size + length (sent m)

-- A message that is registered, and whose entry fits the buffers, its block and the counters of `p`.
pub record IsSendable (h : LogHandler) (m : Message) (p : PalfHandle) : Type 0 where
  pub typed : m.log_type < 2 ^ 16
  pub size : length m.garbage ≡ base_header_size + length m.bytes
  pub registered : Assoc.lookup m.log_type h.replay_handlers ≡ some m.handler
  pub room : HasRoom (length (sent m)) p
  pub size' : length m.garbage' ≡ size_of m
  pub within : lsn_2_offset p.max_lsn p.storage.block_size + size_of m ≤ p.storage.block_size
  pub fits : size_of m ≤ buffer_size

-- Messages appended one after the other, all with success.
pub data Appended (os : Os) (h : LogHandler) : PalfHandle → List Message → PalfHandle → Type 0 where
  none_left : {p : PalfHandle} → Appended os h p [] p
  one_more :
      {p p' q : PalfHandle} {m : Message} {ms : List Message}
      → IsSendable h m p
      → do_append os m.garbage' (sent m) p ≡ (p', success)
      → Appended os h p' ms q
      → Appended os h p (m ∷ ms) q

-- What is left of the handle once messages are appended.
record Goes (p q : PalfHandle) : Type 0 where
  on : q.is_inited ≡ p.is_inited
  cache : q.cache ≡ p.cache
  blocks : q.storage.block_size ≡ p.storage.block_size
  grows : p.max_lsn ≤ q.max_lsn
  ends : p.end_lsn ≡ p.max_lsn → q.end_lsn ≡ q.max_lsn

module _ (os : Os) (h : LogHandler) where
  -- What one append puts into the blocks.
  stored :
      {p p' : PalfHandle} (m : Message)
      → IsSendable h m p
      → do_append os m.garbage' (sent m) p ≡ (p', success)
      → Holds
          (lsn_2_block p.max_lsn p.storage.block_size)
          (lsn_2_offset p.max_lsn p.storage.block_size)
          (frame m.garbage' (sent m) p)
          p'.storage
        × (p'.storage.block_size ≡ p.storage.block_size)
        × (p'.max_lsn ≡ p.max_lsn + size_of m)
  stored {p} {p'} m fits e =
      let (wrote, next, _, _) = do_append_success os m.garbage' (sent m) p p' fits.room e in
      let (long, _, _) = frame_parts m.garbage' (sent m) p fits.room fits.size' in
      let (holds, blocks) =
        append-Holds os p.max_lsn (frame m.garbage' (sent m) p) p.storage p'.storage
          (omega (arith, long)) wrote in
      (holds, blocks, next)

  one-Goes :
      {p p' : PalfHandle} (m : Message)
      → IsSendable h m p
      → do_append os m.garbage' (sent m) p ≡ (p', success)
      → Goes p p'
  one-Goes {p} {p'} m fits e =
      let (same, cache) = do_append_kept os m.garbage' (sent m) p p' e in
      let (_, blocks, next) = stored m fits e in
      let (_, _, ended, _) = do_append_success os m.garbage' (sent m) p p' fits.room e in
      record {
        on = same;
        cache = cache;
        blocks = blocks;
        grows = omega (arith, next);
        ends = λ _. ended;
      }

  Appended-Goes : {p q : PalfHandle} {ms : List Message} → Appended os h p ms q → Goes p q
  Appended-Goes none_left = record {
    on = refl;
    cache = refl;
    blocks = refl;
    grows = omega arith;
    ends = λ e. e;
  }
  Appended-Goes (one_more {m} fits e rest) =
      let a = one-Goes m fits e in
      let b = Appended-Goes rest in
      record {
        on = b.on ∙ a.on;
        cache = b.cache ∙ a.cache;
        blocks = b.blocks ∙ a.blocks;
        grows = omega (arith, a.grows, b.grows);
        ends = λ e. b.ends (a.ends e);
      }

  -- An LSN behind an entry that ends within its block is in another block or behind it in its own.
  apart :
      (bs lsn lsn' size : ℕ)
      → lsn + size ≤ lsn'
      → (lsn_2_block lsn' bs ≢ lsn_2_block lsn bs)
        ⊎ (lsn_2_offset lsn bs + size ≤ lsn_2_offset lsn' bs)
  unfolding lsn_2_block lsn_2_offset
  apart bs lsn lsn' size behind = elim (Bool-cases (lsn' / bs == lsn / bs)) [
    | inr other ↦ inl (ground arith)
    | inl same ↦
        let here : lsn' / bs ≡ lsn / bs = ground arith in
        let start : bs * (lsn' / bs) ≡ bs * (lsn / bs) = ap (λ b. bs * b) here in
        inr (omega (arith, start, div-add-mod lsn bs, div-add-mod lsn' bs))
  ]

  -- What is in the blocks in front of the next append stays there.
  kept :
      {p q : PalfHandle} {ms : List Message} (bs lsn : ℕ) (entry : List ℕ)
      → Appended os h p ms q
      → p.storage.block_size ≡ bs
      → lsn + length entry ≤ p.max_lsn
      → Holds (lsn_2_block lsn bs) (lsn_2_offset lsn bs) entry p.storage
      → Holds (lsn_2_block lsn bs) (lsn_2_offset lsn bs) entry q.storage
  kept bs lsn entry none_left sized behind holds = holds
  kept bs lsn entry (one_more {p} {p'} {m} fits e rest) sized behind holds =
      let (wrote, _, _, _) = do_append_success os m.garbage' (sent m) p p' fits.room e in
      let (long, _, _) = frame_parts m.garbage' (sent m) p fits.room fits.size' in
      let (new, blocks, next) = stored m fits e in
      let disjoint =
        subst
          (λ n.
            (lsn_2_block p.max_lsn p.storage.block_size ≢ lsn_2_block lsn n)
            ⊎ (lsn_2_offset lsn n + length entry ≤ lsn_2_offset p.max_lsn p.storage.block_size))
          sized (apart p.storage.block_size lsn p.max_lsn (length entry) behind) in
      kept bs lsn entry rest (blocks ∙ sized) (omega (arith, next)) (
        Holds-append os p.max_lsn (lsn_2_block lsn bs) (lsn_2_offset lsn bs) entry
          (frame m.garbage' (sent m) p) p.storage p'.storage (omega (arith, long)) disjoint wrote
          new.inited holds)

  -- A message's entry, as the blocks of the last handle hold it.
  first_kept :
      {p p' q : PalfHandle} (m : Message) {ms : List Message} (bs : ℕ)
      → IsSendable h m p
      → do_append os m.garbage' (sent m) p ≡ (p', success)
      → Appended os h p' ms q
      → p.storage.block_size ≡ bs
      → Holds
          (lsn_2_block p.max_lsn bs)
          (lsn_2_offset p.max_lsn bs)
          (frame m.garbage' (sent m) p)
          q.storage
  first_kept {p} {p'} m bs fits e rest sized =
      let (long, _, _) = frame_parts m.garbage' (sent m) p fits.room fits.size' in
      let (new, blocks, next) = stored m fits e in
      kept bs p.max_lsn (frame m.garbage' (sent m) p) rest (blocks ∙ sized)
        (omega (arith, next, long))
        (subst
          (λ n.
            Holds (lsn_2_block p.max_lsn n) (lsn_2_offset p.max_lsn n) (frame m.garbage' (sent m) p)
              p'.storage)
          sized new)

module _ {ℓ} {S : Type ℓ} (deliver : ℕ → List ℕ → S → S × Ret) where
  -- Each payload handed to the handler of its type, in order.
  unfoldable pub deliver_all : List Message → S → S
  deliver_all [] s = s
  deliver_all (m ∷ ms) s = deliver_all ms (deliver m.handler m.bytes s).0

  replay_loop-end :
      (fuel : ℕ) (os : Os) (h : LogHandler) (q : PalfHandle) (begin_lsn : ℕ) (read_buf : List ℕ)
      (s : S)
      → replay_loop deliver (suc fuel) os h q begin_lsn q.max_lsn q.max_lsn read_buf s
        ≡ returned success s
  unfolding replay_loop
  replay_loop-end fuel os h q begin_lsn read_buf s =
      let over : ltb q.max_lsn q.max_lsn ≡ false = ground arith in rw (replay_loop, over) refl

  replay_loop-Appended :
      (os os' : Os) (h : LogHandler) {p q : PalfHandle} {ms : List Message} (begin_lsn : ℕ)
      (read_buf : List ℕ) (s : S)
      → Appended os h p ms q
      → q.is_inited ≡ true
      → q.cache.bytes ≡ []
      → IsReadable os'
      → begin_lsn ≤ p.max_lsn
      → replay_loop deliver (suc (length ms)) os' h q begin_lsn q.max_lsn p.max_lsn read_buf s
        ≡ returned success (deliver_all ms s)
  unfolding deliver_all
  replay_loop-Appended os os' h {p} begin_lsn read_buf s none_left on empty readable behind =
      replay_loop-end 0 os' h p begin_lsn read_buf s
  replay_loop-Appended os os' h {p} {q} begin_lsn read_buf s
        (one_more {p' = p'} {m = m} {ms = ms} fits e rest) on empty readable behind =
      let bs = q.storage.block_size in
      let (_, blocks, next) = stored os h m fits e in
      let after = Appended-Goes os h rest in
      let sized : p.storage.block_size ≡ bs = sym (after.blocks ∙ blocks) in
      let (buf, round) =
        replay_loop-Holds deliver (suc (length ms)) os' m.garbage m.garbage' m.bytes m.log_type
          m.handler h p q begin_lsn q.max_lsn read_buf s fits.typed fits.size fits.registered on
          empty fits.room fits.size' (first_kept os h m bs fits e rest sized)
          (subst (λ n. lsn_2_offset p.max_lsn n + size_of m ≤ n) sized fits.within) fits.fits
          readable (omega (arith, next, after.grows)) (omega arith) in
      round
      ∙ ap
          (λ n.
            replay_loop deliver (suc (length ms)) os' h q begin_lsn q.max_lsn n buf
              (deliver m.handler m.bytes s).0)
          (sym next)
      ∙ replay_loop-Appended os os' h begin_lsn buf (deliver m.handler m.bytes s).0 rest on empty
          readable (omega (arith, next))

  -- The replay of a log stream delivers everything that was sent through it, in order. After any
  -- messages were appended with success by a handle that is ready, whose cache is empty and whose
  -- log starts at its first LSN and ends at its next one, each message registered and its entry
  -- within its block, within the buffer of the loop and within the counters, replay_ls hands exactly
  -- the bytes of each message, in the order of the appends, to the handler registered for its type,
  -- and returns success; as many rounds as there are messages and one more are enough.
  pub replay_ls-Appended :
      (os os' : Os) (h : LogHandler) (p q : PalfHandle) (ms : List Message) (read_buf : List ℕ)
      (s : S)
      → Appended os h p ms q
      → p.is_inited ≡ true
      → p.cache.bytes ≡ []
      → p.end_lsn ≡ p.max_lsn
      → get_begin_lsn q.storage ≡ p.max_lsn
      → h.palf ≡ some q
      → IsReadable os'
      → replay_ls deliver (suc (length ms)) os' read_buf (some h) s
        ≡ returned success (deliver_all ms s)
  unfolding replay_ls
  replay_ls-Appended os os' h p q ms read_buf s log on empty ends begins open_ readable =
      let after = Appended-Goes os h log in
      rw (replay_ls, open_, begins)
        (ap (λ n. replay_loop deliver (suc (length ms)) os' h q p.max_lsn n p.max_lsn read_buf s)
            (after.ends ends)
          ∙ replay_loop-Appended os os' h p.max_lsn read_buf s log (after.on ∙ on)
              (ap (λ c. c.bytes) after.cache ∙ empty) readable (omega arith))
