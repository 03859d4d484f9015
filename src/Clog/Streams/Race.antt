-- ===== src/Clog/Streams/Race.antt =====
-- Two threads in open_ls.
use lsm_storage.Prelude.{ℕ, ◌+◌, ◌≡◌, ◌≢◌, refl, ◌∙◌, Option, none, some, arith}
use lsm_storage.Prelude.Assoc.{lookup, insert, lookup-insert, lookup-remove}
use lsm_storage.Clog.PalfHandle.{PalfHandle}
use lsm_storage.Clog.PalfEnv.{create, remove_handle}
use lsm_storage.Clog.LogHandler.{LogHandler}
use lsm_storage.Clog.Streams.{Stream, LogService, open_look, open_make, remove_ls, handler_of}
use lsm_storage.Clog.Streams.Linked.{made_stream, opened}
use lsm_storage.Clog.Streams.Calls.{fresh_handler}

-- What a thread that was given the address works on; none where the object is deleted.
unfoldable pub handler_at : ℕ → LogService → Option LogHandler
unfolding handler_of
handler_at address s = elim (lookup address s.heap) [
  | none ↦ none
  | some h ↦ some (handler_of s.env h)
]

open_make_lem :
    (ls : ℕ) (p : PalfHandle) (s : LogService)
    → open_make ls (some p) s ≡ (opened ls p s, some s.next_address)
unfolding open_make create
open_make_lem ls p s = refl

abbrev both : ℕ → PalfHandle → LogService → LogService
both ls p s = opened ls p (opened ls p s)

first_kept :
    (ls : ℕ) (p : PalfHandle) (s : LogService)
    → handler_at s.next_address (both ls p s) ≡ some (fresh_handler ls p)
unfolding handler_at handler_of
first_kept ls p s = ground (
  arith,
  lookup-insert (s.next_address + 1) s.next_address (made_stream ls (opened ls p s))
      (insert s.next_address (made_stream ls s) s.heap),
  lookup-insert s.next_address s.next_address (made_stream ls s) s.heap,
  lookup-insert (s.env.next_address + 1) s.env.next_address p
      (insert s.env.next_address p s.env.heap),
  lookup-insert s.env.next_address s.env.next_address p s.env.heap,
)

second_there :
    (ls : ℕ) (p : PalfHandle) (s : LogService)
    → handler_at (s.next_address + 1) (both ls p s) ≡ some (fresh_handler ls p)
unfolding handler_at handler_of
second_there ls p s = ground (
  arith,
  lookup-insert (s.next_address + 1) (s.next_address + 1) (made_stream ls (opened ls p s))
      (insert s.next_address (made_stream ls s) s.heap),
  lookup-insert s.next_address s.next_address (made_stream ls s) s.heap,
  lookup-insert (s.env.next_address + 1) (s.env.next_address + 1) p
      (insert s.env.next_address p s.env.heap),
  lookup-insert s.env.next_address s.env.next_address p s.env.heap,
)

map_second :
    (ls : ℕ) (p : PalfHandle) (s : LogService)
    → open_look ls (both ls p s) ≡ some (s.next_address + 1)
unfolding open_look
map_second ls p s =
    ground (arith, lookup-insert ls ls (s.next_address + 1) (insert ls s.next_address s.handlers))

-- What remove_ls leaves at an address that the map does not lead to.
handler_at-removed :
    (a b r : ℕ) (x : Stream) (ls : ℕ) (s : LogService)
    → lookup ls s.handlers ≡ some b
    → lookup ls s.env.handles ≡ some r
    → lookup a s.heap ≡ some x
    → a ≢ b
    → x.palf ≢ r
    → handler_at a (remove_ls ls s).0 ≡ handler_at a s
unfolding handler_at handler_of remove_ls remove_handle
handler_at-removed a b r x ls s there stream object other apart =
    ground (arith, lookup-remove b a s.heap, lookup-remove r x.palf s.env.heap)

first_left :
    (ls : ℕ) (p : PalfHandle) (s : LogService)
    → handler_at s.next_address (remove_ls ls (both ls p s)).0 ≡ some (fresh_handler ls p)
first_left ls p s =
    handler_at-removed s.next_address (s.next_address + 1) (s.env.next_address + 1)
      (made_stream ls s) ls (both ls p s)
      (ground
        (arith, lookup-insert ls ls (s.next_address + 1) (insert ls s.next_address s.handlers)))
      (ground (
        arith,
        lookup-insert ls ls (s.env.next_address + 1) (insert ls s.env.next_address s.env.handles),
      ))
      (ground (
        arith,
        lookup-insert (s.next_address + 1) s.next_address (made_stream ls (opened ls p s))
            (insert s.next_address (made_stream ls s) s.heap),
        lookup-insert s.next_address s.next_address (made_stream ls s) s.heap,
      ))
      (omega arith) (omega arith)
    ∙ first_kept ls p s

-- Two threads that open an id which is not open, and both look before either goes on, get two
-- handlers over two log streams of the one directory, both at the LSN where the log ended: both calls
-- succeed, and the map keeps the second handler alone. After remove_ls the first is still there.
pub open_make-twice :
    (ls : ℕ) (p : PalfHandle) (s : LogService)
    → open_look ls s ≡ none
    → (s' s'' : LogService) × (first second : ℕ) × (open_make ls (some p) s ≡ (s', some first))
      × (open_make ls (some p) s' ≡ (s'', some second))
      × (first ≢ second)
      × (handler_at first s'' ≡ some (fresh_handler ls p))
      × (handler_at second s'' ≡ some (fresh_handler ls p))
      × (open_look ls s'' ≡ some second)
      × (handler_at first (remove_ls ls s'').0 ≡ some (fresh_handler ls p))
open_make-twice ls p s absent = (
  opened ls p s,
  both ls p s,
  s.next_address,
  s.next_address + 1,
  open_make_lem ls p s,
  open_make_lem ls p (opened ls p s),
  omega arith,
  first_kept ls p s,
  second_there ls p s,
  map_second ls p s,
  first_left ls p s,
)
