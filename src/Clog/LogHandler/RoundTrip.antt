-- ===== src/Clog/LogHandler/RoundTrip.antt =====
-- What the log handler sends, its replay delivers.
use lsm_storage.Prelude.{
  ℕ, ◌+◌, ◌^◌, ◌<◌, some, List, length, drop, to_le, from_le, Ret, ◌≡◌, refl, sym, ◌∙◌, inl, arith,
}
use lsm_storage.Prelude.Assoc
use lsm_storage.Prelude.Buffer.{put, fetch, drop-put, length-put, fetch-put_ne}
use lsm_storage.Clog.Header.{
  LogBaseHeader, new_base_header, base_header_size, base_header_bytes, serialize_base_header,
  deserialize_base_header,
}
use lsm_storage.Clog.LogHandler.{LogHandler, envelope, replay}

length-base_header_bytes : (h : LogBaseHeader) → length (base_header_bytes h) ≡ 16
unfolding base_header_bytes to_le
length-base_header_bytes h = refl

-- The log type, two bytes behind the version.
stored_type :
    (log_type : ℕ) (garbage : List ℕ)
    → log_type < 2 ^ 16
    → fetch 2 2 (put 0 (base_header_bytes (new_base_header log_type)) garbage) ≡ log_type
unfolding fetch put base_header_bytes to_le from_le
stored_type log_type garbage fits = omega arith

module _ (garbage bytes : List ℕ) (log_type : ℕ)
    (size : length garbage ≡ base_header_size + length bytes) where
  abbrev stamped : List ℕ
  stamped = put 0 (base_header_bytes (new_base_header log_type)) garbage

  length-stamped : length stamped ≡ base_header_size + length bytes
  length-stamped =
      length-put 0 (base_header_bytes (new_base_header log_type)) garbage
        (omega (arith, length-base_header_bytes (new_base_header log_type)))
      ∙ size

  envelope-put : envelope garbage bytes log_type ≡ put base_header_size bytes stamped
  unfolding envelope serialize_base_header
  envelope-put = ground arith

  pub length-envelope : length (envelope garbage bytes log_type) ≡ base_header_size + length bytes
  length-envelope =
      rw envelope-put
        (length-put base_header_size bytes stamped (omega (arith, length-stamped)) ∙ length-stamped)

  drop-envelope : drop base_header_size (envelope garbage bytes log_type) ≡ bytes
  drop-envelope = rw envelope-put (drop-put base_header_size bytes stamped (sym length-stamped))

  envelope_type : log_type < 2 ^ 16 → fetch 2 2 (envelope garbage bytes log_type) ≡ log_type
  envelope_type fits = rw envelope-put (
      fetch-put_ne 2 2 base_header_size bytes stamped (omega (arith, length-stamped))
        (inl (omega arith))
      ∙ stored_type log_type garbage fits)

-- What one component appends reaches its handler: the replay of an envelope hands the bytes that
-- were sent, and nothing else, to the handler that is registered for their log type.
pub replay-envelope {ℓ} :
    {S : Type ℓ} (deliver : ℕ → List ℕ → S → S × Ret) (garbage bytes : List ℕ)
    (log_type handler : ℕ) (h : LogHandler) (s : S)
    → log_type < 2 ^ 16
    → length garbage ≡ base_header_size + length bytes
    → Assoc.lookup log_type h.replay_handlers ≡ some handler
    → replay deliver (envelope garbage bytes log_type) h s ≡ deliver handler bytes s
unfolding replay deserialize_base_header
replay-envelope deliver garbage bytes log_type handler h s fits size registered = ground (
  arith,
  length-envelope garbage bytes log_type size,
  drop-envelope garbage bytes log_type size,
  envelope_type garbage bytes log_type size fits,
  registered,
)
