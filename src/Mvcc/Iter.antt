-- ===== src/Mvcc/Iter.antt =====
-- Iterators and the decoders that read through them, from
-- causetstore/mockstore/mockeinsteindb/mvcc_leveldb.go.
-- `iter.Error()` is the failure behind the last pair: while a pair is left there is none.
use mileva_db.Prelude.{
  Bool, true, false, Option, none, some, List, [], ◌∷◌, ◌==◌, if◌then◌else◌, not, ◌&&◌,
}
use mileva_db.Bytes.{Bytes, bytes_equal}
use mileva_db.Mvcc.Types.{Lock, Value, Error, Result, ok, err, lock_ver, ◌>>=◌}
use mileva_db.Mvcc.Marshal.{unmarshal_lock, unmarshal_value}
use mileva_db.Mvcc.Env.{Env, Iterator}
use mileva_db.Mvcc.Lock.{mvcc_encode, mvcc_decode}

abbrev pub Pairs : Type 0
Pairs = List (Bytes × Bytes)

-- What a decoder answers behind the last pair: (false, iter.Error()).
abbrev pub at_end {ℓ} : {A : Type ℓ} → Option Error → A → Result A
at_end none a = ok a
at_end (some e) a = err e

module _ (e : Env) where
  -- newIterator over the range [start, end of the database), at its first pair
  unfoldable pub seek : e.Db → Bytes → Iterator
  seek db key = e.new_iterator db (mvcc_encode e key lock_ver) none

  -- lockDecoder.Decode at one pair: the lock of the expected key, if this pair holds it
  unfoldable pub decode_lock_pair : Bytes → Bytes × Bytes → Result (Option Lock)
  decode_lock_pair expect_key (iter_key, iter_value) = do
    (key, ver) ← mvcc_decode e iter_key
    if bytes_equal key expect_key && (ver == lock_ver)
        then (do l ← unmarshal_lock e.op_of_int32 iter_value; ok (some l))
        else ok none

  -- The iterator moves on if the lock was decoded.
  abbrev pub advance_lock : Pairs → Pairs → Option Lock → Option Lock × Pairs
  advance_lock here next none = (none, here)
  advance_lock here next (some l) = (some l, next)

  unfoldable pub decode_lock : Bytes → Pairs → Option Error → Result (Option Lock × Pairs)
  decode_lock expect_key [] failure = at_end failure (none, [])
  decode_lock expect_key (p ∷ rest) failure = do
    found ← decode_lock_pair expect_key p
    ok (advance_lock (p ∷ rest) rest found)

  -- valueDecoder.Decode at one pair; where it answers a value, the iterator moves on
  unfoldable pub decode_value_pair : Bytes → Bytes × Bytes → Result (Option Value)
  decode_value_pair expect_key (iter_key, iter_value) = do
    (key, ver) ← mvcc_decode e iter_key
    if bytes_equal key expect_key && not (ver == lock_ver)
        then (do v ← unmarshal_value iter_value; ok (some v))
        else ok none

  -- The loop of skiFIDelecoder.Decode: whether there is a next key, that key, and the pairs from it on.
  unfoldable pub skip_loop : Bytes → Pairs → Result (Bool × Bytes × Pairs)
  skip_loop curr_key [] = ok (false, curr_key, [])
  skip_loop curr_key ((iter_key, iter_value) ∷ rest) = do
    (key, ver) ← mvcc_decode e iter_key
    let further = skip_loop curr_key rest
    if bytes_equal key curr_key then further else ok (true, key, (iter_key, iter_value) ∷ rest)

  -- skiFIDelecoder.Decode: the iterator's error is read before the loop, and not behind it.
  unfoldable pub skip_key : Bytes → Pairs → Option Error → Result (Bool × Bytes × Pairs)
  skip_key curr_key [] failure = at_end failure (false, curr_key, [])
  skip_key curr_key (p ∷ rest) failure = skip_loop curr_key (p ∷ rest)
