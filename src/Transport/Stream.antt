-- ===== src/Transport/Stream.antt =====
-- transport/stream.py: `IteratorReader`, a reader over the chunks of a response body.
pub mod Laws
use meridian_ociadapter.Prelude.{
  ℕ, zero, suc, Bool, true, false, List, [], ◌∷◌, ◌++◌, Option, none, some, ltb, length, take, drop,
  if◌then◌else◌,
}
use meridian_ociadapter.Effect.{Error, Result, ok, err, value_error}
use meridian_ociadapter.Hashing.{Bytes}

-- What an iterator of byte chunks yields: it ends, or raises, after its chunks. One that has ended or
-- raised yields nothing more.
pub data Chunks : Type 0 where
  done : Chunks
  broken : Error → Chunks
  chunk : Bytes → Chunks → Chunks

pub record IteratorReader : Type 0 where
  pub chunks : Chunks
  pub buffer : Bytes
  pub ended : Bool
  pub closed : Bool

pub iterator_reader : Chunks → IteratorReader
iterator_reader chunks = record { chunks = chunks; buffer = []; ended = false; closed = false }

-- What a loop over the chunks leaves: the error it met, and the reader.
abbrev pub Reading : Type 0
Reading = Option Error × IteratorReader

-- `for chunk in self._chunks: self._buffer.extend(chunk)`, and then `self._ended = True`
unfoldable pub drain : Chunks → Bytes → IteratorReader → Reading
drain done buffer self = (none, record self { chunks = done; buffer = buffer; ended = true })
drain (broken e) buffer self = (some e, record self { chunks = done; buffer = buffer })
drain (chunk c rest) buffer self = drain rest (buffer ++ c) self

-- `while len(self._buffer) < size and not self._ended`
unfoldable pub fill : ℕ → Chunks → Bytes → IteratorReader → Reading
fill size done buffer self =
    if ltb (length buffer) size
    then (none, record self { chunks = done; buffer = buffer; ended = true })
    else (none, record self { chunks = done; buffer = buffer })
fill size (broken e) buffer self =
    if ltb (length buffer) size
    then (some e, record self { chunks = done; buffer = buffer })
    else (none, record self { chunks = broken e; buffer = buffer })
fill size (chunk c rest) buffer self =
    let more = fill size rest (buffer ++ c) self in
    if ltb (length buffer) size
    then more
    else (none, record self { chunks = chunk c rest; buffer = buffer })

-- `result = bytes(self._buffer[:size]); del self._buffer[:size]`, unless the loop raised
abbrev pub cut : ℕ → Reading → Result Bytes × IteratorReader
cut size (some e, self) = (err e, self)
cut size (none, self) = (ok (take size self.buffer), record self { buffer = drop size self.buffer })

abbrev pub whole : Reading → Result Bytes × IteratorReader
whole (some e, self) = (err e, self)
whole (none, self) = (ok self.buffer, record self { buffer = [] })

read_open : Option ℕ → IteratorReader → Result Bytes × IteratorReader
unfolding drain fill
read_open none self = whole (drain self.chunks self.buffer self)
read_open (some zero) self = (ok [], self)
read_open (some (suc n)) self =
    if self.ended
    then cut (suc n) (none, self)
    else cut (suc n) (fill (suc n) self.chunks self.buffer self)

-- `read(size)`, where `none` is a negative size
unfoldable pub read : Option ℕ → IteratorReader → Result Bytes × IteratorReader
unfolding read_open
read size self = if self.closed then (err value_error, self) else read_open size self
