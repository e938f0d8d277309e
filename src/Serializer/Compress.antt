-- ===== src/Serializer/Compress.antt =====
-- common/compress/ZLibCompressBuf.cpp, `CompressBuf`, and the two compressing forms of
-- `Serialize`. zlib's deflate is a parameter.
use oldpart.Base.{
  ℕ, zero, suc, ◌-◌, Bool, true, false, not, ◌&&◌, ◌||◌, Option, none, some, List, [], ◌∷◌, ◌++◌,
  length, drop, take, splice, ltb, leb, ◌==◌, if◌then◌else◌, Outcome, ok, err, thrown, no_fuel,
  ◌>>=◌, ◌>>◌, assert,
}
use oldpart.Proto.Types.{Fields, Vals}
use oldpart.Proto.Write.{BufT, make_buffer, serialize_object}
use oldpart.Message.{OMessage}
use oldpart.Crypto.{Aes}
use oldpart.Serializer.Uncompress.{Ret, z_ok, z_stream_error, Inflated}
use oldpart.Serializer.Send.{make_message_from_buf, encrypt_buf}

-- `deflate` on the input, the room for output and whether the input is the last; what it leaves
-- is as for inflate. `init` takes the level.
pub record Deflate : Type 1 where
  pub Strm : Type 0
  pub init : ℕ → Option Strm
  pub deflate : Strm → List ℕ → ℕ → Bool → Inflated Strm

abbrev pub is_stream_error : Ret → Bool
is_stream_error z_stream_error = true
is_stream_error _ = false

abbrev pub is_ok : Ret → Bool
is_ok z_ok = true
is_ok _ = false

module _ (d : Deflate) (max : ℕ) where
  -- `ZLibCompressBuf`, with what it has written into the current buffer
  pub record Compressor : Type 0 where
    pub strm : d.Strm
    pub out : List ℕ
    pub need_more_memory_for_tail : Bool

  -- the constructor
  unfoldable pub make_compressor : ℕ → Outcome Compressor
  make_compressor level = elim (d.init level) [
    | none ↦ err thrown
    | some s ↦ ok (record { strm = s; out = []; need_more_memory_for_tail = false })
  ]

  -- `Reset` to a fresh buffer
  unfoldable pub reset_out : Compressor → Compressor
  reset_out c = record c { out = [] }

  -- `Compress`: the number of bytes that were taken
  unfoldable pub compress : Compressor → List ℕ → Bool → Outcome (ℕ × Compressor)
  compress c bs last = do
    let r = d.deflate c.strm bs (max - length c.out) last
    assert (not (is_stream_error r.ret))
    ok (
      length bs - length r.avail_in,
      record {
        strm = r.strm;
        out = c.out ++ r.out;
        need_more_memory_for_tail = last && is_ok r.ret;
      },
    )

  -- `IsFull`
  unfoldable pub is_full : Compressor → Bool
  is_full c = length c.out == max

  -- `{pBuf, 0, 0, isLast}` with so many bytes in it
  unfoldable pub compressed : Compressor → ℕ → Bool → BufT
  compressed c n last = record {
    buf = record { buf = splice (make_buffer max).buf 0 c.out; buf_len = n };
    pad_num = 0;
    checksum = 0;
    is_last = last;
  }

  -- the branch `isLast && (0 == inLen)`: what it sends
  unfoldable pub send_tail : Compressor → Outcome (List BufT)
  send_tail c =
      let more = do
        assert (is_full c)
        (n, t) ← compress (reset_out c) [] true
        ok (compressed c max false ∷ compressed t (length t.out) true ∷ [])
      in if c.need_more_memory_for_tail then more else ok (compressed c (length c.out) true ∷ [])

  -- What follows the call of `Compress` in a round of `while(inLen > 0)`, when it took `n` bytes:
  -- the bytes left, what is sent, and the compressor.
  unfoldable pub after_compress :
      Bool → List ℕ → ℕ → Compressor → Outcome (List ℕ × List BufT × Compressor)
  after_compress last bs n c = do
    assert (ltb 0 n)
    let rest = drop n bs
    let none_left = length rest == 0
    let tail = send_tail c >>= λ ps. ok (rest, ps, c)
    if (not last || not none_left) && is_full c
        then ok (rest, compressed c max false ∷ [], reset_out c)
        else (if last && none_left then tail else ok (rest, [], c))

  unfoldable pub compress_round :
      Bool → List ℕ → Compressor → Outcome (List ℕ × List BufT × Compressor)
  compress_round last bs c = compress c bs last >>= λ r. after_compress last bs r.0 r.1

  -- the loop; each round takes a byte.
  unfoldable pub compress_body : ℕ → Bool → List ℕ → Compressor → Outcome (List BufT × Compressor)
  compress_body fuel last [] c = ok ([], c)
  compress_body zero last (b ∷ bs) c = err no_fuel
  compress_body (suc fuel) last (b ∷ bs) c = do
    t ← compress_round last (b ∷ bs) c
    q ← compress_body fuel last t.0 t.2
    ok (t.1 ++ q.0, q.1)

  -- the loop over the bodies
  unfoldable pub compress_bodies : List BufT → Compressor → Outcome (List BufT)
  compress_bodies [] c = ok []
  compress_bodies (p ∷ ps) c = do
    assert (leb p.buf.buf_len max)
    q ← compress_body p.buf.buf_len p.is_last (take p.buf.buf_len p.buf.buf) c
    rs ← compress_bodies ps q.1
    ok (q.0 ++ rs)

  -- `CompressBuf`
  unfoldable pub compress_buf : ℕ → List BufT → Outcome (List BufT)
  compress_buf level ps = do c ← make_compressor level; compress_bodies ps c

  -- `Serialize(messageId, obj, compressLevel)`
  unfoldable pub serialize_compressed :
      ℕ → ℕ → ℕ → (fs : Fields) → Vals fs → Outcome (List OMessage)
  serialize_compressed sequence message_id level fs vs = do
    ps ← serialize_object max fs vs
    qs ← compress_buf level ps
    ok (make_message_from_buf message_id 1 level sequence qs)

  -- `Serialize(messageId, obj, compressLevel, key)`
  unfoldable pub serialize_compressed_encrypted :
      (aes : Aes) (crc : List ℕ → ℕ)
      → ℕ
      → ℕ
      → ℕ
      → List ℕ
      → (fs : Fields) → Vals fs
      → Outcome (List OMessage)
  serialize_compressed_encrypted aes crc sequence message_id level key fs vs = do
    ps ← serialize_object max fs vs
    qs ← compress_buf level ps
    rs ← encrypt_buf aes crc max key qs
    ok (make_message_from_buf message_id 3 level sequence rs)
