-- ===== src/Tests/Compressing.antt =====
-- An object that is compressed by a deflate which stores, and deserialized by an inflate which
-- copies.
use oldpart.Serializer.Rounds.{compress_buf-ne-no_fuel}
use oldpart.Serializer.Deflated.{contents, IsHonest, Deflated}
use oldpart.Proto.Types.{All}
use oldpart.Proto.Emitted.{IsWhole}
use oldpart.Serializer.Whole.{compress_buf-IsWhole}
use oldpart.Serializer.Deflated.Bodies.{compress_buf-Deflated}
use oldpart.Base.{
  ap, ◌++◌, ◌-◌, arith, length-drop, length-take, replicate, [], ◌∷◌, List, ◌≢◌, err, no_fuel,
  le_bytes, of_le, ◌≡◌, refl, true, some, length, drop, take, min, ok, ◌>>=◌, if◌then◌else◌, ltb,
}
use oldpart.Serializer.Uncompress.{z_ok, z_stream_end, reset, uncompress_all, uncompress, finish}
use oldpart.Serializer.Compress.{
  after_compress, Deflate, serialize_compressed, make_compressor, compress, reset_out, is_full,
  compressed, send_tail, compress_round, compress_body, compress_bodies, compress_buf,
}
use oldpart.Proto.Write.{
  BufT, serialize_object, write_fields, write, write_pod, copy_n, ensure_buffer, allocate,
  flush_full, write_string, write_stream, write_loop, write_round, next_buffer, write_items,
  make_buffer,
}
use oldpart.Proto.Read.{
  run_coroutine, settled, read, read_fields, fetch_first, read_pod, read_bytes, get, pull,
  read_string, read_loop, read_round, read_stream, read_items,
}
use oldpart.Serializer.Send.{make_message_from_buf, make_messages, make_message}
use oldpart.Message.{is_encrypted, is_compressed}
use oldpart.Serializer.Receive.{deserialize, feed, feed_body, decrypt_body}
use oldpart.Tests.Inputs.{plain_aes, sum_crc, copying, key, fields, object_values, max}

abbrev pub storing : Deflate
storing = record {
  Strm = Unit;
  init = λ level. some tt;
  deflate = λ s bs room last. record {
    strm = s;
    avail_in = drop (min room (length bs)) bs;
    out = take (min room (length bs)) bs;
    ret = if last then (if ltb room (length bs) then z_ok else z_stream_end) else z_ok;
  };
}

compressed_test :
    (serialize_compressed storing max 9 1000 6 fields object_values
      >>= deserialize plain_aes sum_crc copying 64 max key fields)
    ≡ ok (true, ok object_values)
unfolding after_compress serialize_object write_fields write write_pod copy_n ensure_buffer allocate
    flush_full write_string write_stream write_loop write_round next_buffer write_items make_buffer
    serialize_compressed make_compressor compress reset_out is_full compressed send_tail
    compress_round compress_body compress_bodies compress_buf make_message_from_buf make_messages
    make_message deserialize feed feed_body decrypt_body reset uncompress_all uncompress finish
    is_encrypted is_compressed run_coroutine settled read read_fields fetch_first read_pod
    read_bytes get pull read_string read_loop read_round read_stream read_items le_bytes of_le
compressed_test = refl

abbrev one_body : List BufT
one_body =
    record {
      buf = record { buf = 1 ∷ 2 ∷ 3 ∷ []; buf_len = 3 };
      pad_num = 0;
      checksum = 0;
      is_last = true;
    }
    ∷ []

compress_buf-ne-no_fuel_example : compress_buf storing max 6 one_body ≢ err no_fuel
compress_buf-ne-no_fuel_example = compress_buf-ne-no_fuel storing max 6 one_body

pub storing-IsHonest : IsHonest storing 16
storing-IsHonest s bs room last =
    let n = min room (length bs) in
    let same : n ≡ length bs - length (drop n bs) = omega (arith, length-drop n bs) in
    (ap (λ k. drop k bs) same, omega (arith, length-take n bs))

abbrev one_buffer : List BufT
one_buffer =
    record {
      buf = record { buf = (1 ∷ 2 ∷ 3 ∷ []) ++ replicate 13 0; buf_len = 3 };
      pad_num = 0;
      checksum = 0;
      is_last = true;
    }
    ∷ []

one_compressed : compress_buf storing 16 9 one_body ≡ ok one_buffer
unfolding after_compress make_buffer make_compressor compress reset_out is_full compressed send_tail
    compress_round compress_body compress_bodies compress_buf
one_compressed = refl

compress_buf-Deflated_example :
    (s : Unit {0}) × (some tt ≡ some s)
    × ((t : Unit {0}) × Deflated storing 16 s (contents one_body) (contents one_buffer) t)
compress_buf-Deflated_example =
    compress_buf-Deflated storing 16 9 one_body one_buffer storing-IsHonest (refl, omega arith)
      one_compressed

compress_buf-IsWhole_example : All (IsWhole 16) one_buffer
compress_buf-IsWhole_example =
    compress_buf-IsWhole storing 16 storing-IsHonest 9 one_body one_buffer one_compressed
