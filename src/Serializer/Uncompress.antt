-- ===== src/Serializer/Uncompress.antt =====
-- common/compress/ZLibUnCompressBuf.cpp. zlib's inflate is a parameter.
use oldpart.Base.{
  ℕ, zero, suc, Option, none, some, List, [], ◌∷◌, Outcome, ok, err, fault, thrown, no_fuel, ◌>>=◌,
}

pub data Ret : Type 0 where
  z_ok z_stream_end z_buf_error z_need_dict z_data_error z_mem_error z_stream_error : Ret

-- What one call of `inflate` leaves: the stream, `avail_in` as the bytes left, and its output.
pub record Inflated (Strm : Type 0) : Type 0 where
  pub strm : Strm
  pub avail_in : List ℕ
  pub out : List ℕ
  pub ret : Ret

pub record Inflate : Type 1 where
  pub Strm : Type 0
  pub init : Option Strm
  pub inflate : Strm → List ℕ → ℕ → Inflated Strm

module _ (z : Inflate) where
  -- `ZLibUnCompressBuf`: no stream before the first `Reset`
  pub record UnCompress : Type 0 where
    pub strm : Option (z.Strm)
    pub avail_in : List ℕ

  -- the constructor
  abbrev pub idle : UnCompress
  idle = record { strm = none; avail_in = [] }

  init_strm : Option (z.Strm) → Outcome (z.Strm)
  init_strm none = err thrown
  init_strm (some s) = ok s

  strm_of : Option (z.Strm) → Outcome (z.Strm)
  strm_of none = init_strm z.init
  strm_of (some s) = ok s

  unfoldable pub reset : UnCompress → List ℕ → Outcome UnCompress
  unfolding strm_of init_strm
  reset u bs = strm_of u.strm >>= λ s. ok (record { strm = some s; avail_in = bs })

  unfoldable pub finish : Ret → UnCompress → List ℕ → Outcome (List ℕ × UnCompress)
  finish z_ok u out = ok (out, u)
  finish z_stream_end u out = ok (out, u)
  finish z_buf_error u out = ok (out, u)
  finish z_need_dict u out = err thrown
  finish z_data_error u out = err thrown
  finish z_mem_error u out = err thrown
  finish z_stream_error u out = err fault

  call_inflate : Option (z.Strm) → List ℕ → ℕ → Outcome (Inflated (z.Strm))
  call_inflate none bs n = err fault
  call_inflate (some s) bs n = ok (z.inflate s bs n)

  -- `UnCompress`: what it stores, for a room of `out_len` bytes
  unfoldable pub uncompress : UnCompress → ℕ → Outcome (List ℕ × UnCompress)
  unfolding call_inflate
  uncompress u out_len = call_inflate u.strm u.avail_in out_len >>= λ r.
      finish r.ret (record { strm = some r.strm; avail_in = r.avail_in }) r.out

  -- `while(!uncompressBuf.IsEmpty())` of `Deserialize`: the chunks that it hands on.
  unfoldable pub uncompress_all : ℕ → ℕ → UnCompress → Outcome (List (List ℕ) × UnCompress)
  uncompress_all zero max u = elim u.avail_in [ [] ↦ ok ([], u) | b ∷ bs ↦ err no_fuel ]
  uncompress_all (suc fuel) max u = elim u.avail_in [
    | [] ↦ ok ([], u)
    | b ∷ bs ↦ uncompress u max >>= λ r. uncompress_all fuel max r.1 >>= λ q. ok (r.0 ∷ q.0, q.1)
  ]
