-- ===== src/Message/Layout.antt =====
-- The layout of the head of common/OMessage.h: numbers of fixed widths in network order.
use oldpart.Base.{
  ℕ, ◌+◌, ◌<◌, ◌^◌, ◌≡◌, refl, ap, ap₂, ◌∙◌, List, [], ◌∷◌, ◌++◌, length, take, drop, be_bytes,
  of_be, arith, length-be_bytes, of_be-be_bytes, drop-append_ge, length-append, take-append_le,
  take_all,
}

unfoldable pub encode_values : List ℕ → List ℕ → List ℕ
encode_values [] vs = []
encode_values (w ∷ ws) [] = []
encode_values (w ∷ ws) (v ∷ vs) = be_bytes w v ++ encode_values ws vs

unfoldable pub decode_values : List ℕ → List ℕ → List ℕ
decode_values [] bs = []
decode_values (w ∷ ws) bs = of_be (take w bs) ∷ decode_values ws (drop w bs)

-- The values are as many as the widths, and each fits its own.
abbrev pub Fit : List ℕ → List ℕ → Type 0
Fit [] [] = Unit
Fit [] (v ∷ vs) = ⊥
Fit (w ∷ ws) [] = ⊥
Fit (w ∷ ws) (v ∷ vs) = (v < 256 ^ w) × Fit ws vs

abbrev pub sum : List ℕ → ℕ
sum [] = 0
sum (w ∷ ws) = w + sum ws

pub length-encode_values : (ws vs : List ℕ) → Fit ws vs → length (encode_values ws vs) ≡ sum ws
unfolding encode_values
length-encode_values [] [] h = refl
length-encode_values [] (v ∷ vs) h = absurd h
length-encode_values (w ∷ ws) [] h = absurd h
length-encode_values (w ∷ ws) (v ∷ vs) h =
    length-append (be_bytes w v) (encode_values ws vs)
    ∙ ap₂ ◌+◌ (length-be_bytes w v) (length-encode_values ws vs h.1)

pub decode-encode_values :
    (ws vs : List ℕ) → Fit ws vs → decode_values ws (encode_values ws vs) ≡ vs
unfolding encode_values decode_values
decode-encode_values [] [] h = refl
decode-encode_values [] (v ∷ vs) h = absurd h
decode-encode_values (w ∷ ws) [] h = absurd h
decode-encode_values (w ∷ ws) (v ∷ vs) h =
    let rest = encode_values ws vs in
    ap₂ ◌∷◌
      (ap of_be (
          take-append_le w (be_bytes w v) rest (omega (arith, length-be_bytes w v))
          ∙ take_all w (be_bytes w v) (omega (arith, length-be_bytes w v)))
        ∙ of_be-be_bytes w v h.0)
      (ap (decode_values ws)
          (drop-append_ge w 0 (be_bytes w v) rest (omega (arith, length-be_bytes w v)))
        ∙ decode-encode_values ws vs h.1)
