-- ===== src/Storage/ColumnWriter/Bytes.antt =====
-- The bytes of the values of a block: their number, that they are bytes, and that each codec takes
-- them.
use tiny_olap.Base.{
  ℕ, ◌*◌, List, [], ◌∷◌, ◌++◌, ◌≡◌, refl, Bool, length, length-append, All, All-append,
  append_assoc, chunks_exact, chunks_exact-flatten, map, flatten, ap, ok, first_step, arith,
}
use tiny_olap.Base.Words.{IsByte}
use tiny_olap.Encoding.Primitive.{Primitive, IsLawful}
use tiny_olap.Encoding.Delta.RoundTrip.{Width, stride_of}
use tiny_olap.Encoding.Codec as Codecs
use tiny_olap.Encoding.Codec.{Codec}
use tiny_olap.Storage.ColumnWriter.{raw_bytes}

module _ {T : Type 0} (prim : Primitive T) (lt : T → T → Bool) (compress : List ℕ → List ℕ)
    (IsValue : T → Type 0) (lawful : IsLawful prim IsValue) (w : Width)
    (fits : prim.width ≡ stride_of w) where
  pub length-raw_bytes :
      (vs : List T) → length (raw_bytes prim lt compress vs) ≡ length vs * stride_of w
  unfolding raw_bytes
  length-raw_bytes [] = omega arith
  length-raw_bytes (v ∷ vs) = omega (
    arith,
    length-append (prim.encode_le v) (raw_bytes prim lt compress vs),
    lawful.length-encode_le v,
    length-raw_bytes vs,
    fits,
  )

  pub raw_bytes-IsByte : (vs : List T) → All IsByte (raw_bytes prim lt compress vs)
  unfolding raw_bytes
  raw_bytes-IsByte [] = tt
  raw_bytes-IsByte (v ∷ vs) =
      All-append IsByte (prim.encode_le v) (raw_bytes prim lt compress vs)
        (lawful.encode_le-IsByte v) (raw_bytes-IsByte vs)

  pub encodes :
      (codec : Codec) (vs : List T)
      → (bytes : List ℕ) × (Codecs.encode codec (raw_bytes prim lt compress vs) prim.width []
          ≡ ok bytes)
  encodes codec vs =
      let raw = raw_bytes prim lt compress vs in
      let round =
        Codecs.decode-encode codec w (length vs) raw [] (length-raw_bytes vs)
          (raw_bytes-IsByte vs) in
      let (bytes, e, _) =
        first_step (Codecs.encode codec raw (stride_of w) [])
          (λ b. Codecs.decode codec b (stride_of w) []) raw round in
      (bytes, at_width raw bytes prim.width fits e)
    where
      at_width :
          (raw bytes : List ℕ) (width : ℕ)
          → width ≡ stride_of w
          → Codecs.encode codec raw (stride_of w) [] ≡ ok bytes
          → Codecs.encode codec raw width [] ≡ ok bytes
      at_width raw bytes width same e = rw same e

  pub decodes :
      (codec : Codec) (vs : List T) (encoded : List ℕ)
      → Codecs.encode codec (raw_bytes prim lt compress vs) prim.width [] ≡ ok encoded
      → Codecs.decode codec encoded prim.width [] ≡ ok (raw_bytes prim lt compress vs)
  decodes codec vs encoded e =
      let raw = raw_bytes prim lt compress vs in
      let round =
        Codecs.decode-encode codec w (length vs) raw [] (length-raw_bytes vs)
          (raw_bytes-IsByte vs) in
      let (bytes, e', d) =
        first_step (Codecs.encode codec raw (stride_of w) [])
          (λ b. Codecs.decode codec b (stride_of w) []) raw round in
      at_width raw bytes prim.width fits e e' d
    where
      at_width :
          (raw bytes : List ℕ) (width : ℕ)
          → width ≡ stride_of w
          → Codecs.encode codec raw width [] ≡ ok encoded
          → Codecs.encode codec raw (stride_of w) [] ≡ ok bytes
          → Codecs.decode codec bytes (stride_of w) [] ≡ ok raw
          → Codecs.decode codec encoded width [] ≡ ok raw
      at_width raw bytes width same e e' d = cc

  pub raw_bytes-append :
      (us vs : List T)
      → raw_bytes prim lt compress (us ++ vs)
        ≡ raw_bytes prim lt compress us ++ raw_bytes prim lt compress vs
  unfolding raw_bytes
  raw_bytes-append [] vs = refl
  raw_bytes-append (u ∷ us) vs =
      rw
        (
          raw_bytes-append us vs,
          append_assoc (prim.encode_le u) (raw_bytes prim lt compress us)
              (raw_bytes prim lt compress vs),
        )
        refl

  raw_bytes-flatten :
      (vs : List T) → raw_bytes prim lt compress vs ≡ flatten (map (λ v. prim.encode_le v) vs)
  unfolding raw_bytes
  raw_bytes-flatten [] = refl
  raw_bytes-flatten (v ∷ vs) = ap (λ t. prim.encode_le v ++ t) (raw_bytes-flatten vs)

  encoded-lengths :
      (vs : List T) → All (λ c. length c ≡ prim.width) (map (λ v. prim.encode_le v) vs)
  encoded-lengths [] = tt
  encoded-lengths (v ∷ vs) = (lawful.length-encode_le v, encoded-lengths vs)

  pub raw_bytes-chunks :
      (vs : List T)
      → chunks_exact prim.width (raw_bytes prim lt compress vs) ≡ map (λ v. prim.encode_le v) vs
  raw_bytes-chunks vs = rw (raw_bytes-flatten vs) (
      chunks_exact-flatten prim.width (map (λ v. prim.encode_le v) vs) lawful.width_pos
        (encoded-lengths vs))
