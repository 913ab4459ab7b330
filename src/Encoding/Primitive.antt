-- ===== src/Encoding/Primitive.antt =====
-- tinyolap/src/encoding/mod.rs: `Primitive`, the values of fixed width and their little-endian
-- bytes. A float is its bit pattern.
use tiny_olap.Base.{
  ℕ, List, [], ◌∷◌, ◌<◌, ◌≡◌, refl, Bool, true, false, not, Option, none, some, ◌==◌, if◌then◌else◌,
  length, All, arith,
}
use tiny_olap.Base.Words.{
  IsByte, word_mod, to_le_bytes, from_le_bytes, length-to_le_bytes, to_le_bytes-IsByte,
  from_le_bytes-to_le_bytes,
}
use tiny_olap.Base.Int.{ℤ, IsSigned, to_bits, of_bits, to_bits-lt, of_bits-to_bits}

-- The trait: what the column writer and reader need of a type. `none` is the panic of an `unwrap`.
pub record Primitive (T : Type 0) : Type 0 where
  pub width : ℕ
  pub encode_le : T → List ℕ
  pub decode_le : List ℕ → Option T

-- What every implementation keeps, for the values that the Rust type has.
pub record IsLawful {T : Type 0} (p : Primitive T) (IsValue : T → Type 0) : Type 0 where
  pub width_pos : 0 < p.width
  pub length-encode_le : (v : T) → length (p.encode_le v) ≡ p.width
  pub encode_le-IsByte : (v : T) → All IsByte (p.encode_le v)
  pub decode_le-encode_le : (v : T) → IsValue v → p.decode_le (p.encode_le v) ≡ some v

-- `try_into().unwrap()` on a slice of another length panics.
exactly {ℓ} : {A : Type ℓ} → ℕ → List ℕ → A → Option A
exactly w bytes a = if length bytes == w then some a else none

-- u8, u16, u32 and u64 at `w` bytes, and the bit patterns of f32 and f64.
unfoldable pub unsigned : ℕ → Primitive ℕ
unfolding exactly
unsigned w = record {
  width = w;
  encode_le = λ v. to_le_bytes w v;
  decode_le = λ bytes. exactly w bytes (from_le_bytes bytes);
}

-- i8, i16, i32 and i64 at `w` bytes.
unfoldable pub signed : ℕ → Primitive ℤ
unfolding exactly
signed w = record {
  width = w;
  encode_le = λ v. to_le_bytes w (to_bits w v);
  decode_le = λ bytes. exactly w bytes (of_bits w (from_le_bytes bytes));
}

decode_bool : List ℕ → Option Bool
decode_bool [] = none
decode_bool (b ∷ bs) = some (not (b == 0))

encode_bool : Bool → List ℕ
encode_bool v = (if v then 1 else 0) ∷ []

unfoldable pub boolean : Primitive Bool
unfolding decode_bool encode_bool
boolean = record { width = 1; encode_le = encode_bool; decode_le = decode_bool }

same_length : (n : ℕ) → (n == n) ≡ true
same_length n = ground arith

pub unsigned-IsLawful : (w : ℕ) → 0 < w → IsLawful (unsigned w) (λ v. v < word_mod w)
unfolding unsigned
unsigned-IsLawful w pos = record {
  width_pos = pos;
  length-encode_le = λ v. length-to_le_bytes w v;
  encode_le-IsByte = λ v. to_le_bytes-IsByte w v;
  decode_le-encode_le =
      λ v h. rw (length-to_le_bytes w v, same_length w, from_le_bytes-to_le_bytes w v h);
}

pub signed-IsLawful : (w : ℕ) → 0 < w → IsLawful (signed w) (IsSigned w)
unfolding signed
signed-IsLawful w pos = record {
  width_pos = pos;
  length-encode_le = λ v. length-to_le_bytes w (to_bits w v);
  encode_le-IsByte = λ v. to_le_bytes-IsByte w (to_bits w v);
  decode_le-encode_le = λ v h. rw (
    length-to_le_bytes w (to_bits w v),
    same_length w,
    from_le_bytes-to_le_bytes w (to_bits w v) (to_bits-lt w v h),
    of_bits-to_bits w v h,
  );
}

pub boolean-IsLawful : IsLawful boolean (λ v. Unit {0})
unfolding boolean
boolean-IsLawful = record {
  width_pos = omega arith;
  length-encode_le = λ v. refl;
  encode_le-IsByte = λ v. ground arith;
  decode_le-encode_le =
      λ v h. elim v as (λ v. decode_bool (encode_bool v) ≡ some v) [ true ↦ refl | false ↦ refl ];
}
