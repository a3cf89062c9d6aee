-- ===== src/Chunk/Rabin.antt =====
-- The rolling fingerprint of internal/chunk/chunker.go. A uint64 is a number below 2 ^ 64; `<<`
-- drops what leaves the word.
use Prim.Native.Nat.{bit_and, bit_xor}
use vault_drift.Common.{
  ℕ, zero, suc, ◌+◌, ◌-◌, ◌*◌, ◌/◌, ◌%◌, ◌^◌, Bool, false, not, ◌||◌, ◌&&◌, List, [], ◌∷◌, ◌++◌,
  drop, ltb, leb, ◌==◌, if◌then◌else◌,
}

abbrev pub u64 : ℕ → ℕ
u64 n = n % 2 ^ 64

-- `x << k` on a uint64.
abbrev pub shl : ℕ → ℕ → ℕ
shl x k = u64 (x * 2 ^ k)

-- `(x >> k) & 1 != 0`
abbrev pub has_bit : ℕ → ℕ → Bool
has_bit x k = not (x / 2 ^ k % 2 == 0)

module _ {ℓ} {A : Type ℓ} where
  abbrev pub get_or : List A → ℕ → A → A
  get_or [] i d = d
  get_or (x ∷ xs) zero d = x
  get_or (x ∷ xs) (suc i) d = get_or xs i d

  -- A write out of bounds changes nothing.
  abbrev pub set : List A → ℕ → A → List A
  set [] i v = []
  set (x ∷ xs) zero v = v ∷ xs
  set (x ∷ xs) (suc i) v = x ∷ set xs i v

-- `rabinTable`; nothing reads `modTable`.
pub record RabinTable : Type 0 where
  pub polynomial : ℕ
  pub degree : ℕ
  pub out_table : List ℕ
  pub mod_table : List ℕ

-- `for degree > 0 && ((poly>>degree)&1) == 0 { degree-- }`
unfoldable pub find_degree : ℕ → ℕ → ℕ
find_degree poly zero = zero
find_degree poly (suc degree) =
    let rest = find_degree poly degree in if has_bit poly (suc degree) then suc degree else rest

-- `x << 1`, reduced by the polynomial where the bit at `degree` is set.
unfoldable pub shift_reduce : ℕ → ℕ → ℕ → ℕ
shift_reduce poly degree x = if has_bit (shl x 1) degree then bit_xor (shl x 1) poly else shl x 1

unfoldable pub out_polynomial : ℕ → ℕ → ℕ → ℕ → ℕ
unfolding shift_reduce
out_polynomial zero poly degree x = x
out_polynomial (suc rounds) poly degree x =
    out_polynomial rounds poly degree (shift_reduce poly degree x)

-- `for i := range 8 { if (bb>>i)&1 != 0 { result ^= outPoly << i } }`, from `i` on.
unfoldable pub spread : ℕ → ℕ → ℕ → ℕ → ℕ → ℕ
spread zero i byte out_poly result = result
spread (suc left) i byte out_poly result =
    spread left (i + 1) byte out_poly
      (if has_bit byte i then bit_xor result (shl out_poly i) else result)

-- `for i := uint(63); i >= degree; i--`, with `left` rounds to go: the next bit is
-- `degree + left - 1`. For degree 0 the Go loop does not end, since `i` wraps.
unfoldable pub reduce : ℕ → ℕ → ℕ → ℕ → ℕ
reduce zero poly degree result = result
reduce (suc left) poly degree result =
    reduce left poly degree
      (if has_bit result (degree + left) then bit_xor result (shl poly left) else result)

-- The entries of one of the two tables, from `byte` on.
unfoldable pub out_entries : ℕ → ℕ → ℕ → ℕ → ℕ → List ℕ
unfolding spread reduce
out_entries zero byte poly degree out_poly = []
out_entries (suc left) byte poly degree out_poly =
    reduce (64 - degree) poly degree (spread 8 0 byte out_poly 0)
    ∷ out_entries left (byte + 1) poly degree out_poly

-- `createRabinTable`
unfoldable pub create_rabin_table : ℕ → ℕ → RabinTable
unfolding find_degree out_polynomial out_entries
create_rabin_table poly window_size =
    let degree = find_degree poly 63 in
    record {
      polynomial = poly;
      degree = degree;
      out_table = out_entries 256 0 poly degree (out_polynomial window_size poly degree 1);
      mod_table = out_entries 256 0 poly degree poly;
    }

pub record Chunker : Type 0 where
  pub min_size : ℕ
  pub avg_size : ℕ
  pub max_size : ℕ
  pub window_size : ℕ
  pub mask : ℕ
  pub table : RabinTable

-- `for size > 1 { size >>= 1; bits++ }`; a positive int64 falls to 1 in at most 63 rounds.
unfoldable pub count_bits : ℕ → ℕ → ℕ → ℕ
count_bits zero size bits = bits
count_bits (suc fuel) size bits =
    let rest = count_bits fuel (size / 2) (bits + 1) in if ltb 1 size then rest else bits

-- `bits - 2`, raised to 8 where it is less.
unfoldable pub mask_bits : ℕ → ℕ
unfolding count_bits
mask_bits avg = let bits = count_bits 64 avg 0 in if ltb bits 10 then 8 else bits - 2

-- `NewChunker`
unfoldable pub new_chunker : ℕ → ℕ → ℕ → Chunker
unfolding mask_bits create_rabin_table
new_chunker min avg max = record {
  min_size = min;
  avg_size = avg;
  max_size = max;
  window_size = 48;
  mask = shl 1 (mask_bits avg) - 1;
  table = create_rabin_table 0x3DA3358B4DC173 48;
}

-- `DefaultChunker`
unfoldable pub default_chunker : Chunker
unfolding new_chunker
default_chunker = new_chunker (256 * 1024) (1024 * 1024) (4 * 1024 * 1024)

-- `pushByte`
unfoldable pub push_byte : Chunker → ℕ → ℕ → ℕ
unfolding shift_reduce
push_byte c fp b = bit_xor (shift_reduce c.table.polynomial c.table.degree fp) b

-- `slideFingerprint`
unfoldable pub slide_fingerprint : Chunker → ℕ → ℕ → ℕ → ℕ
unfolding push_byte
slide_fingerprint c fp old_byte new_byte =
    push_byte c (bit_xor fp (get_or c.table.out_table old_byte 0)) new_byte

-- The variables of the window: `window`, `windowPos`, `windowFilled` and `fingerprint`.
pub record Window : Type 0 where
  pub bytes : List ℕ
  pub position : ℕ
  pub filled : Bool
  pub fingerprint : ℕ

abbrev pub zeros : ℕ → List ℕ
zeros zero = []
zeros (suc n) = 0 ∷ zeros n

unfoldable pub new_window : Chunker → Window
new_window c = record { bytes = zeros c.window_size; position = 0; filled = false; fingerprint = 0 }

-- What the loops do with the window at each byte.
unfoldable pub roll : Chunker → ℕ → Window → Window
unfolding push_byte slide_fingerprint
roll c b w =
    if w.filled || leb c.window_size w.position
    then record w {
      bytes = drop 1 w.bytes ++ b ∷ [];
      fingerprint = slide_fingerprint c w.fingerprint (get_or w.bytes 0 0) b;
    }
    else record {
      bytes = set w.bytes w.position b;
      position = w.position + 1;
      filled = w.filled || (w.position + 1 == c.window_size);
      fingerprint = push_byte c w.fingerprint b;
    }

-- The test for the end of a chunk that is `size` bytes long.
unfoldable pub at_boundary : Chunker → ℕ → ℕ → Bool
at_boundary c size fingerprint =
    leb c.min_size size && ((bit_and fingerprint c.mask == 0) || leb c.max_size size)
