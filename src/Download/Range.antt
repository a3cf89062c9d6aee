-- ===== src/Download/Range.antt =====
-- Range requests: `handleRangeRequest`, with `canDecrypt` and `unwrapFileKey`. A header is its list of
-- bytes. `strconv.ParseInt` is only called on parts that `strings.Split` has cut at "-", so it meets
-- no minus sign and what it returns is not negative. Headers other than Content-Length and
-- Content-Range are not modelled.
pub mod Bounds
use vault_drift.Common.{
  ℕ, zero, suc, ◌+◌, ◌-◌, ◌*◌, ◌^◌, ◌&&◌, ◌||◌, not, String, Bool, true, false, Option, none, some,
  List, [], ◌∷◌, length, leb, ltb, ◌==◌, if◌then◌else◌,
}
use vault_drift.Chunk.Chunker.{Result, ok, err}
use vault_drift.Download.Stream.{Fetch, Writer, stream_range, stream_decrypted_range}

-- The digits of `strconv.ParseInt(s, 10, 64)`, after `value`.
unfoldable pub parse_digits : List ℕ → ℕ → Option ℕ
parse_digits [] value = if ltb value (2 ^ 63) then some value else none
parse_digits (c ∷ cs) value =
    let rest = parse_digits cs (value * 10 + (c - 48)) in
    if leb 48 c && leb c 57 then rest else none

abbrev pub parse_unsigned : List ℕ → Option ℕ
parse_unsigned [] = none
parse_unsigned (c ∷ cs) = parse_digits (c ∷ cs) 0

-- `strconv.ParseInt(s, 10, 64)`, for a text with no minus sign.
unfoldable pub parse_int : List ℕ → Option ℕ
unfolding parse_digits
parse_int [] = none
parse_int (c ∷ cs) = if c == 43 then parse_unsigned cs else parse_unsigned (c ∷ cs)

abbrev pub cons_head : ℕ → List (List ℕ) → List (List ℕ)
cons_head c [] = (c ∷ []) ∷ []
cons_head c (part ∷ parts) = (c ∷ part) ∷ parts

-- `strings.Split` at one byte.
unfoldable pub split : ℕ → List ℕ → List (List ℕ)
split separator [] = [] ∷ []
split separator (c ∷ cs) =
    let rest = split separator cs in if c == separator then [] ∷ rest else cons_head c rest

-- `strings.HasPrefix` with `strings.TrimPrefix`.
unfoldable pub trim_prefix : List ℕ → List ℕ → Option (List ℕ)
trim_prefix [] cs = some cs
trim_prefix (p ∷ prefix) [] = none
trim_prefix (p ∷ prefix) (c ∷ cs) =
    let rest = trim_prefix prefix cs in if p == c then rest else none

abbrev pub bytes_prefix : List ℕ
bytes_prefix = 98 ∷ 121 ∷ 116 ∷ 101 ∷ 115 ∷ 61 ∷ []

abbrev pub comma : ℕ
comma = 44

abbrev pub dash : ℕ
dash = 45

-- The two numbers, before they are checked. `size - suffix` is 0 where it would be negative, as in
-- the code; `size - 1` is -1 there for an empty file, which the check after this refuses anyway.
abbrev pub suffix_range : ℕ → Option ℕ → Result (ℕ × ℕ)
suffix_range size none = err "Invalid Range suffix"
suffix_range size (some suffix) = ok (size - suffix, size - 1)

abbrev pub closed_range : ℕ → Option ℕ → Result (ℕ × ℕ)
closed_range start none = err "Invalid Range end"
closed_range start (some end) = ok (start, end)

abbrev pub end_range : ℕ → ℕ → List ℕ → Result (ℕ × ℕ)
end_range size start [] = ok (start, size - 1)
end_range size start (c ∷ cs) = closed_range start (parse_int (c ∷ cs))

abbrev pub start_range : ℕ → Option ℕ → List ℕ → Result (ℕ × ℕ)
start_range size none last = err "Invalid Range start"
start_range size (some start) last = end_range size start last

unfoldable pub parse_parts : ℕ → List (List ℕ) → Result (ℕ × ℕ)
unfolding parse_int
parse_parts size ([] ∷ last ∷ []) = suffix_range size (parse_int last)
parse_parts size ((c ∷ cs) ∷ last ∷ []) = start_range size (parse_int (c ∷ cs)) last
parse_parts size _ = err "Invalid Range format"

-- The check of the range, and the cut at the end of the file.
unfoldable pub check_range : ℕ → Result (ℕ × ℕ) → Result (ℕ × ℕ)
check_range size (err message) = err message
check_range size (ok (start, end)) =
    if leb size start || ltb end start
    then err "Range not satisfiable"
    else ok (start, if leb size end then size - 1 else end)

unfoldable pub single_range : ℕ → List (List ℕ) → Result (ℕ × ℕ)
unfolding parse_parts check_range
single_range size (range ∷ []) = check_range size (parse_parts size (split dash range))
single_range size _ = err "Multiple ranges not supported"

abbrev pub after_prefix : ℕ → Option (List ℕ) → Result (ℕ × ℕ)
after_prefix size none = err "Invalid Range header"
after_prefix size (some spec) = single_range size (split comma spec)

-- The first and last byte that a Range header asks for, in a file of `size` bytes.
unfoldable pub range_bounds : ℕ → List ℕ → Result (ℕ × ℕ)
unfolding single_range trim_prefix
range_bounds size header = after_prefix size (trim_prefix bytes_prefix header)

-- The fields of `db.File` that are read here.
pub record File : Type 0 where
  pub size_bytes : ℕ
  pub is_encrypted : Bool
  pub encrypted_key : List ℕ

abbrev pub has_key : Option (List ℕ) → Bool
has_key none = false
has_key (some key) = true

-- `canDecrypt`, with the handler's master key.
unfoldable pub can_decrypt : Option (List ℕ) → File → Bool
can_decrypt master_key file =
    if not file.is_encrypted then true else has_key master_key && ltb 0 (length file.encrypted_key)

-- `unwrapFileKey`, over `chunk.UnwrapFileKey`.
unfoldable pub unwrap_file_key :
    (List ℕ → List ℕ → Result (List ℕ)) → Option (List ℕ) → File → Result (List ℕ)
unwrap_file_key unwrap none file =
    if not file.is_encrypted then ok [] else err "no master key available for decryption"
unwrap_file_key unwrap (some master_key) file =
    if not file.is_encrypted
    then ok []
    else if length file.encrypted_key == 0
    then err "file has no encrypted key"
    else unwrap file.encrypted_key master_key

-- The answer: a status with a message, or 206 with the numbers of its Content-Length and
-- Content-Range headers and what the stream did.
pub data Reply : Type 0 where
  refused : ℕ → String → Reply
  partial : (content_length start end size : ℕ) → Option String × List ℕ → Reply

module _ (decrypt unwrap : List ℕ → List ℕ → Result (List ℕ)) (get : Fetch) (write : Writer)
    (master_key : Option (List ℕ)) where
  unfoldable pub send_range : File → List String → Result (ℕ × ℕ) → Reply
  unfolding can_decrypt unwrap_file_key
  send_range file hashes (err message) = refused 416 message
  send_range file hashes (ok (start, end)) =
      if file.is_encrypted && not (can_decrypt master_key file)
      then refused 501 "Range requests not supported for zero-knowledge encrypted files"
      else partial (end - start + 1) start end file.size_bytes (
          if file.is_encrypted
          then stream_decrypted_range decrypt get write (unwrap_file_key unwrap master_key file)
              start end hashes
          else stream_range get write start end hashes)

  -- `handleRangeRequest`
  unfoldable pub handle_range_request : File → List String → List ℕ → Reply
  unfolding send_range range_bounds
  handle_range_request file hashes header =
      send_range file hashes (range_bounds file.size_bytes header)
