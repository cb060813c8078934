-- ===== src/Router/Wire.antt =====
-- Message, without the handles that it carries, and the reading and writing of its payload.
use voodoo.Prelude.{
  ℕ, ◌+◌, ◌*◌, ◌/◌, ◌%◌, ◌^◌, [], ◌∷◌, ◌++◌, Option, none, some, ltb, if◌then◌else◌, length, take,
  drop,
}
use voodoo.Prelude.Text.{Bytes}

pub record Message : Type 0 where
  pub name : ℕ
  pub flags : ℕ
  pub interface_id : ℕ
  pub request_id : ℕ
  pub payload : Bytes

abbrev pub new_message : ℕ → ℕ → ℕ → Message
new_message name flags interface_id = record {
  name = name;
  flags = flags;
  interface_id = interface_id;
  request_id = 0;
  payload = [];
}

-- StoreLittleEndian of a uint32_t.
abbrev pub store_u32 : ℕ → Bytes
store_u32 n = n % 256 ∷ n / 256 % 256 ∷ n / 65536 % 256 ∷ n / 16777216 % 256 ∷ []

-- LoadLittleEndian<uint32_t>, of the first four bytes.
abbrev pub load_u32 : Bytes → ℕ
load_u32 (a ∷ b ∷ c ∷ d ∷ s) = a + 256 * b + 65536 * c + 16777216 * d
load_u32 _ = 0

-- payload_num_bytes: the length of the payload, as a uint32_t.
abbrev pub payload_num_bytes : Message → ℕ
payload_num_bytes m = length m.payload % 2 ^ 32

-- WriteScalar of a uint32_t.
unfoldable pub write_u32 : Message → ℕ → Message
write_u32 m n = record m { payload = m.payload ++ store_u32 n }

-- ReadScalar of a uint32_t: the value and the offset behind it.
unfoldable pub read_u32 : Message → ℕ → Option (ℕ × ℕ)
read_u32 m offset =
    if ltb (payload_num_bytes m) (offset + 4)
    then none
    else some (load_u32 (drop offset m.payload), offset + 4)

-- WriteString
unfoldable pub write_string : Message → Bytes → Message
unfolding write_u32
write_string m s =
    let headed = write_u32 m (length s % 2 ^ 32) in record headed { payload = headed.payload ++ s }

abbrev pub string_at : Message → Option (ℕ × ℕ) → Option (Bytes × ℕ)
string_at m none = none
string_at m (some (len, offset)) =
    if ltb (payload_num_bytes m) (offset + len)
    then none
    else some (take len (drop offset m.payload), offset + len)

-- ReadString
unfoldable pub read_string : Message → ℕ → Option (Bytes × ℕ)
unfolding read_u32
read_string m offset = string_at m (read_u32 m offset)
