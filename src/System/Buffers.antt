-- ===== src/System/Buffers.antt =====
-- Shared buffers: SharedBufferObj, EnsureMapped, WhpCreateSharedBuffer, WhpDuplicateBufferHandle,
-- WhpGetBufferInfo, WhpMapBuffer, WhpUnmapBuffer, WhpWrapPlatformSharedMemoryRegion and
-- WhpUnwrapPlatformSharedMemoryRegion.
pub mod Mapping
pub mod Sized
use voodoo.Prelude.{
  is_empty, ℕ, suc, ◌+◌, ◌-◌, ◌%◌, ◌^◌, List, [], ◌∷◌, ◌++◌, Bool, true, false, not, ◌&&◌, ◌||◌,
  Option, none, some, ltb, leb, ◌==◌, if◌then◌else◌, length, set, get_or, add64, replicate, exists,
  remove_if,
}
use voodoo.System.Types.{
  Core, Slot, free, shared_buffer, SharedBufferObj, MappedRegion, Address, PlatformObj, WhpResult,
  ok, invalid_argument, failed_precondition, out_of_range, resource_exhausted, type_mach_port,
  type_windows_handle, type_file_descriptor,
}
use voodoo.System.Table.{lookup, alloc, free_handle}
use voodoo.System.Platform.{Host, windows, apple, posix, platform_type_ok, close_native}

-- The operating system: which host it is, and the address at which it maps a region, if it does.
pub record Os : Type 0 where
  pub host : Host
  pub map_view : SharedBufferObj → Option ℕ

abbrev pub no_buffer : SharedBufferObj
no_buffer = record {
  bytes = [];
  size = 0;
  plat_types = [];
  plat_values = [];
  plat_count = 0;
  plat_owns = false;
  guid_high = 0;
  guid_low = 0;
  access_mode = 0;
  os_base = none;
  os_mapped_size = 0;
}

abbrev pub buffer_at : Core → ℕ → SharedBufferObj
buffer_at c i = get_or c.buffers i no_buffer

abbrev pub put_buffer : Core → ℕ → SharedBufferObj → Core
put_buffer c i b = record c { buffers = set c.buffers i b }

abbrev pub buffer_of : Slot → Option ℕ
buffer_of (shared_buffer b) = some b
buffer_of _ = none

abbrev pub names_buffer : ℕ → Slot → Bool
names_buffer b (shared_buffer i) = i == b
names_buffer b _ = false

-- Whether a handle or a mapping still owns the buffer.
unfoldable pub is_owned : Core → ℕ → Bool
is_owned c b = exists (names_buffer b) c.slots || exists (λ (m : MappedRegion). m.buf == b) c.maps

-- The platform handles of a region, `plat_types[i]` with `plat_values[i]`, are closed in turn.
unfoldable pub close_regions : Host → List ℕ → List ℕ → Core → Core
close_regions host (t ∷ ts) (v ∷ vs) c =
    close_regions host ts vs (close_native host (record { type = t; value = v; owns = true }) c)
close_regions host _ _ c = c

-- The destructor of SharedBufferObj, which runs when the last owner goes.
unfoldable pub drop_buffer : Host → ℕ → Core → Core
unfolding close_regions is_owned
drop_buffer host b c =
    let buf = buffer_at c b in
    let c' =
      put_buffer c b (record buf { os_base = none; os_mapped_size = 0; plat_owns = false }) in
    if is_owned c b
    then c
    else if buf.plat_owns
    then close_regions host buf.plat_types buf.plat_values c'
    else c'

abbrev pub head_or : List ℕ → ℕ → ℕ
head_or [] d = d
head_or (x ∷ xs) d = x

-- Whether a region of this type can be mapped on the host.
abbrev pub mappable : Host → ℕ → Bool
mappable windows type = type == type_windows_handle
mappable apple type = type == type_file_descriptor
mappable posix type = type == type_file_descriptor

-- EnsureMapped; `none` where it returns false.
unfoldable pub ensure_mapped : Os → SharedBufferObj → Option SharedBufferObj
ensure_mapped os buf =
    let type = head_or buf.plat_types 0 in
    let in_process = some (record buf { bytes = replicate buf.size 0 }) in
    let view : Option SharedBufferObj = elim (os.map_view buf) [
      | none ↦ none
      | some p ↦ some (record buf { os_base = some p; os_mapped_size = buf.size })
    ] in
    elim buf.os_base [
      | some p ↦ some buf
      | none ↦
          if not (is_empty buf.bytes)
          then some buf
          else if buf.plat_count == 0 || buf.size == 0
          then none
          else if type == type_mach_port
          then in_process
          else if mappable os.host type
          then view
          else none
    ]

-- WhpCreateSharedBuffer
unfoldable pub create_shared_buffer : ℕ → Bool → Core → WhpResult × Option ℕ × Core
create_shared_buffer num_bytes present c =
    let buf = record no_buffer { bytes = replicate num_bytes 0; size = num_bytes } in
    let (h, c') =
      alloc (record c { buffers = c.buffers ++ buf ∷ [] }) (shared_buffer (length c.buffers)) in
    if not present || num_bytes == 0 then (invalid_argument, none, c) else (ok, some h, c')

-- WhpDuplicateBufferHandle
unfoldable pub duplicate_buffer_handle : ℕ → Bool → Core → WhpResult × Option ℕ × Core
duplicate_buffer_handle h present c = elim (buffer_of (lookup c h)) [
  | none ↦ (invalid_argument, none, c)
  | some b ↦
      let (h', c') = alloc c (shared_buffer b) in
      if present then (ok, some h', c') else (invalid_argument, none, c)
]

-- WhpGetBufferInfo
unfoldable pub get_buffer_info : ℕ → Bool → Core → WhpResult × Option ℕ
get_buffer_info h present c = elim (buffer_of (lookup c h)) [
  | none ↦ (invalid_argument, none)
  | some b ↦ if present then (ok, some (buffer_at c b).size) else (invalid_argument, none)
]

abbrev pub same_address : Address → Address → Bool
same_address a b = a.buffer == b.buffer && a.offset == b.offset

-- `auto& region = c.maps[p]; region.buf = buf; region.refs++`
unfoldable pub add_ref : Address → ℕ → List MappedRegion → List MappedRegion
add_ref p b [] = record { data_ptr = p; buf = b; refs = 1 } ∷ []
add_ref p b (m ∷ ms) =
    let rest = add_ref p b ms in
    if same_address m.data_ptr p then record m { buf = b; refs = suc m.refs } ∷ ms else m ∷ rest

-- `buf->os_base ? buf->size : buf->bytes.size()`
abbrev pub span : SharedBufferObj → ℕ
span buf = elim buf.os_base [ none ↦ length buf.bytes | some p ↦ buf.size ]

-- WhpMapBuffer once the buffer is found.
unfoldable pub map_found : Os → ℕ → ℕ → ℕ → Core → WhpResult × Option Address × Core
unfolding add_ref ensure_mapped
map_found os b offset num_bytes c = elim (ensure_mapped os (buffer_at c b)) [
  | none ↦ (failed_precondition, none, c)
  | some buf ↦
      let c' = put_buffer c b buf in
      let p : Address = record { buffer = b; offset = offset } in
      if ltb (span buf) (add64 offset num_bytes)
      then (out_of_range, none, c')
      else (ok, some p, record c' { maps = add_ref p b c'.maps })
]

-- WhpMapBuffer
unfoldable pub map_buffer : Os → ℕ → ℕ → ℕ → Bool → Core → WhpResult × Option Address × Core
unfolding map_found
map_buffer os h offset num_bytes present c = elim (buffer_of (lookup c h)) [
  | none ↦ (invalid_argument, none, c)
  | some b ↦ if present then map_found os b offset num_bytes c else (invalid_argument, none, c)
]

unfoldable pub find_region : Address → List MappedRegion → Option MappedRegion
find_region p [] = none
find_region p (m ∷ ms) = if same_address m.data_ptr p then some m else find_region p ms

-- `if (--it->second.refs == 0) c.maps.erase(it)`
unfoldable pub drop_ref : Address → List MappedRegion → List MappedRegion
drop_ref p [] = []
drop_ref p (m ∷ ms) =
    let rest = drop_ref p ms in
    if same_address m.data_ptr p
    then (if m.refs - 1 == 0 then ms else record m { refs = m.refs - 1 } ∷ ms)
    else m ∷ rest

-- WhpUnmapBuffer
unfoldable pub unmap_buffer : Host → Address → Core → WhpResult × Core
unfolding find_region drop_ref drop_buffer
unmap_buffer host p c = elim (find_region p c.maps) [
  | none ↦ (invalid_argument, c)
  | some m ↦
      if m.refs == 0
      then (invalid_argument, c)
      else (ok, drop_buffer host m.buf (record c { maps = drop_ref p c.maps }))
]

-- Whether each platform handle of a region is one that the host takes.
abbrev pub regions_ok : Host → List ℕ → List ℕ → Bool
regions_ok host (t ∷ ts) (v ∷ vs) =
    platform_type_ok host t && (not (t == type_mach_port && v == 0) && regions_ok host ts vs)
regions_ok host _ _ = true

-- WhpWrapPlatformSharedMemoryRegion. The two arrays hold `num_handles` entries each.
unfoldable pub wrap_region :
    Host → List ℕ → List ℕ → ℕ → ℕ → ℕ → ℕ → Bool → Core → WhpResult × Option ℕ × Core
wrap_region host types values num_bytes guid_high guid_low access_mode present c =
    let n = length types in
    let buf = record no_buffer {
      size = num_bytes;
      plat_types = types;
      plat_values = values;
      plat_count = n;
      plat_owns = true;
      guid_high = guid_high;
      guid_low = guid_low;
      access_mode = access_mode;
      bytes = if head_or types 0 == type_mach_port then replicate num_bytes 0 else [];
    } in
    let (h, c') =
      alloc (record c { buffers = c.buffers ++ buf ∷ [] }) (shared_buffer (length c.buffers)) in
    if not present || (num_bytes == 0 || (n == 0 || ltb 2 n)) || not (regions_ok host types values)
    then (invalid_argument, none, c)
    else (ok, some h, c')

-- WhpUnwrapPlatformSharedMemoryRegion, for a caller with arrays of `room` entries: the result,
-- what `*num_handles` becomes, the region (`none` where nothing is stored), and the core.
unfoldable pub unwrap_region :
    Host → ℕ → Bool → Bool → ℕ → Core → WhpResult × Option ℕ × Option SharedBufferObj × Core
unfolding drop_buffer
unwrap_region host h counted arrays room c = elim (buffer_of (lookup c h)) [
  | none ↦ (invalid_argument, none, none, c)
  | some b ↦
      let buf = buffer_at c b in
      let c' =
        drop_buffer host b (free_handle (put_buffer c b (record buf { plat_owns = false })) h) in
      if not counted
      then (invalid_argument, none, none, c)
      else if buf.plat_count == 0
      then (failed_precondition, none, none, c)
      else if not arrays || ltb room buf.plat_count
      then (resource_exhausted, some buf.plat_count, none, c)
      else (ok, some buf.plat_count, some buf, c')
]
