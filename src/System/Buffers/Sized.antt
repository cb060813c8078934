-- ===== src/System/Buffers/Sized.antt =====
-- A buffer holds no bytes of its own or as many as its size says, from the calls that make buffers
-- to the call that maps them.
use voodoo.Prelude.{
  ℕ, ◌≡◌, sym, subst, ◌==◌, List, [], ◌∷◌, ◌++◌, Bool, true, false, Option, none, some,
  if◌then◌else◌, arith, length, get_or, length-replicate, get_or-append_left, get_or-append_last,
  get_or_above, length-append,
}
use voodoo.System.Types.{Core, SharedBufferObj, shared_buffer, WhpResult, ok, invalid_argument}
use voodoo.System.Table.Free.{buffers-alloc}
use voodoo.System.Table.{alloc}
use voodoo.System.Platform.{Host}
use voodoo.System.Buffers.{Os, no_buffer, ensure_mapped, create_shared_buffer, wrap_region}
use voodoo.System.Buffers.Mapping.{is_sized}

abbrev pub AllSized : List SharedBufferObj → Type 0
AllSized buffers = (i : ℕ) → is_sized (get_or buffers i no_buffer) ≡ true

AllSized-append :
    (bs : List SharedBufferObj) (b : SharedBufferObj)
    → AllSized bs
    → is_sized b ≡ true
    → AllSized (bs ++ b ∷ [])
AllSized-append bs b v s i = ground (
  arith,
  v i,
  length-append bs (b ∷ []),
  get_or-append_left bs (b ∷ []) i no_buffer,
  get_or-append_last bs b no_buffer,
  get_or_above (bs ++ b ∷ []) i no_buffer,
)

-- A new buffer that is sized, stored unless the arguments are bad.
made-AllSized :
    (bad : Bool) (buf : SharedBufferObj) (c : Core)
    → is_sized buf ≡ true
    → AllSized c.buffers
    → let (h, d) =
        alloc (record c { buffers = c.buffers ++ buf ∷ [] }) (shared_buffer (length c.buffers)) in
      let out : WhpResult × Option ℕ × Core =
        if bad then (invalid_argument, none, c) else (ok, some h, d) in
      AllSized out.2.buffers
made-AllSized true buf c s v = v
made-AllSized false buf c s v =
    subst AllSized
      (sym (
        buffers-alloc (record c { buffers = c.buffers ++ buf ∷ [] })
          (shared_buffer (length c.buffers))))
      (AllSized-append c.buffers buf v s)

-- WhpCreateSharedBuffer gives a buffer the bytes that it says.
pub create_shared_buffer-AllSized :
    (num_bytes : ℕ) (c : Core)
    → AllSized c.buffers
    → AllSized (create_shared_buffer num_bytes true c).2.buffers
unfolding create_shared_buffer
create_shared_buffer-AllSized num_bytes c v =
    made-AllSized (num_bytes == 0) _ c (ground (arith, length-replicate {A = ℕ} num_bytes 0)) v

-- So does WhpWrapPlatformSharedMemoryRegion.
pub wrap_region-AllSized :
    (host : Host) (types values : List ℕ) (num_bytes guid_high guid_low access_mode : ℕ) (c : Core)
    → AllSized c.buffers
    → AllSized
        (wrap_region host types values num_bytes guid_high guid_low access_mode true c).2.buffers
unfolding wrap_region
wrap_region-AllSized host types values num_bytes guid_high guid_low access_mode c v =
    made-AllSized _ _ c (ground (arith, length-replicate {A = ℕ} num_bytes 0)) v

-- What EnsureMapped finds or makes is sized as well.
pub ensure_mapped-is_sized :
    (os : Os) (buf buf' : SharedBufferObj)
    → is_sized buf ≡ true
    → ensure_mapped os buf ≡ some buf'
    → is_sized buf' ≡ true
unfolding ensure_mapped
ensure_mapped-is_sized os buf buf' v e = ground (arith, length-replicate {A = ℕ} buf.size 0)
