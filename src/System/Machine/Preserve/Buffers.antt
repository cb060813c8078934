-- ===== src/System/Machine/Preserve/Buffers.antt =====
-- The calls on buffers and platform handles, and WhpClose, keep the handle table sound.
use voodoo.Prelude.{
  ℕ, add64, ◌≡◌, refl, ◌∙◌, List, ◌∷◌, Bool, true, false, not, ◌||◌, Option, none, some, arith, ltb,
  ◌==◌, if◌then◌else◌, length, Option-cases, Bool-cases, inl, inr,
}
use voodoo.System.Types.{
  Core, Slot, free, message_pipe, message, trap, data_pipe_producer, data_pipe_consumer,
  shared_buffer, platform, PlatformObj, Address,
}
use voodoo.System.Table.{lookup, free_handle}
use voodoo.System.Table.Sound.{
  IsSound, same_table-IsSound, free_handle-IsSound, alloc-IsSound, free_trap-IsSound,
}
use voodoo.System.Machine.Preserve.Blocks.{collect-IsSound, platform_of-eq, buffer_of-eq}
use voodoo.System.Messages.{Callbacks, call_destructor}
use voodoo.System.Machine.Preserve.Messages.{KeepSound}
use voodoo.System.Traps.{close_trap}
use voodoo.System.Table.Free.{lookup-slots}
use voodoo.System.Table.Validity.{is_free, is_trap}
use voodoo.System.Platform.{
  Host, close_native, wraps, wrap_platform_handle, unwrap_platform_handle, platform_of,
}
use voodoo.System.Buffers.{
  Os, buffer_at, buffer_of, put_buffer, drop_buffer, close_regions, create_shared_buffer,
  duplicate_buffer_handle, ensure_mapped, map_found, map_buffer, span, unmap_buffer, find_region,
  drop_ref, wrap_region, unwrap_region, regions_ok,
}
use voodoo.System.Close.{release, close_slot, close}

-- A change of the store alone.
pub record SameTable (c d : Core) : Type 0 where
  pub slots : d.slots ≡ c.slots
  pub free_list : d.free_list ≡ c.free_list
  pub traps : d.traps ≡ c.traps

SameTable-IsSound : (c d : Core) → SameTable c d → IsSound c → IsSound d
SameTable-IsSound c d t v = same_table-IsSound v t.slots t.free_list t.traps

pub close_native-SameTable :
    (host : Host) (p : PlatformObj) (c : Core) → SameTable c (close_native host p c)
unfolding close_native
close_native-SameTable host p c = ground arith

close_regions-SameTable :
    (host : Host) (ts vs : List ℕ) (c : Core) → SameTable c (close_regions host ts vs c)
unfolding close_regions
close_regions-SameTable host (t ∷ ts) (u ∷ vs) c = ground (
  arith,
  close_native-SameTable host (record { type = t; value = u; owns = true }) c,
  close_regions-SameTable host ts vs
      (close_native host (record { type = t; value = u; owns = true }) c),
)
close_regions-SameTable host _ _ c = record { slots = refl; free_list = refl; traps = refl }

pub drop_buffer-SameTable : (host : Host) (b : ℕ) (c : Core) → SameTable c (drop_buffer host b c)
unfolding drop_buffer
drop_buffer-SameTable host b c = ground (
  arith,
  close_regions-SameTable host (buffer_at c b).plat_types (buffer_at c b).plat_values (
      put_buffer c b
        (record (buffer_at c b) { os_base = none; os_mapped_size = 0; plat_owns = false })),
)

pub create_shared_buffer-IsSound :
    (n : ℕ) (c : Core) → IsSound c → IsSound (create_shared_buffer n true c).2
unfolding create_shared_buffer
create_shared_buffer-IsSound n c v = elim (Bool-cases (n == 0)) [
  | inl b ↦ rw b v
  | inr b ↦ rw b (alloc-IsSound _ _ (same_table-IsSound v refl refl refl) refl refl)
]

pub duplicate-IsSound :
    (h : ℕ) (c : Core) → IsSound c → IsSound (duplicate_buffer_handle h true c).2
unfolding duplicate_buffer_handle
duplicate-IsSound h c v = elim (Option-cases (buffer_of (lookup c h))) [
  | inl e ↦ rw (e, duplicate_buffer_handle) v
  | inr (b, e) ↦ rw (e, duplicate_buffer_handle) (alloc-IsSound c (shared_buffer b) v refl refl)
]

map_found-IsSound :
    (os : Os) (b offset n : ℕ) (c : Core) → IsSound c → IsSound (map_found os b offset n c).2
unfolding map_found
map_found-IsSound os b offset n c v = elim (Option-cases (ensure_mapped os (buffer_at c b))) [
  | inl e ↦ rw (e, map_found) v
  | inr (buf, e) ↦ elim (Bool-cases (ltb (span buf) (add64 offset n))) [
    | inl t ↦ rw (e, map_found, t) (same_table-IsSound v refl refl refl)
    | inr t ↦ rw (e, map_found, t) (same_table-IsSound v refl refl refl)
  ]
]

pub map_buffer-IsSound :
    (os : Os) (h offset n : ℕ) (c : Core) → IsSound c → IsSound (map_buffer os h offset n true c).2
map_buffer-IsSound os h offset n c v = elim (Option-cases (buffer_of (lookup c h))) [
  | inl e ↦ unfold map_buffer in rw (e, map_buffer) v
  | inr (b, e) ↦ unfold map_buffer in rw (e, map_buffer) (map_found-IsSound os b offset n c v)
]

pub unmap_buffer-IsSound :
    (host : Host) (p : Address) (c : Core) → IsSound c → IsSound (unmap_buffer host p c).1
unmap_buffer-IsSound host p c v = elim (Option-cases (find_region p c.maps)) [
  | inl e ↦ unfold unmap_buffer in rw (e, unmap_buffer) v
  | inr (m, e) ↦ elim (Bool-cases (m.refs == 0)) [
    | inl b ↦ unfold unmap_buffer in rw (e, unmap_buffer, b) v
    | inr b ↦
        unfold unmap_buffer in
        rw (e, unmap_buffer, b)
          (SameTable-IsSound _ _
            (drop_buffer-SameTable host m.buf (record c { maps = drop_ref p c.maps }))
            (same_table-IsSound v refl refl refl))
  ]
]

pub wrap_platform_handle-IsSound :
    (host : Host) (type value : ℕ) (c : Core)
    → IsSound c
    → IsSound (wrap_platform_handle host type value true c).2
wrap_platform_handle-IsSound host type value c v = elim (Bool-cases (wraps host type value)) [
  | inl b ↦ unfold wrap_platform_handle in rw b (alloc-IsSound c _ v refl refl)
  | inr b ↦ unfold wrap_platform_handle in rw b v
]

pub unwrap_platform_handle-IsSound :
    (h : ℕ) (c : Core) → IsSound c → IsSound (unwrap_platform_handle h true c).2
unfolding unwrap_platform_handle
unwrap_platform_handle-IsSound h c v = elim (Option-cases (platform_of (lookup c h))) [
  | inl e ↦ rw (e, unwrap_platform_handle) v
  | inr (p, e) ↦
      rw (e, unwrap_platform_handle)
        (free_handle-IsSound c h (platform p) v (platform_of-eq (lookup c h) p e) refl refl)
]

pub wrap_region-IsSound :
    (host : Host) (types values : List ℕ) (n high low mode : ℕ) (c : Core)
    → IsSound c
    → IsSound (wrap_region host types values n high low mode true c).2
unfolding wrap_region
wrap_region-IsSound host types values n high low mode c v =
    elim (Bool-cases (
      (n == 0 || (length types == 0 || ltb 2 (length types)))
      || not (regions_ok host types values))) [
        | inl b ↦ rw b v
        | inr b ↦ rw b (alloc-IsSound _ _ (same_table-IsSound v refl refl refl) refl refl)
      ]

-- An object that is no trap is let go of, whatever has become of the store.
freed-IsSound :
    (c d : Core) (h : ℕ) (s : Slot)
    → IsSound c
    → lookup c h ≡ s
    → is_free s ≡ false
    → is_trap s ≡ false
    → SameTable c d
    → IsSound (free_handle d h)
freed-IsSound c d h s v e f t k =
    free_handle-IsSound d h s (SameTable-IsSound c d k v) (lookup-slots c d h k.slots ∙ e) f t

pub unwrap_region-IsSound :
    (host : Host) (h room : ℕ) (c : Core)
    → IsSound c
    → IsSound (unwrap_region host h true true room c).3
unfolding unwrap_region
unwrap_region-IsSound host h room c v = elim (Option-cases (buffer_of (lookup c h))) [
  | inl e ↦ rw (e, unwrap_region) v
  | inr (b, e) ↦
      let d : Core =
        free_handle (put_buffer c b (record (buffer_at c b) { plat_owns = false })) h in
      rw (e, unwrap_region)
        (ground (
          arith,
          v,
          SameTable-IsSound d (drop_buffer host b d) (drop_buffer-SameTable host b d) (
              freed-IsSound c (put_buffer c b (record (buffer_at c b) { plat_owns = false })) h
                (shared_buffer b) v (buffer_of-eq (lookup c h) b e) refl refl
                (record { slots = refl; free_list = refl; traps = refl })),
        ))
]

no_change : (c : Core) → SameTable c c
no_change c = record { slots = refl; free_list = refl; traps = refl }

module _ (host : Host) (h : ℕ) (c : Core) (v : IsSound c) where
  freed :
      (d : Core) (s : Slot)
      → lookup c h ≡ s
      → is_free s ≡ false
      → is_trap s ≡ false
      → SameTable c d
      → IsSound (free_handle d h)
  freed d s e f t k = freed-IsSound c d h s v e f t k

  pub release-IsSound :
      (s : Slot) → lookup c h ≡ s → is_free s ≡ false → IsSound (release host h s c)
  unfolding release close_trap
  release-IsSound free e f = cc
  release-IsSound (message_pipe p) e f =
      freed _ _ e refl refl (record { slots = refl; free_list = refl; traps = refl })
  release-IsSound (message m) e f = freed c _ e refl refl (no_change c)
  release-IsSound (trap t) e f = free_trap-IsSound c (close_trap c h t) h t v e refl refl refl
  release-IsSound (data_pipe_producer p) e f =
      freed _ _ e refl refl (record { slots = refl; free_list = refl; traps = refl })
  release-IsSound (data_pipe_consumer p) e f =
      freed _ _ e refl refl (record { slots = refl; free_list = refl; traps = refl })
  release-IsSound (shared_buffer b) e f =
      SameTable-IsSound _ _ (drop_buffer-SameTable host b (free_handle c h))
        (freed c _ e refl refl (no_change c))
  release-IsSound (platform p) e f = freed _ _ e refl refl (owned p.owns)
    where
      owned : (b : Bool) → SameTable c (if b then close_native host p c else c)
      owned true = close_native-SameTable host p c
      owned false = no_change c

module _ (host : Host) (cb : Callbacks) (keeps : KeepSound cb) (h : ℕ) (c : Core)
    (v : IsSound c) where
  -- A message's own destructor runs last.
  close_slot-IsSound : (s : Slot) → lookup c h ≡ s → IsSound (close_slot host cb h s c).1
  close_slot-IsSound free e = v
  close_slot-IsSound (message m) e =
      dtor m.destructor m.context _
        (collect-IsSound _ (release-IsSound host h c v (message m) e refl))
    where
      dtor : (o : Option ℕ) (x : ℕ) (d : Core) → IsSound d → IsSound (call_destructor cb o x d)
      dtor none x d w = w
      dtor (some f) x d w = keeps.destroy f x d w
  close_slot-IsSound (message_pipe p) e = collect-IsSound _ (release-IsSound host h c v _ e refl)
  close_slot-IsSound (trap t) e = collect-IsSound _ (release-IsSound host h c v _ e refl)
  close_slot-IsSound (data_pipe_producer p) e =
      collect-IsSound _ (release-IsSound host h c v _ e refl)
  close_slot-IsSound (data_pipe_consumer p) e =
      collect-IsSound _ (release-IsSound host h c v _ e refl)
  close_slot-IsSound (shared_buffer b) e = collect-IsSound _ (release-IsSound host h c v _ e refl)
  close_slot-IsSound (platform p) e = collect-IsSound _ (release-IsSound host h c v _ e refl)

  pub close-IsSound : IsSound (close host cb h c).1
  unfolding close
  close-IsSound = close_slot-IsSound (lookup c h) refl
