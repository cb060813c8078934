-- ===== src/System/Buffers/Mapping.antt =====
-- Mapped regions: what WhpMapBuffer hands out, and how it pairs with WhpUnmapBuffer.
use voodoo.Prelude.{
  ℕ, suc, false, subst, ◌+◌, ◌-◌, ◌<◌, ◌≡◌, sym, ap, ◌∙◌, inl, inr, ◌^◌, List, [], ◌∷◌, Bool, true,
  ◌&&◌, Option, none, some, arith, ltb, ◌==◌, ◌||◌, not, is_some, is_empty, length,
  length-replicate, Option-cases, ◌≤◌, refl, ◌%◌, if◌then◌else◌, ==_refl, Bool-cases, if-true,
  if-false,
}
use voodoo.System.Types.{
  Core, MappedRegion, Address, SharedBufferObj, WhpResult, ok, out_of_range, failed_precondition,
  invalid_argument, type_mach_port, shared_buffer,
}
use voodoo.System.Table.{lookup}
use voodoo.System.Buffers.{
  Os, same_address, add_ref, drop_ref, span, map_found, map_buffer, buffer_of, ensure_mapped,
  buffer_at, put_buffer, head_or, mappable,
}

-- How many mappings of an address are outstanding.
unfoldable pub refs_of : Address → List MappedRegion → ℕ
refs_of p [] = 0
refs_of p (m ∷ ms) = let rest = refs_of p ms in if same_address m.data_ptr p then m.refs else rest

same_address_refl : (p : Address) → same_address p p ≡ true
same_address_refl p = ground (arith, ==_refl p.buffer, ==_refl p.offset)

-- Mapping counts one more use at the address that it returns.
pub refs_of-add_ref :
    (p : Address) (b : ℕ) (ms : List MappedRegion) → refs_of p (add_ref p b ms) ≡ suc (refs_of p ms)
unfolding refs_of add_ref
refs_of-add_ref p b [] = if-true _ _ (same_address_refl p)
refs_of-add_ref p b (m ∷ ms) = elim (Bool-cases (same_address m.data_ptr p)) [
  | inl h ↦ ap (refs_of p) (if-true _ _ h) ∙ if-true _ _ h ∙ sym (ap suc (if-true _ _ h))
  | inr h ↦
      ap (refs_of p) (if-false _ _ h)
      ∙ if-false _ _ h
      ∙ refs_of-add_ref p b ms
      ∙ sym (ap suc (if-false _ _ h))
]

-- A region that is in the table is in use.
abbrev pub all_used : List MappedRegion → Bool
all_used [] = true
all_used (m ∷ ms) = ltb 0 m.refs && all_used ms

-- The region in front, once its use has been counted, is back at its count after one unmapping.
drop_ref_head :
    (p : Address) (m : MappedRegion) (ms : List MappedRegion)
    → same_address m.data_ptr p ≡ true
    → (b : ℕ) → 0 < m.refs
    → drop_ref p (record m { buf = b; refs = suc m.refs } ∷ ms) ≡ record m { buf = b } ∷ ms
unfolding drop_ref
drop_ref_head p m ms h b u = if-true _ _ h ∙ ground arith

-- Where every region of the table is in use, mapping an address and unmapping it leaves its count
-- of uses as it was.
pub drop_ref-add_ref :
    (p : Address) (b : ℕ) (ms : List MappedRegion)
    → all_used ms ≡ true
    → refs_of p (drop_ref p (add_ref p b ms)) ≡ refs_of p ms
unfolding drop_ref add_ref refs_of
drop_ref-add_ref p b [] u = ap (refs_of p) (if-true _ _ (same_address_refl p))
drop_ref-add_ref p b (m ∷ ms) u = elim (Bool-cases (same_address m.data_ptr p)) [
  | inl h ↦
      ap (λ x. refs_of p (drop_ref p x)) (if-true _ _ h)
      ∙ ap (refs_of p) (drop_ref_head p m ms h b (ground arith))
      ∙ if-true _ _ h
      ∙ sym (if-true _ _ h)
  | inr h ↦
      ap (λ x. refs_of p (drop_ref p x)) (if-false _ _ h)
      ∙ ap (refs_of p) (if-false _ _ h)
      ∙ if-false _ _ h
      ∙ drop_ref-add_ref p b ms (ground arith)
      ∙ sym (if-false _ _ h)
]

-- A buffer holds no bytes of its own, or as many as its size says.
abbrev pub is_sized : SharedBufferObj → Bool
is_sized buf = is_empty buf.bytes || length buf.bytes == buf.size

-- The memory of a buffer can be had: it is there already, or it is a region with a size that lives
-- in the process or that the host can map and does.
abbrev pub can_map : Os → SharedBufferObj → Bool
can_map os buf =
    is_some buf.os_base
    || not (is_empty buf.bytes)
    || (not (buf.plat_count == 0)
        && not (buf.size == 0)
        && (head_or buf.plat_types 0 == type_mach_port
            || (mappable os.host (head_or buf.plat_types 0) && is_some (os.map_view buf))))

-- What EnsureMapped finds or makes is as large as the buffer.
ensure_mapped-span :
    (os : Os) (buf buf' : SharedBufferObj)
    → is_sized buf ≡ true
    → ensure_mapped os buf ≡ some buf'
    → span buf' ≡ buf.size
unfolding ensure_mapped
ensure_mapped-span os buf buf' v e = ground (arith, length-replicate {A = ℕ} buf.size 0)

is_some-ensure_mapped :
    (os : Os) (buf : SharedBufferObj) → is_some (ensure_mapped os buf) ≡ can_map os buf
unfolding ensure_mapped
is_some-ensure_mapped os buf = ground arith

module _ (os : Os) (b offset n : ℕ) (c : Core) (v : is_sized (buffer_at c b) ≡ true)
    (l : offset + n < 2 ^ 64) where
  -- The address of the first byte of the range.
  abbrev first_byte : Address
  first_byte = record { buffer = b; offset = offset }

  map_found-unmappable :
      can_map os (buffer_at c b) ≡ false
      → map_found os b offset n c ≡ (failed_precondition, none, c)
  unfolding map_found
  map_found-unmappable h = elim (Option-cases (ensure_mapped os (buffer_at c b))) [
    | inl e ↦ rw (e, map_found) refl
    | inr (buf, e) ↦ absurd (cc (h, is_some-ensure_mapped os (buffer_at c b), ap is_some e))
  ]

  module _ (h : can_map os (buffer_at c b) ≡ true) where
    ensured : (buf : SharedBufferObj) × (ensure_mapped os (buffer_at c b) ≡ some buf)
    ensured = elim (Option-cases (ensure_mapped os (buffer_at c b))) [
      | inl e ↦ absurd (cc (h, is_some-ensure_mapped os (buffer_at c b), ap is_some e))
      | inr e ↦ e
    ]

    in_span : span ensured.0 ≡ (buffer_at c b).size
    in_span = ensure_mapped-span os (buffer_at c b) ensured.0 v ensured.1

    map_found-outside :
        (buffer_at c b).size < offset + n
        → map_found os b offset n c ≡ (out_of_range, none, put_buffer c b ensured.0)
    unfolding map_found
    map_found-outside o =
        let e = ensured.1 in
        rw (e, map_found)
          (if-true {b = ltb (span ensured.0) ((offset + n) % 2 ^ 64)} _ _ (ground (arith, in_span)))

    map_found-inside :
        offset + n ≤ (buffer_at c b).size
        → map_found os b offset n c ≡ (
          ok,
          some first_byte,
          record (put_buffer c b ensured.0) { maps = add_ref first_byte b c.maps },
        )
    unfolding map_found
    map_found-inside o =
        let e = ensured.1 in
        rw (e, map_found)
          (if-false {b = ltb (span ensured.0) ((offset + n) % 2 ^ 64)} _ _
            (ground (arith, in_span)))

-- WhpMapBuffer through a handle of a buffer whose bytes are as many as its size, for an offset and a
-- length that do not overflow 64 bits: where the memory of the buffer cannot be had it fails with
-- failed_precondition and changes nothing; where it can, it fails with out_of_range, and maps
-- nothing, if the range ends beyond the size, and otherwise succeeds with the address of the first
-- byte, which has one more use than before.
pub map_buffer_lem :
    (os : Os) (h b offset n : ℕ) (c : Core)
    → lookup c h ≡ shared_buffer b
    → is_sized (buffer_at c b) ≡ true
    → offset + n < 2 ^ 64
    → let (result, address, d) = map_buffer os h offset n true c in
      let p : Address = record { buffer = b; offset = offset } in
      (can_map os (buffer_at c b) ≡ false
        → (result ≡ failed_precondition) × (address ≡ none) × (d ≡ c))
      × (can_map os (buffer_at c b) ≡ true
          → (buffer_at c b).size < offset + n
          → (result ≡ out_of_range) × (address ≡ none) × (d.maps ≡ c.maps))
      × (can_map os (buffer_at c b) ≡ true
          → offset + n ≤ (buffer_at c b).size
          → (result ≡ ok) × (address ≡ some p) × (refs_of p d.maps ≡ suc (refs_of p c.maps)))
map_buffer_lem os h b offset n c e v l =
    subst
      (λ (r : WhpResult × Option Address × Core).
        (can_map os (buffer_at c b) ≡ false
          → (r.0 ≡ failed_precondition) × (r.1 ≡ none) × (r.2 ≡ c))
        × (can_map os (buffer_at c b) ≡ true
            → (buffer_at c b).size < offset + n
            → (r.0 ≡ out_of_range) × (r.1 ≡ none) × (r.2.maps ≡ c.maps))
        × (can_map os (buffer_at c b) ≡ true
            → offset + n ≤ (buffer_at c b).size
            → (r.0 ≡ ok)
              × (r.1 ≡ some (record { buffer = b; offset = offset }))
              × (refs_of (record { buffer = b; offset = offset }) r.2.maps
                  ≡ suc (refs_of (record { buffer = b; offset = offset }) c.maps))))
      (sym found)
      (
        λ k.
            let r = map_found-unmappable os b offset n c v l k in
            (ap (λ o. o.0) r, ap (λ o. o.1) r, ap (λ o. o.2) r),
        λ k o.
            let r = map_found-outside os b offset n c v l k o in
            (ap (λ x. x.0) r, ap (λ x. x.1) r, ap (λ x. x.2.maps) r),
        λ k o.
            let r = map_found-inside os b offset n c v l k o in
            (
              ap (λ x. x.0) r,
              ap (λ x. x.1) r,
              ap (λ x. refs_of (record { buffer = b; offset = offset }) x.2.maps) r
                  ∙ refs_of-add_ref (record { buffer = b; offset = offset }) b c.maps,
            ),
      )
  where
    found : map_buffer os h offset n true c ≡ map_found os b offset n c
    found =
        unfold map_buffer in
        ap
          (λ (o : Option ℕ). elim o [
            | none ↦ (invalid_argument, none, c)
            | some i ↦ map_found os i offset n c
          ])
          (ap buffer_of e)

-- Where the memory of the buffer can be had, WhpMapBuffer accepts every range of `n` bytes that
-- starts `n` below 2 ^ 64, for each `n` above 0 and below 2 ^ 64, however small the buffer is.
pub map_found_wraps :
    (os : Os) (b n : ℕ) (c : Core) (buf : SharedBufferObj)
    → ensure_mapped os (buffer_at c b) ≡ some buf
    → n < 2 ^ 64
    → 0 < n
    → (map_found os b (2 ^ 64 - n) n c).0 ≡ ok
unfolding map_found
map_found_wraps os b n c buf e l p = rw (e, map_found) ground arith
